-- ===== src/WifiProfile/Traces.antt =====
-- What the policy asks of the platform, call by call.
use network_service.Prelude.{
  Bool, true, false, List, [], ◌∷◌, ◌⊎◌, inl, inr, ◌≡◌, ◌≢◌, none, Bytes, arith, Option-cases,
}
use network_service.Prelude.Int.{ℤ}
use network_service.WifiProfile.{
  WifiProfilePolicyOps, is_negative, activate_profile, connect_new, connect_saved, forget,
  set_autoconnect,
}
use network_service.WifiProfile.Log.{
  Call, raised, created, found, disabled_all, set_enabled, selected, removed, saved, logging,
  silent,
}

-- The profile is removed by one of the calls.
abbrev pub Removed : ℤ → List Call → Type 0
Removed id [] = ⊥
Removed id (removed n b ∷ cs) = (id ≡ n) ⊎ Removed id cs
Removed id (_ ∷ cs) = Removed id cs

-- Each profile that one of the calls creates is removed by a later one.
abbrev pub Undone : List Call → Type 0
Undone [] = Unit
Undone (created s k n ∷ cs) = ((is_negative n ≡ true) ⊎ Removed n cs) × Undone cs
Undone (_ ∷ cs) = Undone cs

-- None of the calls creates, removes or saves a profile.
abbrev pub KeepsProfiles : List Call → Type 0
KeepsProfiles [] = Unit
KeepsProfiles (created _ _ _ ∷ cs) = ⊥
KeepsProfiles (removed _ _ ∷ cs) = ⊥
KeepsProfiles (saved _ ∷ cs) = ⊥
KeepsProfiles (_ ∷ cs) = KeepsProfiles cs

module _ {W : Type 0} (p : WifiProfilePolicyOps W) (w : W) (ssid : Bytes) where
  -- A profile is forgotten only by finding it, removing it and saving, each with success.
  pub forget_calls :
      (forget (logging p) ssid (silent w)).value ≡ true
      → (id : ℤ) × (is_negative id ≡ false)
        × ((forget (logging p) ssid (silent w)).world.calls
            ≡ found ssid id ∷ removed id true ∷ saved true ∷ [])
  unfolding forget
  forget_calls h = elim (Option-cases p.find_profile) [
    | inl e ↦ absurd (ground arith)
    | inr (find, e) ↦ ((find ssid [] w).value, ground arith, ground arith)
  ]

  -- Autoconnect is changed only by finding the profile, enabling or disabling it as asked and
  -- saving, each with success.
  pub set_autoconnect_calls :
      (enabled : Bool)
      → (set_autoconnect (logging p) ssid enabled (silent w)).value ≡ true
      → (id : ℤ) × (is_negative id ≡ false)
        × ((set_autoconnect (logging p) ssid enabled (silent w)).world.calls
            ≡ found ssid id ∷ set_enabled id enabled true ∷ saved true ∷ [])
  unfolding set_autoconnect
  set_autoconnect_calls enabled h = elim (Option-cases p.find_profile) [
    | inl e ↦ absurd (ground arith)
    | inr (find, e) ↦ ((find ssid [] w).value, ground arith, ground arith)
  ]

  -- Connecting to a saved network creates, removes and saves no profile, on every path.
  pub connect_saved-KeepsProfiles :
      KeepsProfiles (connect_saved (logging p) ssid (silent w)).world.calls
  unfolding connect_saved activate_profile
  connect_saved-KeepsProfiles = ground arith

  -- Where the port that removes profiles is set, a failed connection to a new network asks for the
  -- removal of each profile that it created, unless the platform gave that a negative id.
  pub connect_new-Undone :
      (password : Bytes)
      → p.remove_profile ≢ none
      → (connect_new (logging p) ssid password (silent w)).value ≡ false
      → Undone (connect_new (logging p) ssid password (silent w)).world.calls
  unfolding connect_new activate_profile
  connect_new-Undone password can h = ground arith

-- At most one call, and that saves the profiles.
abbrev pub OnlySaves : List Call → Type 0
OnlySaves [] = Unit
OnlySaves (saved s ∷ []) = Unit
OnlySaves _ = ⊥

-- The calls of a successful connection: the interface is up, the profile is created, others are
-- disabled if that can be done, this one is enabled and selected, and profiles are saved if they
-- can be.
abbrev pub Connects : Bytes → Bytes → ℤ → List Call → Type 0
Connects ssid password id
      (raised a ∷ created s k n ∷ disabled_all b ∷ set_enabled m c d ∷ selected q e ∷ rest) =
    (a ≡ true)
    × (s ≡ ssid)
    × (k ≡ password)
    × (n ≡ id)
    × (m ≡ id)
    × (c ≡ true)
    × (d ≡ true)
    × (q ≡ id)
    × (e ≡ true)
    × OnlySaves rest
Connects ssid password id _ = ⊥

module _ {W : Type 0} (p : WifiProfilePolicyOps W) (w : W) (ssid password : Bytes) where
  -- A successful connection to a new network has made exactly the calls of `Connects`, for one
  -- profile that is not negative; in particular it has removed none.
  pub connect_new-Connects :
      (connect_new (logging p) ssid password (silent w)).value ≡ true
      → (id : ℤ) × (is_negative id ≡ false)
        × Connects ssid password id (connect_new (logging p) ssid password (silent w)).world.calls
  unfolding connect_new activate_profile
  connect_new-Connects h = elim (Option-cases p.create_profile) [
    | inl e ↦ absurd (ground arith)
    | inr (create, e) ↦ elim (Option-cases p.ensure_interface_up) [
      | inl e' ↦ absurd (ground arith)
      | inr (up, e') ↦
          ((create ssid password (up [] w).error (up [] w).world).value, ground arith, ground arith)
    ]
  ]
