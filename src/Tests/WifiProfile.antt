-- ===== src/Tests/WifiProfile.antt =====
-- A platform that knows one profile, and one whose selection fails.
use network_service.Prelude.{ℕ, ◌≡◌, refl, true, false, [], ◌∷◌, suc, some, Bytes, codes, arith}
use network_service.Prelude.Int.{ℤ, pos}
use network_service.WifiProfile.{
  Out, WifiProfilePolicyOps, is_negative, connect_new, activate_new, activate_profile,
  activate_ports, roll_back, best_effort, forget, set_autoconnect,
}
use network_service.WifiProfile.Log.{
  raised, created, disabled_all, set_enabled, selected, removed, saved, logging, silent,
}
use network_service.WifiProfile.Traces.{Undone, Connects, connect_new-Undone, connect_new-Connects}

-- The world counts the calls.
abbrev answer : {A : Type 0} → A → Bytes → ℕ → Out A ℕ
answer v e w = record { value = v; error = e; world = suc w }

abbrev platform : WifiProfilePolicyOps ℕ
platform = record {
  ensure_interface_up = some (λ e w. answer true e w);
  create_profile = some (λ s k e w. answer (pos 3) e w);
  find_profile = some (λ s e w. answer (pos 3) e w);
  disable_all_profiles = some (λ e w. answer false e w);
  set_profile_enabled = some (λ n b e w. answer true e w);
  select_profile = some (λ n e w. answer true e w);
  remove_profile = some (λ n e w. answer true e w);
  save_profiles = some (λ e w. answer true e w);
}

abbrev stubborn : WifiProfilePolicyOps ℕ
stubborn = record platform { select_profile = some (λ n e w. answer false (codes "FAIL") w) }

abbrev home : Bytes
home = codes "home"

abbrev secret : Bytes
secret = codes "secret"

forgets : (forget (logging platform) home (silent 0)).value ≡ true
unfolding forget
forgets = refl

disables : (set_autoconnect (logging platform) home false (silent 0)).value ≡ true
unfolding set_autoconnect
disables = refl

cannot_select : (connect_new (logging stubborn) home secret (silent 0)).value ≡ false
unfolding connect_new activate_new activate_profile activate_ports
cannot_select = refl

connect_new-Undone_example :
    Undone (connect_new (logging stubborn) home secret (silent 0)).world.calls
connect_new-Undone_example = connect_new-Undone stubborn 0 home secret (ground arith) cannot_select

connects : (connect_new (logging platform) home secret (silent 0)).value ≡ true
unfolding connect_new activate_new activate_profile activate_ports
connects = refl

connect_new-Connects_example :
    (id : ℤ) × (is_negative id ≡ false)
    × Connects home secret id (connect_new (logging platform) home secret (silent 0)).world.calls
connect_new-Connects_example = connect_new-Connects platform 0 home secret connects

-- The profile that could not be selected is removed, and that is saved.
rolled_back :
    (connect_new (logging stubborn) home secret (silent 0)).world.calls
    ≡ raised true
      ∷ created home secret (pos 3)
      ∷ disabled_all false
      ∷ set_enabled (pos 3) true true
      ∷ selected (pos 3) false
      ∷ removed (pos 3) true
      ∷ saved true
      ∷ []
unfolding connect_new activate_new activate_profile activate_ports roll_back best_effort
rolled_back = refl
