-- ===== src/WifiProfile/Log.antt =====
-- Ports that write down each call with its answer, to speak of what the policy asks of the
-- platform.
use network_service.Prelude.{Bool, List, [], ◌∷◌, ◌++◌, ◌⊎◌, ◌≡◌, Bytes}
use network_service.Prelude.Int.{ℤ}
use mathlib.Core.Option
use network_service.WifiProfile.{Out, WifiProfilePolicyOps}

pub data Call : Type 0 where
  raised : Bool → Call
  created : Bytes → Bytes → ℤ → Call
  found : Bytes → ℤ → Call
  disabled_all : Bool → Call
  set_enabled : ℤ → Bool → Bool → Call
  selected : ℤ → Bool → Call
  removed : ℤ → Bool → Call
  saved : Bool → Call

-- The platform's own world, and the calls so far in order.
pub record Logged (W : Type 0) : Type 0 where
  pub inner : W
  pub calls : List Call

module _ {W : Type 0} where
  abbrev pub log : {A : Type 0} → (A → Call) → List Call → Out A W → Out A (Logged W)
  log call before o = record {
    value = o.value;
    error = o.error;
    world = record { inner = o.world; calls = before ++ (call o.value ∷ []) };
  }

  abbrev pub logging : WifiProfilePolicyOps W → WifiProfilePolicyOps (Logged W)
  logging p = record {
    ensure_interface_up =
        Option.map (λ f e w. log raised w.calls (f e w.inner)) p.ensure_interface_up;
    create_profile =
        Option.map (λ f s k e w. log (created s k) w.calls (f s k e w.inner)) p.create_profile;
    find_profile = Option.map (λ f s e w. log (found s) w.calls (f s e w.inner)) p.find_profile;
    disable_all_profiles =
        Option.map (λ f e w. log disabled_all w.calls (f e w.inner)) p.disable_all_profiles;
    set_profile_enabled =
        Option.map (λ f n b e w. log (set_enabled n b) w.calls (f n b e w.inner))
          p.set_profile_enabled;
    select_profile =
        Option.map (λ f n e w. log (selected n) w.calls (f n e w.inner)) p.select_profile;
    remove_profile =
        Option.map (λ f n e w. log (removed n) w.calls (f n e w.inner)) p.remove_profile;
    save_profiles = Option.map (λ f e w. log saved w.calls (f e w.inner)) p.save_profiles;
  }

  abbrev pub silent : W → Logged W
  silent w = record { inner = w; calls = [] }

-- The call is among the calls.
abbrev pub Has : Call → List Call → Type 0
Has c [] = ⊥
Has c (x ∷ xs) = (c ≡ x) ⊎ Has c xs
