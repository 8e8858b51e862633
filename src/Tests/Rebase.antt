-- ===== src/Tests/Rebase.antt =====
-- The event numbering and the tracker of a client.
use network_service.Prelude.{
  ℕ, ◌+◌, ◌≡◌, refl, true, false, List, [], ◌∷◌, arith, All, Bytes, codes,
}
use network_service.Rebase.{
  RebaseTracker, accept, ignore_stale, rebase_required, rebase, observe_event,
}
use network_service.Rebase.Order.{accepted, count_up, accepted_consecutive}
use network_service.Event.{EventSequencer, last_sequence, event_json}
use network_service.Event.Sequence.{IsSequencer, InStep, rebase-InStep, follow, follow-accepts}

abbrev based : RebaseTracker
based = record { has_baseline = true; generation = 7; last_sequence = 3 }

abbrev unbased : RebaseTracker
unbased = record { has_baseline = false; generation = 0; last_sequence = 0 }

decisions :
    ((observe_event based 7 4).1 ≡ accept)
    × ((observe_event based 7 3).1 ≡ ignore_stale)
    × ((observe_event based 7 5).1 ≡ rebase_required)
    × ((observe_event based 8 4).1 ≡ rebase_required)
unfolding observe_event
decisions = (refl, refl, refl, refl)

event_text :
    event_json (codes "a\"b") 1 20 (codes "{}")
    ≡ codes "{\"event\":\"a\\\"b\",\"generation\":1,\"seq\":20,\"payload\":{}}"
unfolding event_json
event_text = refl

abbrev history : List (ℕ × ℕ)
history = (7, 4) ∷ (7, 4) ∷ (7, 5) ∷ (7, 9) ∷ (7, 6) ∷ []

accepted-history : accepted based history ≡ 4 ∷ 5 ∷ []
unfolding accepted observe_event
accepted-history = refl

accepted_consecutive_example :
    accepted based history ≡ count_up (based.last_sequence + 1) (accepted based history)
accepted_consecutive_example = accepted_consecutive based history

abbrev fresh : EventSequencer
fresh = record { generation = 7; next_sequence = 1 }

fresh-IsSequencer : IsSequencer fresh
fresh-IsSequencer = record { in_range = omega arith; named = λ h. omega arith }

abbrev events : List (Bytes × Bytes)
events = (codes "link", codes "{}") ∷ (codes "", codes "{}") ∷ (codes "dns", codes "[]") ∷ []

abbrev client : RebaseTracker
client = (rebase unbased 7 (last_sequence fresh)).0

follow-accepts_example :
    All (λ d. d ≡ accept) (follow fresh client events).0
    × InStep (follow fresh client events).1 (follow fresh client events).2
follow-accepts_example =
    follow-accepts fresh client events fresh-IsSequencer
      (rebase-InStep fresh unbased fresh-IsSequencer)
