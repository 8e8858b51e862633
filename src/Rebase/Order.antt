-- ===== src/Rebase/Order.antt =====
-- Which events a tracker accepts.
use network_service.Prelude.{
  ℕ, ◌+◌, ◌≡◌, ◌≢◌, refl, ◌⊎◌, inl, inr, true, false, List, [], ◌∷◌, arith,
}
use network_service.Rebase.{EventDecision, accept, RebaseTracker, invalidate, rebase, observe_event}

-- A baseline names a real generation, and without one all fields are cleared.
pub record IsTracker (t : RebaseTracker) : Type 0 where
  pub live : t.has_baseline ≡ true → t.generation ≢ 0
  pub cleared : t.has_baseline ≡ false → (t.generation ≡ 0) × (t.last_sequence ≡ 0)

pub rebase-IsTracker : (t : RebaseTracker) (g s : ℕ) → IsTracker (rebase t g s).0
unfolding rebase
rebase-IsTracker t g s = record { live = ground arith; cleared = ground arith }

-- An event leaves a proper tracker proper: a baseline has a generation other than 0, and without a
-- baseline generation and sequence are 0.
pub observe_event-IsTracker :
    (t : RebaseTracker) (g s : ℕ) → IsTracker t → IsTracker (observe_event t g s).0
unfolding observe_event
observe_event-IsTracker t g s v = record {
  live = ground (arith, v.live);
  cleared = ground (arith, v.cleared);
}

-- The sequence numbers that are accepted out of a list of received (generation, sequence) pairs.
unfoldable pub accepted : RebaseTracker → List (ℕ × ℕ) → List ℕ
accepted t [] = []
accepted t ((g, s) ∷ es) =
    let rest = accepted (observe_event t g s).0 es in
    elim (observe_event t g s).1 [ accept ↦ s ∷ rest | _ ↦ rest ]

abbrev pub count_up : ℕ → List ℕ → List ℕ
count_up n [] = []
count_up n (x ∷ xs) = n ∷ count_up (n + 1) xs

pub observe_event-accept :
    (t : RebaseTracker) (g s : ℕ)
    → (observe_event t g s).1 ≡ accept
    → (t.has_baseline ≡ true)
      × (g ≡ t.generation)
      × (s ≡ t.last_sequence + 1)
      × ((observe_event t g s).0 ≡ record t { last_sequence = s })
unfolding observe_event
observe_event-accept t g s h = ground arith

-- What is not accepted leaves the tracker alone or takes its baseline away.
pub observe_event-other :
    (t : RebaseTracker) (g s : ℕ)
    → (observe_event t g s).1 ≢ accept
    → ((observe_event t g s).0 ≡ t) ⊎ ((observe_event t g s).0 ≡ invalidate t)
unfolding observe_event
observe_event-other t g s h = ground arith

accepted-invalidate :
    (t : RebaseTracker) (es : List (ℕ × ℕ)) → t ≡ invalidate t → accepted t es ≡ []
unfolding accepted observe_event
accepted-invalidate t [] b = refl
accepted-invalidate t ((g, s) ∷ es) b = ground (arith, accepted-invalidate (invalidate t) es refl)

EventDecision-cases : (d : EventDecision) → (d ≡ accept) ⊎ (d ≢ accept)
EventDecision-cases accept = inl refl
EventDecision-cases _ = inr (λ h. cc)

-- Whatever arrives, in whatever order and from whatever generation, the accepted sequence numbers
-- are the consecutive ones behind the baseline: none is skipped, repeated or reordered.
pub accepted_consecutive :
    (t : RebaseTracker) (es : List (ℕ × ℕ))
    → accepted t es ≡ count_up (t.last_sequence + 1) (accepted t es)
unfolding accepted
accepted_consecutive t [] = refl
accepted_consecutive t ((g, s) ∷ es) = elim (EventDecision-cases (observe_event t g s).1) [
  | inl e ↦
      let (_, _, next, kept) = observe_event-accept t g s e in
      ground (arith, accepted_consecutive (record t { last_sequence = s }) es)
  | inr e ↦ ground (
    arith,
    observe_event-other t g s e,
    accepted_consecutive t es,
    accepted-invalidate (invalidate t) es refl,
  )
]
