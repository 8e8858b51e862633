-- ===== src/Outbound/Flush.antt =====
-- `OutboundWriter::flush` against any answers of the kernel: what the socket has taken is always
-- the front part of what was queued, and a socket that keeps taking bytes drains the queue.
use network_service.Prelude.{
  ℕ, zero, suc, ◌≤◌, ◌<◌, ◌≡◌, ◌≢◌, refl, sym, ap, ◌∙◌, ◌⊎◌, inl, inr, Bool, true, false, List, [],
  ◌∷◌, ◌++◌, arith, length, All, is_empty, take, drop, Bytes, length-append, length-drop,
  append_assoc, take-append_le, take-append-drop, Bool-cases,
}
use network_service.Outbound.{
  OutboundFlushResult, drained, PendingFrame, OutboundQueue, front_data, front_size, Reply, sent,
  send_failed, Round, leave, again, flush_round, flush, Progress, finished, unsent,
}
use network_service.Outbound.Queue.{bytes_of, pending, IsQueue, consume_cases, Started}

-- `send` never takes more than it was given.
abbrev pub Honest : Bool → OutboundQueue → List Reply → Type 0
Honest w q [] = Unit
Honest w q (sent n ∷ rs) = (n ≤ front_size q) × Honest w (flush_round w q (sent n)).0 rs
Honest w q (send_failed e p ∷ rs) = Honest w (flush_round w q (send_failed e p)).0 rs

take_front :
    (q : OutboundQueue) (n : ℕ) (fs : List PendingFrame)
    → q.frames ≡ fs
    → n ≤ front_size q
    → take n (front_data q) ≡ take n (pending q)
unfolding front_data front_size
take_front q n [] e h = ground arith
take_front q n (f ∷ fs) e h =
    ground (arith, take-append_le n (unsent f) (bytes_of fs), length-drop f.offset f.bytes)

-- One round: the queue stays well formed, and the bytes taken come off its front.
pub flush_round_lem :
    (w : Bool) (q : OutboundQueue) (r : Reply) (rs : List Reply)
    → IsQueue q
    → Honest w q (r ∷ rs)
    → IsQueue (flush_round w q r).0
      × (pending q ≡ (flush_round w q r).2 ++ pending (flush_round w q r).0)
      × Honest w (flush_round w q r).0 rs
unfolding flush_round
flush_round_lem w q (sent zero) rs v h = (v, refl, h.1)
flush_round_lem w q (send_failed e p) rs v h = (v, refl, h)
flush_round_lem w q (sent (suc n)) rs v h = elim (consume_cases q (suc n) v) [
  | inl (_, _, _, rest, v') ↦ (
    v',
    rw (rest, take_front q (suc n) q.frames refl h.0) (sym (take-append-drop (suc n) (pending q))),
    h.1,
  )
  | inr (_, bad, _) ↦ absurd (omega (arith, h.0))
]

round-ne-drained :
    (w : Bool) (q : OutboundQueue) (r : Reply) → (flush_round w q r).1 ≢ leave drained
unfolding flush_round
round-ne-drained w q (sent zero) e = cc
round-ne-drained w q (sent (suc n)) e = ground arith
round-ne-drained w q (send_failed e p) h = ground arith

Round-cases : (r : Round) → (r ≡ again) ⊎ ((x : OutboundFlushResult) × (r ≡ leave x))
Round-cases again = inl refl
Round-cases (leave x) = inr (x, refl)

-- The three ways that the loop of `flush` takes at its head.
pub flush-nil :
    (w : Bool) (q : OutboundQueue) (rs : List Reply)
    → is_empty q.frames ≡ true
    → flush w q rs ≡ (q, finished drained, [])
unfolding flush
flush-nil w q [] e = rw e
flush-nil w q (r ∷ rs) e = rw e

pub flush-leave :
    (w : Bool) (q : OutboundQueue) (r : Reply) (rs : List Reply) (x : OutboundFlushResult)
    → is_empty q.frames ≡ false
    → (flush_round w q r).1 ≡ leave x
    → flush w q (r ∷ rs) ≡ ((flush_round w q r).0, finished x, (flush_round w q r).2)
unfolding flush
flush-leave w q r rs x e l = rw (e, l)

pub flush-again :
    (w : Bool) (q : OutboundQueue) (r : Reply) (rs : List Reply)
    → is_empty q.frames ≡ false
    → (flush_round w q r).1 ≡ again
    → flush w q (r ∷ rs) ≡ (
        let next = flush w (flush_round w q r).0 rs in
        (next.0, next.1, (flush_round w q r).2 ++ next.2))
unfolding flush
flush-again w q r rs e l = rw (e, l)

-- What a run of `flush` promises.
pub record Flushes (q : OutboundQueue) (r : OutboundQueue × Progress × Bytes) : Type 0 where
  pub in_order : pending q ≡ r.2 ++ pending r.0
  pub well_formed : IsQueue r.0
  pub all_sent : r.1 ≡ finished drained → pending r.0 ≡ []

empty_pending : (fs : List PendingFrame) → is_empty fs ≡ true → bytes_of fs ≡ []
empty_pending [] e = refl
empty_pending (f ∷ fs) e = cc

-- For a well-formed queue and any answers of a kernel that takes no more than it is offered, the
-- bytes that the socket has taken, followed by those that are still queued, are what was queued at
-- the start; the queue stays well formed; and `Drained` means that nothing is left.
pub flush-Flushes :
    (w : Bool) (q : OutboundQueue) (rs : List Reply)
    → IsQueue q
    → Honest w q rs
    → Flushes q (flush w q rs)
flush-Flushes w q [] v h = elim (Bool-cases (is_empty q.frames)) [
  | inl e ↦
      rw (flush-nil w q [] e)
        (record { in_order = refl; well_formed = v; all_sent = λ _. empty_pending q.frames e })
  | inr e ↦ unfold flush in rw e (record { in_order = refl; well_formed = v; all_sent = λ x. cc })
]
flush-Flushes w q (r ∷ rs) v h = elim (Bool-cases (is_empty q.frames)) [
  | inl e ↦
      rw (flush-nil w q (r ∷ rs) e)
        (record { in_order = refl; well_formed = v; all_sent = λ _. empty_pending q.frames e })
  | inr e ↦
      let (v', split, h') = flush_round_lem w q r rs v h in
      elim (Round-cases (flush_round w q r).1) [
        | inr (x, l) ↦ rw (flush-leave w q r rs x e l) (record {
          in_order = split;
          well_formed = v';
          all_sent = λ d. absurd (round-ne-drained w q r (l ∙ (cc)));
        })
        | inl l ↦
            let out = (flush_round w q r).2 in
            let next = flush w (flush_round w q r).0 rs in
            let rest = flush-Flushes w (flush_round w q r).0 rs v' h' in
            rw (flush-again w q r rs e l) (record {
              in_order =
                  split
                  ∙ ap (◌++◌ out) rest.in_order
                  ∙ sym (append_assoc out next.2 (pending next.0));
              well_formed = rest.well_formed;
              all_sent = rest.all_sent;
            })
      ]
]

-- The socket takes at least one byte each time, and no more than it is offered.
abbrev pub Eager : Bool → OutboundQueue → List Reply → Type 0
Eager w q [] = Unit
Eager w q (sent n ∷ rs) =
    is_empty q.frames ≡ false
    → (0 < n) × (n ≤ front_size q) × Eager w (flush_round w q (sent n)).0 rs
Eager w q (send_failed e p ∷ rs) = is_empty q.frames ≡ true

frames_nil :
    (fs : List PendingFrame) → All Started fs → length (bytes_of fs) ≤ 0 → is_empty fs ≡ true
frames_nil [] a h = refl
frames_nil (f ∷ fs) a h =
    absurd
      (omega (arith, a.0, length-append (unsent f) (bytes_of fs), length-drop f.offset f.bytes))

eager_round :
    (w : Bool) (q : OutboundQueue) (n : ℕ)
    → IsQueue q
    → 0 < n
    → n ≤ front_size q
    → ((flush_round w q (sent n)).1 ≡ again)
      × ((flush_round w q (sent n)).2 ≡ take n (pending q))
      × (pending (flush_round w q (sent n)).0 ≡ drop n (pending q))
      × IsQueue (flush_round w q (sent n)).0
unfolding flush_round
eager_round w q zero v lo hi = absurd (omega arith)
eager_round w q (suc n) v lo hi = elim (consume_cases q (suc n) v) [
  | inl (done, _, _, rest, v') ↦ (rw done, take_front q (suc n) q.frames refl hi, rest, v')
  | inr (_, bad, _) ↦ absurd (omega (arith, hi))
]

drained_after :
    (q : OutboundQueue) (n : ℕ) (rs : List Reply)
    → 0 < n
    → length (pending q) ≤ suc (length rs)
    → length (drop n (pending q)) ≤ length rs
drained_after q n rs lo short = omega (arith, length-drop n (pending q))

-- A socket that takes at least one byte in each round, and no more than it is offered, drains a
-- well-formed queue within as many rounds as bytes were queued, and has then taken exactly those
-- bytes, in order.
pub flush_drains :
    (w : Bool) (q : OutboundQueue) (rs : List Reply)
    → IsQueue q
    → Eager w q rs
    → length (pending q) ≤ length rs
    → ((flush w q rs).1 ≡ finished drained) × ((flush w q rs).2 ≡ pending q)
flush_drains w q [] v h short =
    let e = frames_nil q.frames v.unfinished (omega arith) in
    rw (flush-nil w q [] e) (refl, sym (empty_pending q.frames e))
flush_drains w q (send_failed x p ∷ rs) v h short =
    rw (flush-nil w q (send_failed x p ∷ rs) h) (refl, sym (empty_pending q.frames h))
flush_drains w q (sent n ∷ rs) v h short = elim (Bool-cases (is_empty q.frames)) [
  | inl e ↦ rw (flush-nil w q (sent n ∷ rs) e) (refl, sym (empty_pending q.frames e))
  | inr e ↦
      let (lo, hi, h') = h e in
      let (on, out, left, v') = eager_round w q n v lo hi in
      let (done, got) =
        flush_drains w (flush_round w q (sent n)).0 rs v' h'
          (rw left (drained_after q n rs lo short)) in
      rw (flush-again w q (sent n) rs e on) (
        done,
        ap (◌++◌ (flush_round w q (sent n)).2) (got ∙ left)
            ∙ ap (λ o. o ++ drop n (pending q)) out
            ∙ take-append-drop n (pending q),
      )
]
