-- ===== src/Outbound/Queue.antt =====
-- The queue as a stream of bytes: what is enqueued is appended, what is consumed comes off the
-- front, and the two limits hold throughout.
use network_service.Prelude.{
  ℕ, suc, ◌+◌, ◌-◌, ◌≤◌, ◌<◌, ◌≡◌, ◌≢◌, ◌↔◌, refl, sym, ap, ◌∙◌, ◌⊎◌, inl, inr, true, false, List,
  [], ◌∷◌, ◌++◌, arith, length, All, All-append, drop, Bytes, length-append, length-drop,
  drop-append_le, drop_all, drop-drop, ltb, ◌||◌, append_assoc, append-nil, Bool-cases, ◌==◌,
}
use network_service.Outbound.{
  accepted, PendingFrame, OutboundQueue, new_queue, enqueue, consume, front_size, move_on, unsent,
}

-- The bytes that are still to be sent, in order.
abbrev pub bytes_of : List PendingFrame → Bytes
bytes_of [] = []
bytes_of (f ∷ fs) = unsent f ++ bytes_of fs

abbrev pub pending : OutboundQueue → Bytes
pending q = bytes_of q.frames

abbrev pub Started : PendingFrame → Type 0
Started f = f.offset < length f.bytes

pub record IsQueue (q : OutboundQueue) : Type 0 where
  pub counted : q.queued_bytes ≡ length (pending q)
  pub unfinished : All Started q.frames
  pub frames_fit : length q.frames ≤ q.max_frames
  pub bytes_fit : q.queued_bytes ≤ q.max_bytes

pub new_queue-IsQueue : (f b : ℕ) → IsQueue (new_queue f b)
new_queue-IsQueue f b = record {
  counted = refl;
  unfinished = tt;
  frames_fit = omega arith;
  bytes_fit = omega arith;
}

bytes_of-append : (fs gs : List PendingFrame) → bytes_of (fs ++ gs) ≡ bytes_of fs ++ bytes_of gs
bytes_of-append [] gs = refl
bytes_of-append (f ∷ fs) gs =
    ap (◌++◌ (unsent f)) (bytes_of-append fs gs)
    ∙ sym (append_assoc (unsent f) (bytes_of fs) (bytes_of gs))

abbrev fresh : Bytes → PendingFrame
fresh frame = record { bytes = frame; offset = 0 }

bytes_of-fresh :
    (fs : List PendingFrame) (frame : Bytes)
    → bytes_of (fs ++ (fresh frame ∷ [])) ≡ bytes_of fs ++ frame
bytes_of-fresh fs frame =
    bytes_of-append fs (fresh frame ∷ []) ∙ ap (◌++◌ (bytes_of fs)) (append-nil frame)

-- A frame is either accepted whole, behind all that is queued, or it is refused and nothing
-- changes.
pub enqueue_cases :
    (q : OutboundQueue) (frame : Bytes)
    → (((enqueue q frame).1 ≡ accepted) × (pending (enqueue q frame).0 ≡ pending q ++ frame))
      ⊎ (((enqueue q frame).1 ≢ accepted) × ((enqueue q frame).0 ≡ q))
unfolding enqueue
enqueue_cases q frame = ground (arith, bytes_of-fresh q.frames frame)

-- In a well-formed queue a frame is accepted exactly if it is not empty, a slot is free, and its
-- bytes fit the limit beside those that are still to be sent.
pub enqueue-accepted :
    (q : OutboundQueue) (frame : Bytes)
    → IsQueue q
    → ((enqueue q frame).1 ≡ accepted) ↔ (
        (frame ≢ [])
        × (length q.frames < q.max_frames)
        × (length (pending q) + length frame ≤ q.max_bytes))
unfolding enqueue
enqueue-accepted q frame v = ground (arith, v.counted)

-- `enqueue` keeps a well-formed queue well formed: the byte count is exact, no frame is finished,
-- and both limits hold.
pub enqueue-IsQueue : (q : OutboundQueue) (frame : Bytes) → IsQueue q → IsQueue (enqueue q frame).0
unfolding enqueue
enqueue-IsQueue q frame v = ground (
  arith,
  v.counted,
  v.unfinished,
  bytes_of-fresh q.frames frame,
  length-append (bytes_of q.frames) frame,
  length-append q.frames (fresh frame ∷ []),
  All-append Started q.frames (fresh frame ∷ []) v.unfinished,
)

move_on-bytes :
    (f : PendingFrame) (fs : List PendingFrame) (n : ℕ)
    → Started f
    → n ≤ length f.bytes - f.offset
    → bytes_of (move_on (f ∷ fs) n) ≡ drop n (bytes_of (f ∷ fs))
move_on-bytes f fs n s h = ground (
  arith,
  drop-append_le n (unsent f) (bytes_of fs),
  length-drop f.offset f.bytes,
  drop-drop f.offset n f.bytes,
  drop_all (f.offset + n) f.bytes,
)

move_on-frames :
    (f : PendingFrame) (fs : List PendingFrame) (n : ℕ)
    → Started f
    → All Started fs
    → n ≤ length f.bytes - f.offset
    → All Started (move_on (f ∷ fs) n) × (length (move_on (f ∷ fs) n) ≤ suc (length fs))
move_on-frames f fs n s a h = ground arith

consume_list :
    (q : OutboundQueue) (n : ℕ) (fs : List PendingFrame)
    → q.frames ≡ fs
    → IsQueue q
    → (((consume q n).1 ≡ true)
        × (0 < n)
        × (n ≤ front_size q)
        × (pending (consume q n).0 ≡ drop n (pending q))
        × IsQueue (consume q n).0)
      ⊎ (((consume q n).1 ≡ false) × ((n ≡ 0) ⊎ (front_size q < n)) × ((consume q n).0 ≡ q))
unfolding consume
consume_list q n [] e v = inr (ground (arith, v.counted))
consume_list q n (f ∷ fs) e v = elim (Bool-cases (n == 0 || ltb (length f.bytes - f.offset) n)) [
  | inl bad ↦ inr (ground arith)
  | inr good ↦
      let moved = move_on-bytes f fs n in
      let kept = move_on-frames f fs n in
      inl (
        ground arith,
        ground arith,
        ground arith,
        ground (arith, v.unfinished, moved),
        ground (
          arith,
          v.counted,
          v.unfinished,
          moved,
          kept,
          length-drop n (bytes_of (f ∷ fs)),
          length-append (unsent f) (bytes_of fs),
          length-drop f.offset f.bytes,
        ),
      )
]

-- In a well-formed queue `consume` succeeds for a count between one and the size of the front, then
-- removes exactly that many bytes from the front of the stream and leaves a well-formed queue; for
-- 0 and for a larger count it fails and changes nothing.
pub consume_cases :
    (q : OutboundQueue) (n : ℕ)
    → IsQueue q
    → (((consume q n).1 ≡ true)
        × (0 < n)
        × (n ≤ front_size q)
        × (pending (consume q n).0 ≡ drop n (pending q))
        × IsQueue (consume q n).0)
      ⊎ (((consume q n).1 ≡ false) × ((n ≡ 0) ⊎ (front_size q < n)) × ((consume q n).0 ≡ q))
consume_cases q n v = consume_list q n q.frames refl v
