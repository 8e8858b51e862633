-- ===== src/Event/Sequence.antt =====
-- The sequencer's numbers, and a client that follows them.
use network_service.Prelude.{
  ℕ, ◌≤◌, ◌<◌, ◌≡◌, ◌≢◌, refl, ap, ◌⊎◌, inl, inr, true, false, List, [], ◌∷◌, ◌++◌, arith, length,
  All, ltb, ◌==◌, if◌then◌else◌, is_empty, Bytes, Bool-cases,
}
use network_service.Codec.{
  MessageType, CodecError, no_error, encode_frame, k_max_payload_bytes, header_bytes,
}
use network_service.Codec.RoundTrip.{Message, Fits, wire, encode_frame-fits}
use network_service.Event.{
  EventSequencer, new_sequencer, last_sequence, advance, encode_event, event_json, finish_event,
}
use network_service.Rebase.{EventDecision, accept, RebaseTracker, rebase, observe_event, u64_max}

-- The counter fits its 64 bits, and the generation is never the reserved 0.
pub record IsSequencer (q : EventSequencer) : Type 0 where
  pub in_range : q.next_sequence ≤ u64_max
  pub named : q.generation ≢ 0

pub new_sequencer-IsSequencer : (g : ℕ) → IsSequencer (new_sequencer g)
unfolding new_sequencer
new_sequencer-IsSequencer g = record { in_range = omega arith; named = ground arith }

abbrev pub message_of : EventSequencer → Bytes → Bytes → Message
message_of q name payload = record {
  type = MessageType.event;
  payload = event_json name q.generation q.next_sequence payload;
}

-- An event is sent exactly if it is named, has a payload, fits one frame, and numbers are left.
pub record CanSend (q : EventSequencer) (name payload : Bytes) : Type 0 where
  pub named : name ≢ []
  pub has_payload : payload ≢ []
  pub not_exhausted : q.next_sequence ≢ 0
  pub fits : Fits (message_of q name payload)

encode_frame_cases :
    (t : MessageType) (p : Bytes)
    → ((length p ≤ k_max_payload_bytes)
        × (encode_frame t p ≡ (header_bytes t (length p) ++ p, no_error)))
      ⊎ ((k_max_payload_bytes < length p) × (encode_frame t p ≡ ([], CodecError.payload_too_large)))
unfolding encode_frame
encode_frame_cases t p = ground arith

finish_event-sent :
    (q : EventSequencer) (t : MessageType) (p : Bytes)
    → length p ≤ k_max_payload_bytes
    → finish_event q (encode_frame t p) ≡ (advance q, (encode_frame t p).0)
unfolding finish_event header_bytes
finish_event-sent q t p h = rw (encode_frame-fits t p h)

finish_event-dropped :
    (q : EventSequencer) (t : MessageType) (p : Bytes)
    → k_max_payload_bytes < length p
    → finish_event q (encode_frame t p) ≡ (q, [])
unfolding finish_event encode_frame
finish_event-dropped q t p h = ground arith

-- `encode_event` either sends the frame of the event under the next number and moves on by one
-- (from the last number to 0, the exhausted state), or it sends nothing and changes nothing.
pub encode_event_cases :
    (q : EventSequencer) (name payload : Bytes)
    → (CanSend q name payload
        × (encode_event q name payload ≡ (advance q, wire (message_of q name payload))))
      ⊎ ((¬ CanSend q name payload) × (encode_event q name payload ≡ (q, [])))
unfolding encode_event
encode_event_cases q [] payload = inr (λ c. c.named refl, refl)
encode_event_cases q (n ∷ ns) [] = inr (λ c. c.has_payload refl, refl)
encode_event_cases q (n ∷ ns) (p ∷ ps) =
    let text : Bytes = event_json (n ∷ ns) q.generation q.next_sequence (p ∷ ps) in
    elim (Bool-cases (q.next_sequence == 0)) [
      | inl z ↦ inr (λ c. c.not_exhausted (ground arith), rw z)
      | inr more ↦ elim (Bool-cases (ltb k_max_payload_bytes (length text))) [
        | inl big ↦ inr (
          (λ c. let f : length text ≤ k_max_payload_bytes = c.fits in ground arith),
          rw more (finish_event-dropped q MessageType.event text (ground arith)),
        )
        | inr small ↦ inl (
          record {
            named = λ h. cc;
            has_payload = λ h. cc;
            not_exhausted = λ h. ground arith;
            fits = let f : length text ≤ k_max_payload_bytes = ground arith in f;
          },
          rw more (finish_event-sent q MessageType.event text (ground arith)),
        )
      ]
    ]

-- A client whose tracker stands at the sequencer's last event.
pub record InStep (q : EventSequencer) (t : RebaseTracker) : Type 0 where
  pub based : t.has_baseline ≡ true
  pub same_generation : t.generation ≡ q.generation
  pub same_sequence : t.last_sequence ≡ last_sequence q

-- Rebasing on a snapshot at the sequencer's last event brings any client into step, if the
-- sequencer is well formed.
pub rebase-InStep :
    (q : EventSequencer) (t : RebaseTracker)
    → IsSequencer q
    → InStep q (rebase t q.generation (last_sequence q)).0
unfolding rebase
rebase-InStep q t v = ground (arith, v.named)

observe_event-advance :
    (q : EventSequencer) (t : RebaseTracker)
    → IsSequencer q
    → q.next_sequence ≢ 0
    → InStep q t
    → ((observe_event t q.generation q.next_sequence).1 ≡ accept)
      × InStep (advance q) (observe_event t q.generation q.next_sequence).0
      × IsSequencer (advance q)
unfolding observe_event advance last_sequence
observe_event-advance q t v nz s = ground (arith, v.named, v.in_range)

is_empty-wire : (m : Message) → Fits m → is_empty (wire m) ≡ false
unfolding header_bytes
is_empty-wire m h = ap (λ r. is_empty r.0) (encode_frame-fits m.type m.payload h)

-- A client that receives each event that is sent, under the sequencer's generation and number:
-- its decisions, the sequencer and its tracker at the end.
unfoldable pub follow :
    EventSequencer
    → RebaseTracker
    → List (Bytes × Bytes)
    → List EventDecision × EventSequencer × RebaseTracker
follow q t [] = ([], q, t)
follow q t ((name, payload) ∷ es) =
    let (q', bytes) = encode_event q name payload in
    let (t', decision) = observe_event t q.generation q.next_sequence in
    let (later, q'', t'') = follow q' (if is_empty bytes then t else t') es in
    (if is_empty bytes then later else decision ∷ later, q'', t'')

-- A client in step with a well-formed sequencer accepts every event that is sent, whatever events
-- are tried, also when the numbers run out, and is in step again at the end.
pub follow-accepts :
    (q : EventSequencer) (t : RebaseTracker) (es : List (Bytes × Bytes))
    → IsSequencer q
    → InStep q t
    → All (λ d. d ≡ accept) (follow q t es).0 × InStep (follow q t es).1 (follow q t es).2
unfolding follow
follow-accepts q t [] v s = (tt, s)
follow-accepts q t ((name, payload) ∷ es) v s = elim (encode_event_cases q name payload) [
  | inr (_, e) ↦ rw (e, follow) (follow-accepts q t es v s)
  | inl (can, e) ↦
      let (yes_, s', v') = observe_event-advance q t v can.not_exhausted s in
      let (all, last) =
        follow-accepts (advance q) (observe_event t q.generation q.next_sequence).0 es v' s' in
      rw (e, is_empty-wire (message_of q name payload) can.fits) ((yes_, all), last)
]
