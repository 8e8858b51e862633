-- ===== src/Event.antt =====
-- src/ipc/network_ipc_v1_event.cpp and its header: the numbering and encoding of events.
pub mod Sequence
use network_service.Prelude.{
  ℕ, suc, ◌+◌, ◌-◌, Bool, true, false, ◌||◌, List, [], ◌∷◌, ◌++◌, ltb, ◌==◌, if◌then◌else◌,
  is_empty, Bytes, codes, decimal,
}
use network_service.Codec.{MessageType, CodecError, no_error, encode_frame, is_no_error}
use network_service.Rebase.{u64_max}

-- The text that `json_escape` appends for one character.
unfoldable pub escape_char : ℕ → Bytes
escape_char ch =
    if ch == b'\\'
    then b'\\' ∷ b'\\' ∷ []
    else if ch == b'"'
    then b'\\' ∷ b'"' ∷ []
    else if ch == 0x08
    then b'\\' ∷ b'b' ∷ []
    else if ch == 0x0c
    then b'\\' ∷ b'f' ∷ []
    else if ch == b'\n'
    then b'\\' ∷ b'n' ∷ []
    else if ch == b'\r'
    then b'\\' ∷ b'r' ∷ []
    else if ch == b'\t'
    then b'\\' ∷ b't' ∷ []
    else if ltb ch 0x20
    then b'?' ∷ []
    else ch ∷ []

unfoldable pub json_escape : Bytes → Bytes
unfolding escape_char
json_escape [] = []
json_escape (ch ∷ value) = escape_char ch ++ json_escape value

pub record EventSequencer : Type 0 where
  pub generation : ℕ
  pub next_sequence : ℕ

unfoldable pub new_sequencer : ℕ → EventSequencer
new_sequencer generation = record {
  generation = if generation == 0 then 1 else generation;
  next_sequence = 1;
}

unfoldable pub last_sequence : EventSequencer → ℕ
last_sequence q = if q.next_sequence == 0 then u64_max else q.next_sequence - 1

unfoldable pub event_json : Bytes → ℕ → ℕ → Bytes → Bytes
unfolding json_escape decimal
event_json event_name generation sequence payload_json =
    codes "{\"event\":\""
    ++ (json_escape event_name
        ++ (codes "\",\"generation\":"
            ++ (decimal generation
                ++ (codes ",\"seq\":"
                    ++ (decimal sequence
                        ++ (codes ",\"payload\":" ++ (payload_json ++ codes "}")))))))

unfoldable pub advance : EventSequencer → EventSequencer
advance q = record q {
  next_sequence = if q.next_sequence == u64_max then 0 else q.next_sequence + 1;
}

-- The end of `encode_event`, on what `encode_frame` returned.
unfoldable pub finish_event : EventSequencer → Bytes × CodecError → EventSequencer × Bytes
unfolding advance
finish_event q (encoded, e) = elim e [
  | no_error ↦ if is_empty encoded then (q, []) else (advance q, encoded)
  | _ ↦ (q, [])
]

unfoldable pub encode_event : EventSequencer → Bytes → Bytes → EventSequencer × Bytes
unfolding finish_event
encode_event q event_name payload_json =
    if is_empty event_name || is_empty payload_json || q.next_sequence == 0
    then (q, [])
    else finish_event q (
        encode_frame MessageType.event
          (event_json event_name q.generation q.next_sequence payload_json))
