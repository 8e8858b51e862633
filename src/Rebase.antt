-- ===== src/Rebase.antt =====
-- src/ipc/network_ipc_v1_rebase.cpp and its header: the client's record of the last snapshot and
-- event, and the snapshot response that it rebases on.
pub mod Order
use network_service.Prelude.{
  ℕ, suc, ◌+◌, ◌-◌, ◌^◌, Bool, true, false, not, ◌&&◌, ◌||◌, List, [], ◌∷◌, ◌++◌, leb, ◌==◌,
  if◌then◌else◌, is_empty, Bytes, codes, decimal,
}
use network_service.Codec.{CodecError, no_error, MessageType, encode_frame, is_no_error}

abbrev pub u64_max : ℕ
u64_max = 2 ^ 64 - 1

pub data EventDecision : Type 0 where
  accept ignore_stale rebase_required : EventDecision

pub record RebaseTracker : Type 0 where
  pub has_baseline : Bool
  pub generation : ℕ
  pub last_sequence : ℕ

abbrev pub invalidate : RebaseTracker → RebaseTracker
invalidate t = record { has_baseline = false; generation = 0; last_sequence = 0 }

unfoldable pub rebase : RebaseTracker → ℕ → ℕ → RebaseTracker × Bool
rebase t generation snapshot_seq = if generation == 0 then (invalidate t, false) else (
  record { has_baseline = true; generation = generation; last_sequence = snapshot_seq },
  true,
)

unfoldable pub observe_event : RebaseTracker → ℕ → ℕ → RebaseTracker × EventDecision
observe_event t generation seq =
    if not t.has_baseline || generation == 0 || seq == 0
    then (invalidate t, rebase_required)
    else if not (generation == t.generation)
    then (invalidate t, rebase_required)
    else if leb seq t.last_sequence
    then (t, ignore_stale)
    else if not (t.last_sequence == u64_max) && seq == t.last_sequence + 1
    then (record t { last_sequence = seq }, accept)
    else (invalidate t, rebase_required)

-- The encoding is dropped when the encoder reports an error.
abbrev pub unless_error : Bytes × CodecError → Bytes
unless_error (bytes, e) = if is_no_error e then bytes else []

unfoldable pub snapshot_response_json : ℕ → ℕ → ℕ → Bytes → Bytes
snapshot_response_json request_id generation snapshot_seq snapshot_json =
    codes "{\"requestId\":"
    ++ (decimal request_id
        ++ (codes ",\"status\":200,\"result\":{\"generation\":"
            ++ (decimal generation
                ++ (codes ",\"snapshotSeq\":"
                    ++ (decimal snapshot_seq
                        ++ (codes ",\"snapshot\":" ++ (snapshot_json ++ codes "}}")))))))

unfoldable pub encode_snapshot_response : ℕ → ℕ → ℕ → Bytes → Bytes
encode_snapshot_response request_id generation snapshot_seq snapshot_json =
    if request_id == 0 || generation == 0 || is_empty snapshot_json
    then []
    else unless_error (
        encode_frame MessageType.response
          (snapshot_response_json request_id generation snapshot_seq snapshot_json))
