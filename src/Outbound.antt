-- ===== src/Outbound.antt =====
-- src/ipc/network_ipc_v1_outbound.cpp and its header: the bounded queue of encoded frames of one
-- client, and the writer that drains it into a socket. Sums of sizes stay below 2 ^ 64, since the
-- queue is bounded.
pub mod Queue
pub mod Flush
use network_service.Prelude.{
  ℕ, zero, suc, ◌+◌, ◌-◌, ◌*◌, Bool, true, false, not, ◌&&◌, ◌||◌, List, [], ◌∷◌, ◌++◌, Option,
  none, some, ltb, leb, ◌==◌, if◌then◌else◌, length, is_empty, take, drop, Bytes,
}
use network_service.Prelude.Int.{ℤ, pos, negsuc, ltb_ℤ}
use network_service.Codec.{k_header_size, k_max_payload_bytes}

abbrev pub k_default_outbound_max_frames : ℕ
k_default_outbound_max_frames = 32

abbrev pub k_default_outbound_max_bytes : ℕ
k_default_outbound_max_bytes = 4 * (k_header_size + k_max_payload_bytes)

abbrev pub k_default_write_stall_timeout_ms : ℤ
k_default_write_stall_timeout_ms = pos 1000

pub data OutboundEnqueueResult : Type 0 where
  accepted invalid_frame frame_too_large overflow : OutboundEnqueueResult

pub data OutboundFlushResult : Type 0 where
  drained slow_client interrupted disconnected : OutboundFlushResult

pub record PendingFrame : Type 0 where
  pub bytes : Bytes
  pub offset : ℕ

pub record OutboundQueue : Type 0 where
  pub max_frames : ℕ
  pub max_bytes : ℕ
  pub queued_bytes : ℕ
  pub frames : List PendingFrame

abbrev pub new_queue : ℕ → ℕ → OutboundQueue
new_queue max_frames max_bytes = record {
  max_frames = max_frames;
  max_bytes = max_bytes;
  queued_bytes = 0;
  frames = [];
}

unfoldable pub enqueue : OutboundQueue → Bytes → OutboundQueue × OutboundEnqueueResult
enqueue q frame =
    if is_empty frame
    then (q, invalid_frame)
    else if q.max_frames == 0 || q.max_bytes == 0 || ltb q.max_bytes (length frame)
    then (q, frame_too_large)
    else if leb q.max_frames (length q.frames) || ltb (q.max_bytes - length frame) q.queued_bytes
    then (q, overflow)
    else (
      record q {
        queued_bytes = q.queued_bytes + length frame;
        frames = q.frames ++ (record { bytes = frame; offset = 0 } ∷ []);
      },
      accepted,
    )

-- `front_data` with `front_size`: the bytes from the offset of the first frame on.
abbrev pub unsent : PendingFrame → Bytes
unsent f = drop f.offset f.bytes

abbrev pub front_of : List PendingFrame → Bytes
front_of [] = []
front_of (f ∷ fs) = unsent f

abbrev pub size_of : List PendingFrame → ℕ
size_of [] = 0
size_of (f ∷ fs) = length f.bytes - f.offset

unfoldable pub front_data : OutboundQueue → Bytes
front_data q = front_of q.frames

unfoldable pub front_size : OutboundQueue → ℕ
front_size q = size_of q.frames

-- The front frame with its offset moved on, or without it once it is sent.
abbrev pub move_on : List PendingFrame → ℕ → List PendingFrame
move_on [] n = []
move_on (f ∷ fs) n =
    if f.offset + n == length f.bytes then fs else record f { offset = f.offset + n } ∷ fs

unfoldable pub consume : OutboundQueue → ℕ → OutboundQueue × Bool
unfolding front_size
consume q n =
    if is_empty q.frames || n == 0 || ltb (front_size q) n
    then (q, false)
    else (record q { queued_bytes = q.queued_bytes - n; frames = move_on q.frames n }, true)

unfoldable pub clear : OutboundQueue → OutboundQueue
clear q = record q { queued_bytes = 0; frames = [] }

pub record OutboundWriter : Type 0 where
  pub queue : OutboundQueue
  pub write_stall_timeout_ms : ℤ

unfoldable pub new_writer : ℕ → ℕ → ℤ → OutboundWriter
new_writer max_frames max_bytes timeout = record {
  queue = new_queue max_frames max_bytes;
  write_stall_timeout_ms = if ltb_ℤ timeout (pos 0) then pos 0 else timeout;
}

unfoldable pub enqueue_writer : OutboundWriter → Bytes → OutboundWriter × OutboundEnqueueResult
unfolding enqueue
enqueue_writer w frame = let (q, r) = enqueue w.queue frame in (record w { queue = q }, r)

-- `errno` as the loop tells it apart.
pub data Errno : Type 0 where
  eintr eagain ewouldblock other_errno : Errno

-- What `poll` reports on its two descriptors: the wake descriptor has POLLIN or an error flag
-- set; the socket has an error flag set.
pub record Polled : Type 0 where
  pub wake_raised : Bool
  pub socket_failed : Bool

pub data PollResult : Type 0 where
  poll_failed : Errno → PollResult
  poll_timeout : PollResult
  poll_ready : Polled → PollResult

-- What the kernel answers in one round: `send` returned a count, or failed with `errno`, and
-- `poll` returned after EAGAIN.
pub data Reply : Type 0 where
  sent : ℕ → Reply
  send_failed : Errno → PollResult → Reply

-- What one round decides: leave with a result, or go on.
pub data Round : Type 0 where
  leave : OutboundFlushResult → Round
  again : Round

unfoldable pub after_poll : Bool → PollResult → Round
after_poll has_wake (poll_failed eintr) = again
after_poll has_wake (poll_failed _) = leave disconnected
after_poll has_wake poll_timeout = leave slow_client
after_poll has_wake (poll_ready p) =
    if has_wake && p.wake_raised
    then leave interrupted
    else if p.socket_failed
    then leave disconnected
    else again

unfoldable pub after_errno : Bool → Errno → PollResult → Round
unfolding after_poll
after_errno has_wake eintr p = again
after_errno has_wake eagain p = after_poll has_wake p
after_errno has_wake ewouldblock p = after_poll has_wake p
after_errno has_wake other_errno p = leave disconnected

-- One round of `flush` with a queue that is not empty. The kernel takes the first `n` bytes of
-- `front_data` when `send` returns `n`; they are the third component.
unfoldable pub flush_round : Bool → OutboundQueue → Reply → OutboundQueue × Round × Bytes
unfolding after_errno consume front_data
flush_round has_wake q (sent zero) = (q, leave disconnected, [])
flush_round has_wake q (sent (suc n)) =
    let (q', taken) = consume q (suc n) in
    (q', if taken then again else leave disconnected, take (suc n) (front_data q))
flush_round has_wake q (send_failed e p) = (q, after_errno has_wake e p, [])

-- How a run of the loop stands after the replies that have come: finished with a result, or still
-- waiting for the kernel.
pub data Progress : Type 0 where
  finished : OutboundFlushResult → Progress
  running : Progress

-- `flush` against the kernel's replies, one for each round: the queue, where the loop stands, and
-- the bytes that the socket has taken, in order.
unfoldable pub flush : Bool → OutboundQueue → List Reply → OutboundQueue × Progress × Bytes
flush has_wake q [] = (q, if is_empty q.frames then finished drained else running, [])
flush has_wake q (r ∷ rs) =
    let (q', round, out) = flush_round has_wake q r in
    let (q'', end, out') = flush has_wake q' rs in
    if is_empty q.frames
    then (q, finished drained, [])
    else elim round [ leave result ↦ (q', finished result, out) | again ↦ (q'', end, out ++ out') ]
