-- ===== src/Codec.antt =====
-- src/ipc/network_ipc_v1_codec.cpp and its header: the 12-byte frame header, the encoder and the
-- stream decoder. A byte is a number below 256; `error_` is `no_error` where the source has `None`.
pub mod Header
pub mod Stream
pub mod Decoding
pub mod RoundTrip
pub mod Bounds
use network_service.Prelude.{
  ℕ, zero, suc, ◌+◌, ◌*◌, ◌/◌, ◌%◌, ◌^◌, Bool, true, false, not, ◌&&◌, List, [], ◌∷◌, ◌++◌, Option,
  none, some, ltb, leb, ◌==◌, if◌then◌else◌, length, is_empty, get_or, take, drop, Bytes,
}

abbrev pub k_header_size : ℕ
k_header_size = 12

abbrev pub k_max_payload_bytes : ℕ
k_max_payload_bytes = 64 * 1024

abbrev pub k_protocol_version : ℕ
k_protocol_version = 1

pub data MessageType : Type 0 where
  hello ready request response event error : MessageType

pub data CodecError : Type 0 where
  no_error invalid_magic unsupported_version invalid_message_type : CodecError
  non_zero_flags payload_too_large : CodecError

pub data DecodeStatus : Type 0 where
  need_more frame_ready failed : DecodeStatus

pub record FrameHeader : Type 0 where
  pub version : ℕ
  pub type : MessageType
  pub flags : ℕ
  pub payload_length : ℕ

pub record Frame : Type 0 where
  pub header : FrameHeader
  pub payload : Bytes

-- `static_cast<uint8_t>` of a message type, and back on the valid values.
abbrev pub type_code : MessageType → ℕ
type_code hello = 1
type_code ready = 2
type_code request = 3
type_code response = 4
type_code event = 5
type_code error = 6

abbrev pub type_of_code : ℕ → MessageType
type_of_code c =
    if c == 1
    then hello
    else if c == 2
    then ready
    else if c == 3
    then request
    else if c == 4
    then response
    else if c == 5
    then event
    else error

-- `p[i]`; every read of the source is in range.
unfoldable pub byte_at : Bytes → ℕ → ℕ
byte_at p i = get_or p i 0

-- The operands of `|` have disjoint bits, so `|` is `+`.
unfoldable pub read_be16 : Bytes → ℕ → ℕ
read_be16 p i = byte_at p i * 2 ^ 8 + byte_at p (suc i)

unfoldable pub read_be32 : Bytes → ℕ → ℕ
read_be32 p i =
    byte_at p i * 2 ^ 24
    + byte_at p (suc i) * 2 ^ 16
    + byte_at p (suc (suc i)) * 2 ^ 8
    + byte_at p (suc (suc (suc i)))

unfoldable pub write_be16 : ℕ → Bytes
write_be16 v = (v / 2 ^ 8 % 256) ∷ (v % 256) ∷ []

unfoldable pub write_be32 : ℕ → Bytes
write_be32 v = (v / 2 ^ 24 % 256) ∷ (v / 2 ^ 16 % 256) ∷ (v / 2 ^ 8 % 256) ∷ (v % 256) ∷ []

abbrev pub k_magic : Bytes
k_magic = b'N' ∷ b'S' ∷ b'P' ∷ b'1' ∷ []

unfoldable pub magic_matches : Bytes → Bool
magic_matches p =
    byte_at p 0 == b'N' && byte_at p 1 == b'S' && byte_at p 2 == b'P' && byte_at p 3 == b'1'

unfoldable pub is_valid_message_type : ℕ → Bool
is_valid_message_type value = leb (type_code hello) value && leb value (type_code error)

-- The first component is the header where the source returns true and fills `out`; the second is
-- what it leaves in `error`. A buffer that is too short is `(none, no_error)`.
unfoldable pub decode_header : Bytes → Option FrameHeader × CodecError
decode_header p =
    if ltb (length p) k_header_size
    then (none, no_error)
    else if not (magic_matches p)
    then (none, invalid_magic)
    else if not (byte_at p 4 == k_protocol_version)
    then (none, unsupported_version)
    else if not (is_valid_message_type (byte_at p 5))
    then (none, invalid_message_type)
    else if not (read_be16 p 6 == 0)
    then (none, non_zero_flags)
    else if ltb k_max_payload_bytes (read_be32 p 8)
    then (none, payload_too_large)
    else (
      some (record {
        version = byte_at p 4;
        type = type_of_code (byte_at p 5);
        flags = read_be16 p 6;
        payload_length = read_be32 p 8;
      }),
      no_error,
    )

-- What `encode_frame` writes in front of the payload.
unfoldable pub header_bytes : MessageType → ℕ → Bytes
unfolding write_be16 write_be32
header_bytes type size =
    k_magic ++ (k_protocol_version ∷ type_code type ∷ (write_be16 0 ++ write_be32 size))

unfoldable pub encode_frame : MessageType → Bytes → Bytes × CodecError
unfolding is_valid_message_type
encode_frame type payload =
    if not (is_valid_message_type (type_code type))
    then ([], invalid_message_type)
    else if ltb k_max_payload_bytes (length payload)
    then ([], payload_too_large)
    else (header_bytes type (length payload) ++ payload, no_error)

-- `FrameDecoder`: `buffer_`, `frames_` and `error_`.
pub record FrameDecoder : Type 0 where
  pub buffer : Bytes
  pub frames : List Frame
  pub error_state : CodecError

abbrev pub new_decoder : FrameDecoder
new_decoder = record { buffer = []; frames = []; error_state = no_error }

-- One round of the loop in `parse_available`: what stands at the front of the buffer.
pub data Front : Type 0 where
  incomplete : Front
  broken : CodecError → Front
  complete : Frame → Bytes → Front

unfoldable pub cut_frame : Bytes → Option FrameHeader × CodecError → Front
cut_frame b (none, no_error) = incomplete
cut_frame b (none, e) = broken e
cut_frame b (some h, e) =
    if ltb (length b) (k_header_size + h.payload_length)
    then incomplete
    else complete (record { header = h; payload = take h.payload_length (drop k_header_size b) })
        (drop (k_header_size + h.payload_length) b)

unfoldable pub front_frame : Bytes → Front
unfolding cut_frame
front_frame b = if ltb (length b) k_header_size then incomplete else cut_frame b (decode_header b)

unfoldable pub status_of : FrameDecoder → DecodeStatus
status_of d = if is_empty d.frames then need_more else frame_ready

-- The loop of `parse_available`. Each round that goes on drops at least 12 bytes of the buffer.
unfoldable pub parse_loop : ℕ → FrameDecoder → FrameDecoder × DecodeStatus
unfolding status_of
parse_loop zero d = (d, status_of d)
parse_loop (suc fuel) d = elim (front_frame d.buffer) [
  | incomplete ↦ (d, status_of d)
  | broken e ↦ (record d { error_state = e }, failed)
  | complete f rest ↦ parse_loop fuel (record d { frames = d.frames ++ (f ∷ []); buffer = rest })
]

unfoldable pub parse_available : FrameDecoder → FrameDecoder × DecodeStatus
unfolding parse_loop
parse_available d = parse_loop (suc (length d.buffer)) d

-- The argument of `feed`: a null pointer with a size, or a range of bytes.
pub data Chunk : Type 0 where
  null : ℕ → Chunk
  range : Bytes → Chunk

unfoldable pub feed_ready : FrameDecoder → Chunk → FrameDecoder × DecodeStatus
unfolding parse_available
feed_ready d (null size) =
    if size == 0 then parse_available d else (record d { error_state = invalid_magic }, failed)
feed_ready d (range bytes) = parse_available (record d { buffer = d.buffer ++ bytes })

abbrev pub is_no_error : CodecError → Bool
is_no_error no_error = true
is_no_error _ = false

unfoldable pub feed : FrameDecoder → Chunk → FrameDecoder × DecodeStatus
unfolding feed_ready
feed d c = if not (is_no_error d.error_state) then (d, failed) else feed_ready d c

pub has_frame : FrameDecoder → Bool
has_frame d = not (is_empty d.frames)

-- `none` is the `std::logic_error` of an empty queue.
unfoldable pub take_frame : FrameDecoder → Option (Frame × FrameDecoder)
take_frame d = elim d.frames [ [] ↦ none | f ∷ rest ↦ some (f, record d { frames = rest }) ]

unfoldable pub reset : FrameDecoder → FrameDecoder
reset d = new_decoder
