-- ===== src/Codec/Header.antt =====
-- The header in both directions.
use network_service.Prelude.{
  ℕ, ◌^◌, ◌≤◌, ◌<◌, ◌≡◌, refl, ◌∷◌, ◌++◌, some, arith, length, take, All, length-append, Bytes,
  IsByte,
}
use network_service.Codec.{
  MessageType, type_code, no_error, FrameHeader, byte_at, read_be16, read_be32, write_be32,
  magic_matches, is_valid_message_type, decode_header, header_bytes, k_max_payload_bytes,
  k_header_size, type_of_code,
}

pub length-header_bytes : (t : MessageType) (n : ℕ) → length (header_bytes t n) ≡ k_header_size
unfolding header_bytes
length-header_bytes t n = refl

abbrev pub header_for : MessageType → ℕ → FrameHeader
header_for t n = record { version = 1; type = t; flags = 0; payload_length = n }

read_be32_lem : (n : ℕ) (rest : Bytes) → n < 2 ^ 32 → read_be32 (write_be32 n ++ rest) 0 ≡ n
unfolding read_be32 write_be32 byte_at
read_be32_lem n rest h = omega arith

type_of_code-type_code : (t : MessageType) → type_of_code (type_code t) ≡ t
type_of_code-type_code t = ground arith

pub decode_header-header_bytes :
    (t : MessageType) (n : ℕ) (rest : Bytes)
    → n ≤ k_max_payload_bytes
    → decode_header (header_bytes t n ++ rest) ≡ (some (header_for t n), no_error)
unfolding decode_header header_bytes magic_matches is_valid_message_type read_be16 read_be32 byte_at
decode_header-header_bytes t n rest h = ground arith

pub decode_header-append :
    (p rest : Bytes) → k_header_size ≤ length p → decode_header (p ++ rest) ≡ decode_header p
unfolding decode_header magic_matches read_be16 read_be32 byte_at
decode_header-append (a ∷ b ∷ c ∷ d ∷ e ∷ f ∷ g ∷ h ∷ i ∷ j ∷ k ∷ l ∷ p) rest _ =
    rw (length-append p rest) (ground arith)
decode_header-append _ rest h = absurd (omega arith)

-- The decoder accepts no header but one that the encoder writes: if it accepts a list of bytes, the
-- first 12 are those that the encoder writes for the message type and payload length it reports,
-- and the length is within the limit.
pub decode_header_canonical :
    (p : Bytes) (h : FrameHeader)
    → All IsByte p
    → decode_header p ≡ (some h, no_error)
    → (take k_header_size p ≡ header_bytes h.type h.payload_length)
      × (h ≡ header_for h.type h.payload_length)
      × (h.payload_length ≤ k_max_payload_bytes)
unfolding decode_header magic_matches read_be16 read_be32 byte_at header_bytes is_valid_message_type
decode_header_canonical (a ∷ b ∷ c ∷ d ∷ e ∷ f ∷ g ∷ h ∷ i ∷ j ∷ k ∷ l ∷ p) hd bytes eq =
    ground arith
decode_header_canonical _ hd bytes eq = ground arith
