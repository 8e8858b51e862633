-- ===== src/Tests/Codec.antt =====
-- The frame codec on two short messages.
use network_service.Prelude.{◌≤◌, ◌≡◌, refl, [], ◌∷◌, ◌++◌, some, arith, take, Bytes, codes}
use network_service.Codec.{
  MessageType, no_error, new_decoder, decode_header, encode_frame, header_bytes, write_be16,
  write_be32, byte_at, read_be16, read_be32, magic_matches, is_valid_message_type, frame_ready,
  failed, feed, range, front_frame, k_header_size, k_max_payload_bytes,
}
use network_service.Codec.Header.{header_for, decode_header_canonical}
use network_service.Codec.Decoding.{seen, feed_all, feed_all-concat}
use network_service.Codec.RoundTrip.{Message, frame_of, feed_all-stream}
use network_service.Codec.Bounds.{IsBounded, feed-IsBounded}

abbrev ping : Message
ping = record { type = MessageType.request; payload = codes "{}" }

abbrev pong : Message
pong = record { type = MessageType.response; payload = codes "ok" }

abbrev ping_header : Bytes
ping_header = b'N' ∷ b'S' ∷ b'P' ∷ b'1' ∷ 1 ∷ 3 ∷ 0 ∷ 0 ∷ 0 ∷ 0 ∷ 0 ∷ 2 ∷ []

encode_ping : encode_frame MessageType.request (codes "{}") ≡ (ping_header ++ codes "{}", no_error)
unfolding encode_frame header_bytes write_be16 write_be32
encode_ping = refl

decode_ping : decode_header ping_header ≡ (some (header_for MessageType.request 2), no_error)
unfolding decode_header magic_matches is_valid_message_type read_be16 read_be32 byte_at
decode_ping = refl

bad_magic : (feed new_decoder (range (codes "NSPX________"))).1 ≡ failed
unfolding feed front_frame decode_header magic_matches byte_at
bad_magic = refl

decode_header_canonical_example :
    (take k_header_size ping_header ≡ header_bytes MessageType.request 2)
    × (header_for MessageType.request 2 ≡ header_for MessageType.request 2)
    × (2 ≤ k_max_payload_bytes)
decode_header_canonical_example =
    decode_header_canonical ping_header (header_for MessageType.request 2) (omega arith) decode_ping

feed_all-concat_example :
    seen (feed_all new_decoder (codes "NS") (codes "P1" ∷ codes "x" ∷ []))
    ≡ seen (feed new_decoder (range (codes "NSP1x")))
feed_all-concat_example = feed_all-concat new_decoder (codes "NS") (codes "P1" ∷ codes "x" ∷ [])

abbrev first_chunk : Bytes
first_chunk = b'N' ∷ b'S' ∷ b'P' ∷ b'1' ∷ 1 ∷ []

abbrev second_chunk : Bytes
second_chunk =
    3 ∷ 0 ∷ 0 ∷ 0 ∷ 0 ∷ 0 ∷ 2 ∷ b'{' ∷ b'}' ∷ b'N' ∷ b'S' ∷ b'P' ∷ b'1' ∷ 1 ∷ 4 ∷ 0 ∷ 0 ∷ 0 ∷ 0 ∷ 0
    ∷ 2 ∷ b'o' ∷ []

feed_all-stream_example :
    seen (feed_all new_decoder first_chunk (second_chunk ∷ codes "k" ∷ [])) ≡ record {
      frames = frame_of ping ∷ frame_of pong ∷ [];
      error_state = no_error;
      status = frame_ready;
    }
unfolding encode_frame header_bytes write_be16 write_be32
feed_all-stream_example =
    feed_all-stream ping (pong ∷ []) first_chunk (second_chunk ∷ codes "k" ∷ []) (omega arith) refl

feed-IsBounded_example : IsBounded (feed new_decoder (range ping_header)).0
feed-IsBounded_example =
    feed-IsBounded new_decoder (range ping_header) (record { whole = tt; short = λ _. omega arith })
