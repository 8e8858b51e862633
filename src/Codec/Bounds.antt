-- ===== src/Codec/Bounds.antt =====
-- What the decoder holds: only frames that the protocol allows, and no more buffered bytes than
-- one unfinished frame.
use network_service.Prelude.{
  ℕ, zero, suc, ◌+◌, ◌≤◌, ◌<◌, ◌≡◌, sym, ap, ◌∙◌, [], ◌∷◌, some, arith, length, drop, All,
  All-append, length-drop, length-take, Bytes, inl, inr, Bool-cases, ◌==◌,
}
use network_service.Codec.{
  no_error, FrameHeader, Frame, FrameDecoder, incomplete, complete, front_frame, decode_header,
  feed, Chunk, null, range, k_header_size, k_max_payload_bytes, parse_loop, parse_available,
  feed_ready,
}
use network_service.Codec.Header.{header_for}
use network_service.Codec.Stream.{Front-cases, front_frame-complete, took, extend}
use network_service.Codec.Decoding.{
  waiting, refused, parse_available-StoppedAt, no_error-cases, feed_open, feed_sticky,
}

-- The payload has the length that the header states, and the header has the only allowed form.
pub record IsWhole (f : Frame) : Type 0 where
  pub sized : length f.payload ≡ f.header.payload_length
  pub header_is : f.header ≡ header_for f.header.type f.header.payload_length
  pub bounded : f.header.payload_length ≤ k_max_payload_bytes

-- No error: every frame is whole, and the buffer is shorter than the longest frame. With an error
-- the frames before it are still whole.
pub record IsBounded (d : FrameDecoder) : Type 0 where
  pub whole : All IsWhole d.frames
  pub short : d.error_state ≡ no_error → length d.buffer < k_header_size + k_max_payload_bytes

decode_header-allowed :
    (p : Bytes) (h : FrameHeader)
    → (decode_header p).0 ≡ some h
    → (h ≡ header_for h.type h.payload_length) × (h.payload_length ≤ k_max_payload_bytes)
unfolding decode_header
decode_header-allowed p h e = ground arith

front_frame-IsWhole : (b : Bytes) (f : Frame) (r : Bytes) → front_frame b ≡ complete f r → IsWhole f
front_frame-IsWhole b f r e =
    let (fits, _, text, head) = front_frame-complete b f r e in
    let (form, small) = decode_header-allowed b f.header head in
    record {
      sized = omega (
        arith,
        ap length text,
        length-take f.header.payload_length (drop k_header_size b),
        length-drop k_header_size b,
      );
      header_is = form;
      bounded = small;
    }

parse_loop-IsWhole :
    (fuel : ℕ) (d : FrameDecoder) → All IsWhole d.frames → All IsWhole (parse_loop fuel d).0.frames
unfolding parse_loop
parse_loop-IsWhole zero d w = w
parse_loop-IsWhole (suc fuel) d w = elim (Front-cases (front_frame d.buffer)) [
  | inl e ↦ rw (e, parse_loop) w
  | inr (inl (x, e)) ↦ rw (e, parse_loop) w
  | inr (inr (x, r, e)) ↦
      rw (e, parse_loop)
        (parse_loop-IsWhole fuel (took d x r)
          (All-append IsWhole d.frames (x ∷ []) w (front_frame-IsWhole d.buffer x r e, tt)))
]

incomplete-short :
    (b : Bytes) → front_frame b ≡ incomplete → length b < k_header_size + k_max_payload_bytes
unfolding front_frame decode_header
incomplete-short b e = ground arith

parse_available-IsBounded :
    (d : FrameDecoder)
    → d.error_state ≡ no_error
    → All IsWhole d.frames
    → IsBounded (parse_available d).0
unfolding parse_available
parse_available-IsBounded d ok w = record {
  whole = parse_loop-IsWhole (suc (length d.buffer)) d w;
  short = λ fine. elim (parse_available-StoppedAt d ok) [
    | waiting _ _ front ↦ incomplete-short _ front
    | refused e at_e bad _ _ ↦ absurd (bad (sym at_e ∙ fine))
  ];
}

feed_ready-IsBounded :
    (d : FrameDecoder) (c : Chunk)
    → d.error_state ≡ no_error
    → IsBounded d
    → IsBounded (feed_ready d c).0
unfolding feed_ready
feed_ready-IsBounded d (range bytes) ok v = parse_available-IsBounded (extend d bytes) ok v.whole
feed_ready-IsBounded d (null size) ok v = elim (Bool-cases (size == 0)) [
  | inl e ↦ rw e (parse_available-IsBounded d ok v.whole)
  | inr e ↦ rw e (record { whole = v.whole; short = λ h. cc })
]

-- `feed` keeps the decoder bounded, whatever it is given, a null pointer included: the frames it
-- holds have the allowed header and the stated payload length of at most 64 KiB, and while there is
-- no error the buffer is shorter than 12 bytes and 64 KiB.
pub feed-IsBounded : (d : FrameDecoder) (c : Chunk) → IsBounded d → IsBounded (feed d c).0
feed-IsBounded d c v = elim (no_error-cases d.error_state) [
  | inl ok ↦ rw (feed_open d c ok) (feed_ready-IsBounded d c ok v)
  | inr bad ↦ rw (feed_sticky d c bad) v
]
