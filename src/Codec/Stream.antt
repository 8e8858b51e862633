-- ===== src/Codec/Stream.antt =====
-- The loop of `parse_available`: its fuel is enough, and more bytes behind the buffer only
-- continue it. Chunks of a stream may therefore be cut anywhere.
use network_service.Prelude.{
  ◌≢◌, ℕ, zero, suc, ◌+◌, ◌≤◌, ◌<◌, ◌≡◌, refl, sym, ap, ◌∙◌, ◌⊎◌, inl, inr, [], ◌∷◌, ◌++◌, some,
  arith, length, take, drop, length-append, length-drop, take-append_le, drop-append_le, Bytes,
}
use network_service.Codec.{
  CodecError, Frame, FrameDecoder, Front, incomplete, broken, complete, front_frame, decode_header,
  status_of, parse_loop, parse_available, failed, k_header_size,
}
use network_service.Codec.Header.{decode_header-append}

pub Front-cases :
    (x : Front)
    → (x ≡ incomplete)
      ⊎ ((e : CodecError) × (x ≡ broken e))
      ⊎ ((f : Frame) × (r : Bytes) × (x ≡ complete f r))
Front-cases incomplete = inl refl
Front-cases (broken e) = inr (inl (e, refl))
Front-cases (complete f r) = inr (inr (f, r, refl))

-- What a complete frame at the front leaves, and how long it was.
pub front_frame-complete :
    (b : Bytes) (f : Frame) (r : Bytes)
    → front_frame b ≡ complete f r
    → (k_header_size + f.header.payload_length ≤ length b)
      × (r ≡ drop (k_header_size + f.header.payload_length) b)
      × (f.payload ≡ take f.header.payload_length (drop k_header_size b))
      × ((decode_header b).0 ≡ some f.header)
unfolding front_frame
front_frame-complete b f r e = ground arith

complete_shrinks :
    (b : Bytes) (f : Frame) (r : Bytes) → front_frame b ≡ complete f r → length r < length b
complete_shrinks b f r e =
    let (fits, left, _, _) = front_frame-complete b f r e in
    omega (arith, ap length left, length-drop (k_header_size + f.header.payload_length) b)

long_enough :
    (b : Bytes) (x : Front) → front_frame b ≡ x → x ≢ incomplete → k_header_size ≤ length b
unfolding front_frame
long_enough b x e h = ground arith

front_frame-append_complete :
    (b ys : Bytes) (f : Frame) (r : Bytes)
    → front_frame b ≡ complete f r
    → front_frame (b ++ ys) ≡ complete f (r ++ ys)
unfolding front_frame
front_frame-append_complete b ys f r e =
    let (fits, left, text, _) = front_frame-complete b f r e in
    ground (
      arith,
      decode_header-append b ys (omega arith),
      length-append b ys,
      drop-append_le (k_header_size + f.header.payload_length) b ys fits,
      drop-append_le k_header_size b ys (omega arith),
      take-append_le f.header.payload_length (drop k_header_size b) ys
          (omega (arith, length-drop k_header_size b)),
    )

pub front_frame-append_broken :
    (b ys : Bytes) (e : CodecError) → front_frame b ≡ broken e → front_frame (b ++ ys) ≡ broken e
unfolding front_frame
front_frame-append_broken b ys e h = ground (
  arith,
  decode_header-append b ys (long_enough b (broken e) h (λ x. cc)),
  length-append b ys,
  long_enough b (broken e) h (λ x. cc),
)

-- One round of the loop, by what stands at the front of the buffer.
pub parse_loop_incomplete :
    (fuel : ℕ) (d : FrameDecoder)
    → front_frame d.buffer ≡ incomplete
    → parse_loop (suc fuel) d ≡ (d, status_of d)
unfolding parse_loop
parse_loop_incomplete fuel d e = rw (e, parse_loop)

pub parse_loop_broken :
    (fuel : ℕ) (d : FrameDecoder) (x : CodecError)
    → front_frame d.buffer ≡ broken x
    → parse_loop (suc fuel) d ≡ (record d { error_state = x }, failed)
unfolding parse_loop
parse_loop_broken fuel d x e = rw (e, parse_loop)

abbrev pub took : FrameDecoder → Frame → Bytes → FrameDecoder
took d f r = record d { frames = d.frames ++ (f ∷ []); buffer = r }

pub parse_loop_complete :
    (fuel : ℕ) (d : FrameDecoder) (f : Frame) (r : Bytes)
    → front_frame d.buffer ≡ complete f r
    → parse_loop (suc fuel) d ≡ parse_loop fuel (took d f r)
unfolding parse_loop
parse_loop_complete fuel d f r e = rw (e, parse_loop)

-- The fuel of the loop is never used up: any two amounts above the buffer's length agree.
pub parse_loop_fuel :
    (f g : ℕ) (d : FrameDecoder)
    → length d.buffer < f
    → length d.buffer < g
    → parse_loop f d ≡ parse_loop g d
parse_loop_fuel zero g d hf hg = absurd (omega arith)
parse_loop_fuel (suc f) zero d hf hg = absurd (omega arith)
parse_loop_fuel (suc f) (suc g) d hf hg = elim (Front-cases (front_frame d.buffer)) [
  | inl e ↦ rw (parse_loop_incomplete f d e, parse_loop_incomplete g d e)
  | inr (inl (x, e)) ↦ rw (parse_loop_broken f d x e, parse_loop_broken g d x e)
  | inr (inr (x, r, e)) ↦
      let shorter = complete_shrinks d.buffer x r e in
      rw (parse_loop_complete f d x r e, parse_loop_complete g d x r e)
        (parse_loop_fuel f g (took d x r) (omega arith) (omega arith))
]

-- `while`: one round, then the loop again.
pub parse_available-complete :
    (d : FrameDecoder) (f : Frame) (r : Bytes)
    → front_frame d.buffer ≡ complete f r
    → parse_available d ≡ parse_available (took d f r)
unfolding parse_available
parse_available-complete d f r e = rw (parse_loop_complete (length d.buffer) d f r e) (
    parse_loop_fuel (length d.buffer) (suc (length r)) (took d f r)
      (complete_shrinks d.buffer f r e) (omega arith))

pub parse_available_incomplete :
    (d : FrameDecoder) → front_frame d.buffer ≡ incomplete → parse_available d ≡ (d, status_of d)
unfolding parse_available
parse_available_incomplete d e = parse_loop_incomplete (length d.buffer) d e

abbrev pub extend : FrameDecoder → Bytes → FrameDecoder
extend d ys = record d { buffer = d.buffer ++ ys }

extend_broken :
    (d : FrameDecoder) (ys : Bytes) (x : CodecError)
    → front_frame d.buffer ≡ broken x
    → parse_available (extend d ys) ≡ parse_available (extend (record d { error_state = x }) ys)
unfolding parse_available
extend_broken d ys x e =
    let e' = front_frame-append_broken d.buffer ys x e in
    parse_loop_broken (length (d.buffer ++ ys)) (extend d ys) x e'
    ∙ sym (
        parse_loop_broken (length (d.buffer ++ ys)) (extend (record d { error_state = x }) ys) x e')

parse_loop-extend :
    (fuel : ℕ) (d : FrameDecoder) (ys : Bytes)
    → length d.buffer < fuel
    → parse_available (extend d ys) ≡ parse_available (extend (parse_loop fuel d).0 ys)
parse_loop-extend zero d ys h = absurd (omega arith)
parse_loop-extend (suc fuel) d ys h = elim (Front-cases (front_frame d.buffer)) [
  | inl e ↦ rw (parse_loop_incomplete fuel d e)
  | inr (inl (x, e)) ↦ rw (parse_loop_broken fuel d x e) (extend_broken d ys x e)
  | inr (inr (x, r, e)) ↦
      let shorter = complete_shrinks d.buffer x r e in
      parse_available-complete (extend d ys) x (r ++ ys)
        (front_frame-append_complete d.buffer ys x r e)
      ∙ rw (parse_loop_complete fuel d x r e) (parse_loop-extend fuel (took d x r) ys (omega arith))
]

-- Parsing what has come, then the rest, is parsing it all.
pub parse_available-extend :
    (d : FrameDecoder) (ys : Bytes)
    → parse_available (extend d ys) ≡ parse_available (extend (parse_available d).0 ys)
unfolding parse_available
parse_available-extend d ys = parse_loop-extend (suc (length d.buffer)) d ys (omega arith)
