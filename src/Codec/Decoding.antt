-- ===== src/Codec/Decoding.antt =====
-- `FrameDecoder::feed`: what it delivers does not depend on how the stream is cut into chunks,
-- it gives back the frames that `encode_frame` wrote, and what it keeps is bounded.
use network_service.Prelude.{
  ℕ, zero, suc, ◌+◌, ◌<◌, ◌≡◌, ◌≢◌, refl, sym, ap, ◌∙◌, ◌⊎◌, inl, inr, List, [], ◌∷◌, ◌++◌,
  append_assoc, append-nil, arith, length, concat, length-drop, Bytes,
}
use network_service.Codec.{
  CodecError, no_error, Frame, FrameDecoder, incomplete, broken, front_frame, status_of, parse_loop,
  parse_available, feed, feed_ready, Chunk, range, failed, DecodeStatus, k_header_size,
}
use network_service.Codec.Stream.{
  Front-cases, front_frame-complete, front_frame-append_broken, parse_loop_incomplete,
  parse_loop_broken, parse_loop_complete, took, extend, parse_available-extend,
}

-- What a caller of the decoder can see: the frames, the error and the last status.
pub record Seen : Type 0 where
  pub frames : List Frame
  pub error_state : CodecError
  pub status : DecodeStatus

abbrev pub seen : FrameDecoder × DecodeStatus → Seen
seen (d, s) = record { frames = d.frames; error_state = d.error_state; status = s }

pub broken-ne-no_error : (b : Bytes) (e : CodecError) → front_frame b ≡ broken e → e ≢ no_error
unfolding front_frame
broken-ne-no_error b e h = ground arith

-- Where the loop can stop: with no whole frame in front, or at a header that is refused.
pub data Stopped (d : FrameDecoder) (s : DecodeStatus) : Type 0 where
  waiting :
      d.error_state ≡ no_error → s ≡ status_of d → front_frame d.buffer ≡ incomplete → Stopped d s
  refused :
      (e : CodecError)
      → d.error_state ≡ e
      → e ≢ no_error
      → s ≡ failed
      → front_frame d.buffer ≡ broken e
      → Stopped d s

abbrev pub StoppedAt : FrameDecoder × DecodeStatus → Type 0
StoppedAt r = Stopped r.0 r.1

parse_loop-StoppedAt :
    (fuel : ℕ) (d : FrameDecoder)
    → length d.buffer < fuel
    → d.error_state ≡ no_error
    → StoppedAt (parse_loop fuel d)
parse_loop-StoppedAt zero d h ok = absurd (omega arith)
parse_loop-StoppedAt (suc fuel) d h ok = elim (Front-cases (front_frame d.buffer)) [
  | inl e ↦ rw (parse_loop_incomplete fuel d e) (waiting ok refl e)
  | inr (inl (x, e)) ↦
      rw (parse_loop_broken fuel d x e) (refused x refl (broken-ne-no_error d.buffer x e) refl e)
  | inr (inr (x, r, e)) ↦
      let (fits, left, _, _) = front_frame-complete d.buffer x r e in
      rw (parse_loop_complete fuel d x r e) (
        parse_loop-StoppedAt fuel (took d x r)
          (omega
            (arith, ap length left, length-drop (k_header_size + x.header.payload_length) d.buffer))
          ok)
]

pub parse_available-StoppedAt :
    (d : FrameDecoder) → d.error_state ≡ no_error → StoppedAt (parse_available d)
unfolding parse_available
parse_available-StoppedAt d ok = parse_loop-StoppedAt (suc (length d.buffer)) d (omega arith) ok

-- At a refused header more bytes change nothing but the buffer.
parse_available-refused :
    (d : FrameDecoder) (ys : Bytes) (e : CodecError)
    → d.error_state ≡ e
    → front_frame d.buffer ≡ broken e
    → seen (parse_available (extend d ys)) ≡ seen (d, failed)
unfolding parse_available
parse_available-refused d ys e at_e front =
    let again = front_frame-append_broken d.buffer ys e front in
    rw (parse_loop_broken (length (d.buffer ++ ys)) (extend d ys) e again) (ground arith)

pub feed_range :
    (d : FrameDecoder) (xs : Bytes)
    → d.error_state ≡ no_error
    → feed d (range xs) ≡ parse_available (extend d xs)
unfolding feed feed_ready
feed_range d xs ok = rw (ok, feed)

pub feed_open :
    (d : FrameDecoder) (c : Chunk) → d.error_state ≡ no_error → feed d c ≡ feed_ready d c
unfolding feed
feed_open d c ok = ground arith

-- After an error nothing is consumed.
pub feed_sticky : (d : FrameDecoder) (c : Chunk) → d.error_state ≢ no_error → feed d c ≡ (d, failed)
unfolding feed
feed_sticky d c bad = ground arith

pub no_error-cases : (e : CodecError) → (e ≡ no_error) ⊎ (e ≢ no_error)
no_error-cases no_error = inl refl
no_error-cases _ = inr (λ h. cc)

-- Feeding a range in two parts shows the same as feeding it whole.
pub feed_split :
    (d : FrameDecoder) (xs ys : Bytes)
    → seen (feed d (range (xs ++ ys))) ≡ seen (feed (feed d (range xs)).0 (range ys))
feed_split d xs ys = elim (no_error-cases d.error_state) [
  | inr bad ↦
      rw (feed_sticky d (range (xs ++ ys)) bad, feed_sticky d (range xs) bad)
        (sym (ap seen (feed_sticky d (range ys) bad)))
  | inl ok ↦
      let whole : feed d (range (xs ++ ys)) ≡ parse_available (extend (extend d xs) ys) =
        feed_range d (xs ++ ys) ok
        ∙ ap (λ b. parse_available (record d { buffer = b })) (sym (append_assoc d.buffer xs ys)) in
      let halves = whole ∙ parse_available-extend (extend d xs) ys in
      rw (halves, feed_range d xs ok)
        (elim (parse_available-StoppedAt (extend d xs) ok) [
          | waiting fine _ _ ↦ sym (ap seen (feed_range (parse_available (extend d xs)).0 ys fine))
          | refused e at_e bad _ front ↦
              parse_available-refused (parse_available (extend d xs)).0 ys e at_e front
              ∙ sym
                  (ap seen (feed_sticky (parse_available (extend d xs)).0 (range ys) (rw at_e bad)))
        ])
]

-- One call of `feed` for each chunk that is read from the socket.
unfoldable pub feed_all : FrameDecoder → Bytes → List Bytes → FrameDecoder × DecodeStatus
feed_all d c [] = feed d (range c)
feed_all d c (c' ∷ cs) = feed_all (feed d (range c)).0 c' cs

-- Any number of chunks shows the same as one call with all their bytes.
pub feed_all-concat :
    (d : FrameDecoder) (c : Bytes) (cs : List Bytes)
    → seen (feed_all d c cs) ≡ seen (feed d (range (c ++ concat cs)))
unfolding feed_all
feed_all-concat d c [] = rw (append-nil c)
feed_all-concat d c (c' ∷ cs) =
    feed_all-concat (feed d (range c)).0 c' cs ∙ sym (feed_split d c (c' ++ concat cs))
