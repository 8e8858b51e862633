-- ===== src/Codec/RoundTrip.antt =====
-- A stream that `encode_frame` wrote, cut into chunks anywhere, comes back frame by frame.
use network_service.Prelude.{
  ℕ, suc, ◌+◌, ◌≤◌, ◌≡◌, refl, sym, ap, ◌∙◌, List, [], ◌∷◌, ◌++◌, map, append_assoc, append-nil,
  some, arith, length, concat, drop, All, length-append, take-length, drop-length, Bytes,
}
use network_service.Codec.{
  MessageType, no_error, Frame, FrameDecoder, new_decoder, incomplete, complete, cut_frame,
  front_frame, encode_frame, header_bytes, status_of, parse_available, feed, range, k_header_size,
  k_max_payload_bytes, frame_ready,
}
use network_service.Codec.Header.{decode_header-header_bytes, length-header_bytes, header_for}
use network_service.Codec.Stream.{parse_available-complete, parse_available_incomplete}
use network_service.Codec.Decoding.{seen, feed_all, feed_all-concat, feed_range}

pub record Message : Type 0 where
  pub type : MessageType
  pub payload : Bytes

abbrev pub Fits : Message → Type 0
Fits m = length m.payload ≤ k_max_payload_bytes

abbrev pub frame_of : Message → Frame
frame_of m = record { header = header_for m.type (length m.payload); payload = m.payload }

abbrev pub wire : Message → Bytes
wire m = (encode_frame m.type m.payload).0

abbrev pub stream : List Message → Bytes
stream ms = concat (map wire ms)

pub encode_frame-fits :
    (t : MessageType) (p : Bytes)
    → length p ≤ k_max_payload_bytes
    → encode_frame t p ≡ (header_bytes t (length p) ++ p, no_error)
unfolding encode_frame
encode_frame-fits t p h = ground arith

drop_header :
    (t : MessageType) (n k : ℕ) (xs : Bytes)
    → drop (k_header_size + k) (header_bytes t n ++ xs) ≡ drop k xs
unfolding header_bytes
drop_header t n k xs =
    let e : k_header_size + k
        ≡ suc (suc (suc (suc (suc (suc (suc (suc (suc (suc (suc (suc k))))))))))) =
      omega arith in
    rw e

cut_header :
    (t : MessageType) (p rest : Bytes)
    → cut_frame
        (header_bytes t (length p) ++ (p ++ rest))
        (some (header_for t (length p)), no_error)
      ≡ complete (record { header = header_for t (length p); payload = p }) rest
unfolding cut_frame
cut_header t p rest = ground (
  arith,
  length-append (header_bytes t (length p)) (p ++ rest),
  length-append p rest,
  length-header_bytes t (length p),
  drop_header t (length p) (length p) (p ++ rest),
  drop_header t (length p) 0 (p ++ rest),
  drop-length p rest,
  take-length p rest,
)

front_frame-header :
    (t : MessageType) (p rest : Bytes)
    → length p ≤ k_max_payload_bytes
    → front_frame (header_bytes t (length p) ++ (p ++ rest))
      ≡ complete (record { header = header_for t (length p); payload = p }) rest
unfolding front_frame
front_frame-header t p rest h = ground (
  arith,
  length-append (header_bytes t (length p)) (p ++ rest),
  length-header_bytes t (length p),
  decode_header-header_bytes t (length p) (p ++ rest) h,
  cut_header t p rest,
)

pub front_frame-wire :
    (m : Message) (rest : Bytes)
    → Fits m
    → front_frame (wire m ++ rest) ≡ complete (frame_of m) rest
front_frame-wire m rest h =
    ap (λ w. front_frame (w ++ rest)) (ap (λ r. r.0) (encode_frame-fits m.type m.payload h))
    ∙ ap front_frame (append_assoc (header_bytes m.type (length m.payload)) m.payload rest)
    ∙ front_frame-header m.type m.payload rest h

front_frame-nil : front_frame [] ≡ incomplete
unfolding front_frame
front_frame-nil = refl

abbrev holding : FrameDecoder → List Frame → Bytes → FrameDecoder
holding d fs b = record d { frames = fs; buffer = b }

-- All frames of the stream are appended in order, and nothing is left over.
parse_available-stream :
    (ms : List Message) (d : FrameDecoder) (fs : List Frame)
    → All Fits ms
    → parse_available (holding d fs (stream ms))
      ≡ (holding d (fs ++ map frame_of ms) [], status_of (holding d (fs ++ map frame_of ms) []))
parse_available-stream [] d fs fits =
    parse_available_incomplete (holding d fs []) front_frame-nil
    ∙ ap (λ gs. (holding d gs [], status_of (holding d gs []))) (sym (append-nil fs))
parse_available-stream (m ∷ ms) d fs fits =
    parse_available-complete (holding d fs (stream (m ∷ ms))) (frame_of m) (stream ms)
      (front_frame-wire m (stream ms) fits.0)
    ∙ parse_available-stream ms d (fs ++ (frame_of m ∷ [])) fits.1
    ∙ ap (λ gs. (holding d gs [], status_of (holding d gs [])))
        (append_assoc fs (frame_of m ∷ []) (map frame_of ms))

-- If all payloads fit the limit, a fresh decoder that is fed the encoding of `m ∷ ms`, cut into
-- chunks in any way, holds exactly
-- their frames in order, with no error, and says that a frame is ready.
pub feed_all-stream :
    (m : Message) (ms : List Message) (c : Bytes) (cs : List Bytes)
    → All Fits (m ∷ ms)
    → c ++ concat cs ≡ stream (m ∷ ms)
    → seen (feed_all new_decoder c cs)
      ≡ record { frames = map frame_of (m ∷ ms); error_state = no_error; status = frame_ready }
unfolding status_of
feed_all-stream m ms c cs fits cut =
    feed_all-concat new_decoder c cs
    ∙ ap (λ b. seen (feed new_decoder (range b))) cut
    ∙ ap seen (feed_range new_decoder (stream (m ∷ ms)) refl)
    ∙ ap seen (parse_available-stream (m ∷ ms) new_decoder [] fits)
