-- ===== src/Session/Order.antt =====
-- The frames of one client in a row: what comes before READY, what after the end, and how often a
-- subscription is announced.
use network_service.Prelude.{
  ℕ, ◌+◌, ◌≡◌, ◌∙◌, ap, refl, inl, inr, Bool, true, false, ◌&&◌, not, List, [], ◌∷◌, Option, none,
  some, arith, Bytes, ltb, All, Bool-cases,
}
use network_service.Codec.{Frame, k_protocol_version}
use network_service.Hello.{parse_hello_versions}
use network_service.Session.{
  await_hello, ready, closed, HandleResult, reply, Session, new_session, error_result, ready_result,
  is_hello, is_request, handle_hello, handle_frame,
}
use network_service.Session.Requests.{
  flag, emits, Steps, handle_request-Steps, handle_request-Stays,
}

unfoldable pub run : Session → List Frame → Session × List HandleResult
run s [] = (s, [])
run s (f ∷ fs) = let o = handle_frame s f in let rest = run o.0 fs in (rest.0, o.1 ∷ rest.1)

-- The announcements of a run.
abbrev pub all_emits : List HandleResult → ℕ
all_emits [] = 0
all_emits (r ∷ rs) = emits r + all_emits rs

handle_hello-Steps : (s : Session) (o : Option (ℕ × ℕ)) → Steps s (handle_hello s o)
unfolding handle_hello ready_result error_result
handle_hello-Steps s none = ground arith
handle_hello-Steps s (some (lo, hi)) = ground arith

handle_frame-Steps : (s : Session) (f : Frame) → Steps s (handle_frame s f)
unfolding handle_frame error_result
handle_frame-Steps s f =
    ground (
      arith,
      handle_hello-Steps s (parse_hello_versions f.payload),
      handle_request-Steps s f.payload,
    )

-- Over any frames, the number of announced subscriptions is the change of the events flag: a
-- session announces its subscription once, however often the client asks for it, and never
-- without setting the flag.
pub run-emits :
    (fs : List Frame) (s : Session)
    → all_emits (run s fs).1 + flag s.events_subscribed ≡ flag (run s fs).0.events_subscribed
unfolding run
run-emits [] s = omega arith
run-emits (f ∷ fs) s =
    let step = (handle_frame-Steps s f).counted in
    let rest = run-emits fs (handle_frame s f).0 in omega (arith, step, rest)

-- A HELLO whose version range has version 1 in it.
abbrev pub in_range : Option (ℕ × ℕ) → Bool
in_range none = false
in_range (some (lo, hi)) = not (ltb k_protocol_version lo) && not (ltb hi k_protocol_version)

abbrev pub greets : Frame → Bool
greets f = is_hello f.header.type && in_range (parse_hello_versions f.payload)

abbrev pub all_requests : List Frame → Bool
all_requests [] = true
all_requests (f ∷ fs) = is_request f.header.type && all_requests fs

-- A conversation: a HELLO that greets, and requests behind it.
abbrev pub is_conversation : List Frame → Bool
is_conversation [] = false
is_conversation (f ∷ fs) = greets f && all_requests fs

abbrev pub is_ready : Session → Bool
is_ready s = elim s.state [ ready ↦ true | _ ↦ false ]

abbrev pub is_closed : Session → Bool
is_closed s = elim s.state [ closed ↦ true | _ ↦ false ]

handle_frame-closed :
    (s : Session) (f : Frame) → s.state ≡ closed → handle_frame s f ≡ (s, reply [] true)
unfolding handle_frame
handle_frame-closed s f h = ground arith

-- The end is the end: a closed session keeps its state whatever comes, and answers every frame
-- with an empty response and the order to close.
pub run-closed :
    (fs : List Frame) (s : Session)
    → s.state ≡ closed
    → ((run s fs).0 ≡ s) × All (λ r. r ≡ reply [] true) (run s fs).1
unfolding run
run-closed [] s h = (refl, tt)
run-closed (f ∷ fs) s h =
    let rest = run-closed fs s h in rw (handle_frame-closed s f h) (rest.0, (refl, rest.1))

run-closed_state : (fs : List Frame) (s : Session) → s.state ≡ closed → (run s fs).0.state ≡ closed
run-closed_state fs s h = ap (λ t. t.state) (run-closed fs s h).0 ∙ h

handle_frame-ready :
    (s : Session) (f : Frame)
    → s.state ≡ ready
    → (handle_frame s f).0.state ≡ elim (is_request f.header.type) [ true ↦ ready | false ↦ closed ]
unfolding handle_frame error_result
handle_frame-ready s f h = ground (arith, handle_request-Stays s f.payload)

run-ready :
    (fs : List Frame) (s : Session) → s.state ≡ ready → is_ready (run s fs).0 ≡ all_requests fs
unfolding run
run-ready [] s h = ground arith
run-ready (f ∷ fs) s h = elim (Bool-cases (is_request f.header.type)) [
  | inl good ↦
      let next = run-ready fs (handle_frame s f).0 (ground (arith, handle_frame-ready s f h)) in
      ground (arith, next)
  | inr bad ↦
      let over =
        run-closed_state fs (handle_frame s f).0 (ground (arith, handle_frame-ready s f h)) in
      ground (arith, over)
]

handle_hello-state :
    (s : Session) (o : Option (ℕ × ℕ))
    → (handle_hello s o).0.state ≡ elim (in_range o) [ true ↦ ready | false ↦ closed ]
unfolding handle_hello error_result
handle_hello-state s none = refl
handle_hello-state s (some (lo, hi)) = ground arith

handle_frame-await :
    (s : Session) (f : Frame)
    → s.state ≡ await_hello
    → (handle_frame s f).0.state ≡ elim (greets f) [ true ↦ ready | false ↦ closed ]
unfolding handle_frame error_result
handle_frame-await s f h = ground (arith, handle_hello-state s (parse_hello_versions f.payload))

run-await :
    (fs : List Frame) (s : Session)
    → s.state ≡ await_hello
    → is_ready (run s fs).0 ≡ is_conversation fs
unfolding run
run-await [] s h = ground arith
run-await (f ∷ fs) s h = elim (Bool-cases (greets f)) [
  | inl good ↦
      let next = run-ready fs (handle_frame s f).0 (ground (arith, handle_frame-await s f h)) in
      ground (arith, next)
  | inr bad ↦
      let over =
        run-closed_state fs (handle_frame s f).0 (ground (arith, handle_frame-await s f h)) in
      ground (arith, over)
]

-- A new session that has read the frames is ready exactly if the first of them is a HELLO whose
-- version range has version 1 in it and all the others are requests.
pub run_new-is_conversation :
    (generation : ℕ) (session_id : Bytes) (fs : List Frame)
    → is_ready (run (new_session generation session_id) fs).0 ≡ is_conversation fs
run_new-is_conversation generation session_id fs =
    run-await fs (new_session generation session_id) refl
