-- ===== src/Session/Requests.antt =====
-- What a request does to a session that is ready, and what comes back.
use network_service.Prelude.{ℕ, ◌+◌, ◌≡◌, ◌≤◌, ◌<◌, Bool, true, false, [], arith, Bytes}
use network_service.Rebase.{u64_max}
use network_service.Json.{starts_with}
use network_service.Request.Accepted.{params-starts, IsAccepted, parse_request-IsAccepted}
use network_service.Request.{ParsedRequest, RequestParseError, parse_request}
use network_service.Session.{
  emit_events_subscribed, send_authoritative_snapshot, dispatch_business_request, HandleResult,
  Session, error_result, response_success, response_error, handle_method, refuse_request,
  handle_parsed, handle_request,
}

-- The events flag as a number, and the announcements of a first subscription in a result.
abbrev pub flag : Bool → ℕ
flag true = 1
flag false = 0

abbrev pub emits : HandleResult → ℕ
emits r = elim r.server_action [ emit_events_subscribed ↦ 1 | _ ↦ 0 ]

-- What a step of a session keeps: who it is, and the count of announcements in step with the flag.
pub record Steps (s : Session) (o : Session × HandleResult) : Type 0 where
  pub same_generation : o.0.generation ≡ s.generation
  pub same_id : o.0.session_id ≡ s.session_id
  pub counted : emits o.1 + flag s.events_subscribed ≡ flag o.0.events_subscribed

pub error_result-Steps : (s : Session) (c m : Bytes) (b : Bool) → Steps s (error_result s c m b)
unfolding error_result
error_result-Steps s c m b = ground arith

handle_method-Steps : (s : Session) (r : ParsedRequest) → Steps s (handle_method s r)
unfolding handle_method response_success
handle_method-Steps s r = ground arith

refuse_request-Steps :
    (s : Session) (r : ParsedRequest) (e : RequestParseError) → Steps s (refuse_request s r e)
unfolding error_result response_error
refuse_request-Steps s r e = ground arith

handle_parsed-Steps :
    (s : Session) (o : ParsedRequest × RequestParseError) → Steps s (handle_parsed s o)
unfolding handle_parsed
handle_parsed-Steps s (r, e) = ground (arith, handle_method-Steps s r, refuse_request-Steps s r e)

pub handle_request-Steps : (s : Session) (p : Bytes) → Steps s (handle_request s p)
unfolding handle_request
handle_request-Steps s p = handle_parsed-Steps s (parse_request p)

-- No request ends a session.
pub record Stays (s : Session) (o : Session × HandleResult) : Type 0 where
  pub same_state : o.0.state ≡ s.state
  pub stays_open : o.1.close_after_send ≡ false

error_result-Stays : (s : Session) (c m : Bytes) → Stays s (error_result s c m false)
unfolding error_result
error_result-Stays s c m = ground arith

handle_method-Stays : (s : Session) (r : ParsedRequest) → Stays s (handle_method s r)
unfolding handle_method response_success
handle_method-Stays s r = ground arith

handle_parsed-Stays :
    (s : Session) (o : ParsedRequest × RequestParseError) → Stays s (handle_parsed s o)
unfolding handle_parsed error_result response_error
handle_parsed-Stays s (r, e) = ground (arith, handle_method-Stays s r)

-- No request ends a session, however it is refused: the state stays and the connection is kept.
pub handle_request-Stays : (s : Session) (p : Bytes) → Stays s (handle_request s p)
unfolding handle_request
handle_request-Stays s p = handle_parsed-Stays s (parse_request p)

-- A result that hands the request to the server: it asks for the snapshot or for a dispatch.
abbrev pub hands_on : HandleResult → Bool
hands_on r = elim r.server_action [
  | send_authoritative_snapshot ↦ true
  | dispatch_business_request ↦ true
  | _ ↦ false
]

-- What the server may rely on when a request is handed on.
pub record HandedOn (r : ParsedRequest) (e : RequestParseError) (o : HandleResult) : Type 0 where
  pub accepted : e ≡ RequestParseError.no_error
  pub silent : o.response ≡ []
  pub same_id : o.action_request_id ≡ r.request_id
  pub id_positive : 0 < o.action_request_id
  pub id_fits : o.action_request_id ≤ u64_max
  pub object : starts_with b'{' o.action_params_json ≡ true

handle_method-HandedOn :
    {text : Bytes} (s : Session) (r : ParsedRequest)
    → IsAccepted text r
    → hands_on (handle_method s r).1 ≡ true
    → HandedOn r RequestParseError.no_error (handle_method s r).1
unfolding handle_method response_success
handle_method-HandedOn s r a h = ground (arith, params-starts a.params)

handle_parsed-HandedOn :
    {text : Bytes} (s : Session) (o : ParsedRequest × RequestParseError)
    → (o.1 ≡ RequestParseError.no_error → IsAccepted text o.0)
    → hands_on (handle_parsed s o).1 ≡ true
    → HandedOn o.0 o.1 (handle_parsed s o).1
unfolding handle_parsed error_result response_error
handle_parsed-HandedOn {text} s (r, e) a h =
    ground (arith, handle_method-HandedOn {text = text} s r)

-- A request that is handed on to the server was accepted by the parser, has nothing sent for it
-- yet, and comes with its own id, which fits 64 bits and is not 0, and with an object of
-- parameters.
pub handle_request-HandedOn :
    (s : Session) (p : Bytes)
    → hands_on (handle_request s p).1 ≡ true
    → HandedOn (parse_request p).0 (parse_request p).1 (handle_request s p).1
unfolding handle_request
handle_request-HandedOn s p h =
    handle_parsed-HandedOn s (parse_request p) (parse_request-IsAccepted p) h
