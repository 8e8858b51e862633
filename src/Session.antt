-- ===== src/Session.antt =====
-- `Session` of src/ipc/network_ipc_v1_session.cpp and its header: the server's side of one client,
-- from HELLO to the end. A session that a handler changes is returned beside its result.
pub mod Order
pub mod Requests
use network_service.Prelude.{
  ℕ, Bool, true, false, not, ◌&&◌, ◌||◌, List, [], ◌∷◌, ◌++◌, Option, none, some, ltb, ◌==◌,
  if◌then◌else◌, Bytes, codes, decimal, text_eq,
}
use network_service.Codec.{MessageType, Frame, k_protocol_version, encode_frame}
use network_service.Rebase.{unless_error}
use network_service.Hello.{parse_hello_versions}
use network_service.Request.{ParsedRequest, RequestParseError, parse_request, request_error_message}

pub data State : Type 0 where
  await_hello ready closed : State

pub data ServerAction : Type 0 where
  no_action emit_events_subscribed send_authoritative_snapshot : ServerAction
  dispatch_business_request : ServerAction

pub record HandleResult : Type 0 where
  pub response : Bytes
  pub close_after_send : Bool
  pub server_action : ServerAction
  pub action_request_id : ℕ
  pub action_method : Bytes
  pub action_params_json : Bytes

-- `HandleResult(encoded_response, close)`; the other fields keep their initialisers.
abbrev pub reply : Bytes → Bool → HandleResult
reply encoded_response close = record {
  response = encoded_response;
  close_after_send = close;
  server_action = no_action;
  action_request_id = 0;
  action_method = [];
  action_params_json = codes "{}";
}

pub record Session : Type 0 where
  pub generation : ℕ
  pub session_id : Bytes
  pub state : State
  pub events_subscribed : Bool

abbrev pub new_session : ℕ → Bytes → Session
new_session generation session_id = record {
  generation = if generation == 0 then 1 else generation;
  session_id = session_id;
  state = await_hello;
  events_subscribed = false;
}

unfoldable pub encode_json : MessageType → Bytes → Bytes
encode_json type payload = unless_error (encode_frame type payload)

-- `{"code":"<code>","message":"<message>"}`.
abbrev pub error_json : Bytes → Bytes → Bytes
error_json code message =
    codes "{\"code\":\"" ++ (code ++ (codes "\",\"message\":\"" ++ (message ++ codes "\"}")))

unfoldable pub error_result : Session → Bytes → Bytes → Bool → Session × HandleResult
error_result s code message close_after_send = (
  if close_after_send then record s { state = closed } else s,
  reply (encode_json MessageType.error (error_json code message)) close_after_send,
)

unfoldable pub ready_result : Session → HandleResult
ready_result s =
    reply
      (encode_json MessageType.ready (
        codes "{\"version\":1,\"service\":\"network_service\",\"sessionId\":\""
        ++ (s.session_id
            ++ (codes "\",\"generation\":"
                ++ (decimal s.generation
                    ++ codes
                        ",\"capabilities\":[\"request-response\",\"events\",\"snapshot-rebase\",\"network-control\"]}")))))
      false

unfoldable pub response_success : ℕ → Bytes → HandleResult
response_success request_id result_json =
    reply
      (encode_json MessageType.response (
        codes "{\"requestId\":"
        ++ (decimal request_id
            ++ (codes ",\"status\":200,\"result\":" ++ (result_json ++ codes "}")))))
      false

unfoldable pub response_error : ℕ → ℕ → Bytes → Bytes → HandleResult
response_error request_id status code message =
    reply
      (encode_json MessageType.response (
        codes "{\"requestId\":"
        ++ (decimal request_id
            ++ (codes ",\"status\":"
                ++ (decimal status
                    ++ (codes ",\"error\":" ++ (error_json code message ++ codes "}")))))))
      false

-- Whether the request's id may be answered to: it was read, and is not itself what was refused.
abbrev pub answers_to_id : ParsedRequest → RequestParseError → Bool
answers_to_id r RequestParseError.duplicate_request_id = false
answers_to_id r RequestParseError.invalid_request_id = false
answers_to_id r e = r.have_request_id

-- A request that was read without an error, by its method.
unfoldable pub handle_method : Session → ParsedRequest → Session × HandleResult
unfolding response_success
handle_method s r =
    if text_eq r.method (codes "network.ping")
    then (
      s,
      response_success r.request_id
          (codes "{\"service\":\"network_service\",\"protocolVersion\":1}"),
    )
    else if text_eq r.method (codes "network.snapshot")
    then (
      s,
      record (reply [] false) {
        server_action = send_authoritative_snapshot;
        action_request_id = r.request_id;
      },
    )
    else if text_eq r.method (codes "network.events.subscribe")
    then (
      record s { events_subscribed = true },
      record (response_success r.request_id (codes "{\"subscribed\":true}")) {
        server_action = if s.events_subscribed then no_action else emit_events_subscribed;
      },
    )
    else (
      s,
      record (reply [] false) {
        server_action = dispatch_business_request;
        action_request_id = r.request_id;
        action_method = r.method;
        action_params_json = r.params_json;
      },
    )

abbrev pub refuse_request : Session → ParsedRequest → RequestParseError → Session × HandleResult
refuse_request s r e =
    if answers_to_id r e
    then (s, response_error r.request_id 400 (codes "INVALID_REQUEST") (request_error_message e))
    else error_result s (codes "INVALID_REQUEST_ID") (request_error_message e) false

unfoldable pub handle_parsed : Session → ParsedRequest × RequestParseError → Session × HandleResult
unfolding handle_method
handle_parsed s (r, RequestParseError.no_error) = handle_method s r
handle_parsed s (r, e) = refuse_request s r e

unfoldable pub handle_request : Session → Bytes → Session × HandleResult
unfolding handle_parsed
handle_request s payload = handle_parsed s (parse_request payload)

abbrev pub is_hello : MessageType → Bool
is_hello MessageType.hello = true
is_hello _ = false

abbrev pub is_request : MessageType → Bool
is_request MessageType.request = true
is_request _ = false

-- The answer to the version range of a HELLO.
unfoldable pub handle_hello : Session → Option (ℕ × ℕ) → Session × HandleResult
unfolding error_result ready_result
handle_hello s none = error_result s (codes "INVALID_HELLO") (codes "HELLO payload is invalid") true
handle_hello s (some (min_version, max_version)) =
    if ltb k_protocol_version min_version || ltb max_version k_protocol_version
    then error_result s (codes "UNSUPPORTED_VERSION")
        (codes "protocol version 1 is not supported by client range") true
    else (record s { state = ready }, ready_result (record s { state = ready }))

unfoldable pub handle_frame : Session → Frame → Session × HandleResult
unfolding handle_hello handle_request error_result
handle_frame s f = elim s.state [
  | closed ↦ (s, reply [] true)
  | await_hello ↦
      if is_hello f.header.type
      then handle_hello s (parse_hello_versions f.payload)
      else error_result s (codes "SESSION_NOT_READY") (codes "HELLO required before REQUEST") true
  | ready ↦
      if is_request f.header.type
      then handle_request s f.payload
      else error_result s (codes "PROTOCOL_VIOLATION")
          (codes "unexpected client frame for READY session") true
]
