-- ===== src/Tests/Session.antt =====
-- A client that greets, subscribes twice and asks for a snapshot.
use network_service.Prelude.{
  ◌+◌, ◌≡◌, refl, true, false, List, [], ◌∷◌, some, length, Bytes, codes, text_eq, arith,
}
use network_service.Codec.{MessageType, Frame}
use network_service.Json.{
  skip_ws, expect, parse_string, string_chars, string_step, parse_uint64, digits_value,
}
use network_service.Hello.{parse_hello_versions}
use network_service.Hello.Parsing.{hello_json, parse_hello_versions-hello_json}
use network_service.Request.{
  RequestParseError, request_id_member, method_member, request_member, request_pair, request_loop,
  request_end, parse_request,
}
use network_service.Request.Accepted.{IsAccepted, parse_request-IsAccepted}
use network_service.Session.{
  closed, Session, new_session, handle_method, handle_parsed, handle_request,
}
use network_service.Session.Requests.{flag, hands_on}
use network_service.Session.Order.{
  run, all_emits, run-emits, is_ready, is_conversation, run_new-is_conversation,
}

abbrev frame : MessageType → Bytes → Frame
frame type payload = record {
  header = record { version = 1; type = type; flags = 0; payload_length = length payload };
  payload = payload;
}

abbrev snapshot_request : Bytes
snapshot_request = codes "{\"requestId\":7,\"method\":\"network.snapshot\"}"

abbrev subscribe_request : Bytes
subscribe_request = codes "{\"requestId\":8,\"method\":\"network.events.subscribe\"}"

abbrev talk : List Frame
talk =
    frame MessageType.hello (hello_json 1 2)
    ∷ frame MessageType.request subscribe_request
    ∷ frame MessageType.request subscribe_request
    ∷ []

abbrev fresh : Session
fresh = new_session 5 (codes "s-1")

abbrev over : Session
over = record fresh { state = closed }

run_new-is_conversation_example : is_ready (run fresh talk).0 ≡ is_conversation talk
run_new-is_conversation_example = run_new-is_conversation 5 (codes "s-1") talk

run-emits_example :
    all_emits (run fresh talk).1 + flag false ≡ flag (run fresh talk).0.events_subscribed
run-emits_example = run-emits talk fresh

parse_hello_versions-hello_json_example : parse_hello_versions (hello_json 1 2) ≡ some (1, 2)
parse_hello_versions-hello_json_example =
    parse_hello_versions-hello_json 1 2 (omega arith) (omega arith)

snapshot_accepted : (parse_request snapshot_request).1 ≡ RequestParseError.no_error
unfolding parse_request request_end request_loop request_pair request_member request_id_member
    method_member parse_string string_chars string_step expect skip_ws parse_uint64 digits_value
    text_eq
snapshot_accepted = refl

parse_request-IsAccepted_example : IsAccepted snapshot_request (parse_request snapshot_request).0
parse_request-IsAccepted_example = parse_request-IsAccepted snapshot_request snapshot_accepted

snapshot_handed_on : hands_on (handle_request fresh snapshot_request).1 ≡ true
unfolding handle_request handle_parsed handle_method parse_request request_end request_loop
    request_pair request_member request_id_member method_member parse_string string_chars
    string_step expect skip_ws parse_uint64 digits_value text_eq
snapshot_handed_on = refl
