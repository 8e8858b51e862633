-- ===== src/Tests/Business.antt =====
-- Requests with escapes, with parameters of the wrong type, and with names given twice.
use network_service.Prelude.{
  ℕ, ◌≡◌, refl, true, false, [], ◌∷◌, none, some, arith, Bytes, codes, text_eq, suc,
}
use network_service.Prelude.Int.{pos}
use network_service.Types.{ethernet_preferred, EthernetConfig}
use network_service.Json.{
  skip_ws, skip_literal, skip_digits, skip_fraction, skip_exponent, skip_minus, expect, unescape,
}
use network_service.WifiScan.{idle}
use network_service.Representation.{
  quoted, json_object, ethernet_config_payload, bool_text, WifiCommandResult,
}
use network_service.BusinessReader.{
  append_utf8, hex_value, string_step, string_chars, parse_string, skip_string, skip_integer,
  skip_number, skip_items, skip_members, skip_value, find_loop, find_member, parse_full_string,
  read_string, read_bool,
}
use network_service.BusinessReader.Members.{
  values_of, only, quoted-IsValue, bool-IsValue, find_member-json_object,
}
use network_service.Business.{
  NetworkOperationResult, NetworkDaemon, operation_response, dispatch_business_request, set_enabled,
}
use network_service.Business.Calls.{Logged, noting, IsServed, dispatch_business_request-IsServed}
use network_service.Business.Requests.{static_params, dispatch-static}

abbrev fine : {A : Type 0} → A → NetworkOperationResult A
fine a = record { status = pos 200; value = a; error = [] }

abbrev config : EthernetConfig
config = record {
  iface = codes "eth0";
  method = codes "dhcp";
  ip4 = [];
  netmask4 = [];
  gateway4 = [];
  dns4 = [];
  route_metric = pos 10;
  dns_enabled = true;
}

abbrev did : Bytes → WifiCommandResult
did what = record { requested = what; has_enabled = false; enabled = false }

-- A daemon that counts its calls.
abbrev counting : NetworkDaemon ℕ
counting = record {
  route_policy_get =
      λ w. (fine (record { policy = ethernet_preferred; persistent = false }), suc w);
  route_policy_apply = λ p w. (fine (record { policy = p; persistent = false }), suc w);
  eth_get_config = λ w. (fine config, suc w);
  eth_set_dhcp = λ w. (fine config, suc w);
  eth_set_static =
      λ i m g n w. (fine (record config { ip4 = i; netmask4 = m; gateway4 = g; dns4 = n }), suc w);
  wifi_scan_start =
      λ w. (fine (record { scan_id = 1; state = idle; error = []; records = [] }), suc w);
  wifi_scan_status =
      λ w. (fine (record { scan_id = 1; state = idle; error = []; records = [] }), suc w);
  wifi_set_enabled = λ b w. (fine (record { enabled = b }), suc w);
  wifi_connect = λ s p w. (fine (did s), suc w);
  wifi_connect_saved = λ s w. (fine (did s), suc w);
  wifi_list_saved = λ w. (fine [], suc w);
  wifi_forget = λ s w. (fine (did s), suc w);
  wifi_set_autoconnect = λ s b w. (fine (did s), suc w);
  wifi_disconnect = λ w. (fine (did []), suc w);
}

-- A quotation mark, a control character and two bytes of UTF-8.
abbrev odd : Bytes
odd = b'"' ∷ 1 ∷ 0xc3 ∷ 0xa9 ∷ []

dispatch-static_example :
    dispatch_business_request counting 7
      (codes "eth.set_static")
      (static_params (codes "10.0.0.2") odd [] (codes "1.1.1.1"))
      0
    ≡ operation_response 7 ethernet_config_payload
        (counting.eth_set_static (codes "10.0.0.2") odd [] (codes "1.1.1.1") 0)
dispatch-static_example = dispatch-static counting 7 (codes "10.0.0.2") odd [] (codes "1.1.1.1") 0

abbrev quiet : Logged ℕ
quiet = record { inner = 0; calls = [] }

dispatch_business_request-IsServed_example : IsServed 9 quiet (
    dispatch_business_request
      (noting counting)
      9
      (codes "wifi.forget")
      (codes "{\"ssid\":\"\"}")
      quiet)
dispatch_business_request-IsServed_example =
    dispatch_business_request-IsServed counting 9 quiet (codes "wifi.forget")
      (codes "{\"ssid\":\"\"}")

find_member-json_object_example :
    find_member
      (codes "b")
      (json_object ((codes "a", quoted odd) ∷ (codes "b", bool_text true) ∷ []))
    ≡ only (values_of (codes "b") ((codes "a", quoted odd) ∷ (codes "b", bool_text true) ∷ []))
find_member-json_object_example =
    find_member-json_object (codes "b") (codes "a", quoted odd) ((codes "b", bool_text true) ∷ [])
      ((omega arith, quoted-IsValue odd), ((omega arith, bool-IsValue true), tt))

-- A surrogate pair is one code point, and half of one is refused.
pair : parse_full_string (codes "\"\\ud83d\\ude00\"") ≡ some (0xf0 ∷ 0x9f ∷ 0x98 ∷ 0x80 ∷ [])
unfolding parse_full_string parse_string string_chars string_step hex_value append_utf8 skip_ws
    unescape
pair = refl

half : parse_full_string (codes "\"\\ud83d\"") ≡ none
unfolding parse_full_string parse_string string_chars string_step hex_value append_utf8 skip_ws
    unescape
half = refl

-- A name given twice is refused, and so is a text where a truth value is asked for.
twice : read_string (codes "{\"a\":\"1\", \"a\":\"2\"}") (codes "a") ≡ none
unfolding read_string find_member find_loop parse_full_string parse_string string_chars string_step
    hex_value append_utf8 skip_ws unescape expect skip_value skip_string text_eq
twice = refl

wrong_type :
    (dispatch_business_request counting 1
      (codes "wifi.set_enabled")
      (codes "{\"enabled\":\"true\"}")
      0).1
    ≡ 0
unfolding dispatch_business_request set_enabled read_bool find_member find_loop parse_string
    string_chars string_step hex_value append_utf8 skip_ws unescape expect skip_value skip_string
    text_eq
wrong_type = refl

-- Nested values and numbers are skipped.
nested :
    read_bool
      (codes " { \"x\" : [1.5e3, {\"y\": null}, []], \"enabled\": false } ")
      (codes "enabled")
    ≡ some false
unfolding read_bool find_member find_loop parse_string string_chars string_step hex_value
    append_utf8 skip_ws unescape expect skip_value skip_string text_eq skip_items skip_members
    skip_number skip_integer skip_digits skip_fraction skip_exponent skip_minus skip_literal
nested = refl
