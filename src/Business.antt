-- ===== src/Business.antt =====
-- `dispatch_business_request` of src/ipc/network_ipc_v1_business_dispatch.cpp, which turns a method
-- and its parameters into one call of the daemon and one response. The daemon's operations are
-- functions of a world `W`; their result type is that of
-- src/service/include/service/network_operation_result.h.
pub mod Calls
pub mod Requests
use network_service.Prelude.{
  ℕ, ◌+◌, Bool, true, false, not, ◌&&◌, ◌||◌, List, [], ◌∷◌, ◌++◌, Option, none, some,
  if◌then◌else◌, is_empty, Bytes, codes, text_eq, decimal,
}
use network_service.Prelude.Int.{ℤ, pos, ltb_ℤ}
use network_service.Types.{RoutePolicy, EthernetConfig, WifiSavedNetwork}
use network_service.Codec.{MessageType, encode_frame}
use network_service.Rebase.{unless_error}
use network_service.WifiScan.{WifiScanStatus}
use network_service.Representation.{
  json_escape, decimal_ℤ, quoted, json_object, RoutePolicyInfo, WifiEnabledResult,
  WifiCommandResult, route_policy_payload, ethernet_config_payload, wifi_saved_payload,
  wifi_scan_status_payload, wifi_enabled_payload, wifi_command_payload,
}
use network_service.BusinessReader.{read_string, read_bool, parse_product_route_policy}

pub record NetworkOperationResult (A : Type 0) : Type 0 where
  pub status : ℤ
  pub value : A
  pub error : Bytes

abbrev pub succeeded : {A : Type 0} → NetworkOperationResult A → Bool
succeeded r = not (ltb_ℤ r.status (pos 200)) && ltb_ℤ r.status (pos 300)

-- The operations of `NetworkDaemon` that requests reach.
pub record NetworkDaemon (W : Type 0) : Type 0 where
  pub route_policy_get : W → NetworkOperationResult RoutePolicyInfo × W
  pub route_policy_apply : RoutePolicy → W → NetworkOperationResult RoutePolicyInfo × W
  pub eth_get_config : W → NetworkOperationResult EthernetConfig × W
  pub eth_set_dhcp : W → NetworkOperationResult EthernetConfig × W
  pub eth_set_static : Bytes → Bytes → Bytes → Bytes → W → NetworkOperationResult EthernetConfig × W
  pub wifi_scan_start : W → NetworkOperationResult WifiScanStatus × W
  pub wifi_scan_status : W → NetworkOperationResult WifiScanStatus × W
  pub wifi_set_enabled : Bool → W → NetworkOperationResult WifiEnabledResult × W
  pub wifi_connect : Bytes → Bytes → W → NetworkOperationResult WifiCommandResult × W
  pub wifi_connect_saved : Bytes → W → NetworkOperationResult WifiCommandResult × W
  pub wifi_list_saved : W → NetworkOperationResult (List WifiSavedNetwork) × W
  pub wifi_forget : Bytes → W → NetworkOperationResult WifiCommandResult × W
  pub wifi_set_autoconnect : Bytes → Bool → W → NetworkOperationResult WifiCommandResult × W
  pub wifi_disconnect : W → NetworkOperationResult WifiCommandResult × W

unfoldable pub encode_response_payload : Bytes → Bytes
encode_response_payload payload = unless_error (encode_frame MessageType.response payload)

unfoldable pub response_error : ℕ → ℤ → Bytes → Bytes → Bytes
unfolding encode_response_payload json_escape decimal decimal_ℤ
response_error request_id status code message = encode_response_payload (
    json_object (
      (codes "requestId", decimal request_id)
      ∷ (codes "status", decimal_ℤ status)
      ∷ (
        codes "error",
        json_object
            ((codes "code", b'"' ∷ (code ++ (b'"' ∷ []))) ∷ (codes "message", quoted message) ∷ []),
      )
      ∷ []))

unfoldable pub response_success : ℕ → ℤ → Bytes → Bytes
unfolding encode_response_payload decimal decimal_ℤ
response_success request_id status payload_json = encode_response_payload (
    json_object (
      (codes "requestId", decimal request_id)
      ∷ (codes "status", decimal_ℤ status)
      ∷ (codes "result", payload_json)
      ∷ []))

unfoldable pub invalid_params : ℕ → Bytes → Bytes
unfolding response_error
invalid_params request_id message =
    response_error request_id (pos 400) (codes "INVALID_PARAMS") message

abbrev pub nonempty : Option Bytes → Option Bytes
nonempty none = none
nonempty (some value) = if is_empty value then none else some value

abbrev pub policy_param : Option Bytes → Option RoutePolicy
policy_param none = none
policy_param (some name) = parse_product_route_policy name

module _ {W : Type 0} where
  unfoldable pub operation_response :
      {A : Type 0} → ℕ → (A → Bytes) → NetworkOperationResult A × W → Bytes × W
  unfolding response_error response_success
  operation_response request_id encoder (result, w) = (
    if not (succeeded result)
        then response_error request_id result.status (codes "OPERATION_FAILED") result.error
        else response_success request_id result.status (encoder result.value),
    w,
  )

  abbrev pub reject : ℕ → Bytes → W → Bytes × W
  reject request_id message w = (invalid_params request_id message, w)

  -- A parameter that is missing or of another type is answered without a call.
  abbrev pub with_param : {A : Type 0} → Option A → Bytes × W → (A → Bytes × W) → Bytes × W
  with_param none refused next = refused
  with_param (some a) refused next = next a

  unfoldable pub apply_policy : NetworkDaemon W → ℕ → Bytes → W → Bytes × W
  unfolding read_string parse_product_route_policy operation_response
  apply_policy d id params w =
      with_param (policy_param (read_string params (codes "policy")))
        (reject id
          (codes
            "network.route_policy.apply requires policy ethernet_preferred, wifi_preferred, or wifi_only")
          w)
        (λ policy. operation_response id route_policy_payload (d.route_policy_apply policy w))

  unfoldable pub set_static : NetworkDaemon W → ℕ → Bytes → W → Bytes × W
  unfolding read_string operation_response
  set_static d id params w =
      let refused = reject id (codes "eth.set_static requires string ip/mask/gateway/dns") w in
      with_param (read_string params (codes "ip")) refused (λ ip.
        with_param (read_string params (codes "mask")) refused (λ mask.
          with_param (read_string params (codes "gateway")) refused (λ gateway.
            with_param (read_string params (codes "dns")) refused (λ dns.
              operation_response id ethernet_config_payload
                (d.eth_set_static ip mask gateway dns w)))))

  unfoldable pub set_enabled : NetworkDaemon W → ℕ → Bytes → W → Bytes × W
  unfolding read_bool operation_response
  set_enabled d id params w =
      with_param (read_bool params (codes "enabled"))
        (reject id (codes "wifi.set_enabled requires boolean enabled") w)
        (λ enabled. operation_response id wifi_enabled_payload (d.wifi_set_enabled enabled w))

  unfoldable pub connect : NetworkDaemon W → ℕ → Bytes → W → Bytes × W
  unfolding read_string operation_response
  connect d id params w =
      let refused =
        reject id (codes "wifi.connect requires non-empty string ssid and string password") w in
      with_param (nonempty (read_string params (codes "ssid"))) refused (λ ssid.
        with_param (read_string params (codes "password")) refused
          (λ password. operation_response id wifi_command_payload (d.wifi_connect ssid password w)))

  -- `wifi.connect_saved` and `wifi.forget` differ in their text and their operation.
  unfoldable pub by_ssid :
      (Bytes → W → NetworkOperationResult WifiCommandResult × W) → Bytes → ℕ → Bytes → W → Bytes × W
  unfolding read_string operation_response
  by_ssid operation message id params w =
      with_param (nonempty (read_string params (codes "ssid"))) (reject id message w)
        (λ ssid. operation_response id wifi_command_payload (operation ssid w))

  unfoldable pub autoconnect : NetworkDaemon W → ℕ → Bytes → W → Bytes × W
  unfolding read_string read_bool operation_response
  autoconnect d id params w =
      let refused =
        reject id (codes "wifi.autoconnect requires non-empty string ssid and boolean enabled") w in
      with_param (nonempty (read_string params (codes "ssid"))) refused (λ ssid.
        with_param (read_bool params (codes "enabled")) refused (λ enabled.
          operation_response id wifi_command_payload (d.wifi_set_autoconnect ssid enabled w)))

  unfoldable pub dispatch_business_request : NetworkDaemon W → ℕ → Bytes → Bytes → W → Bytes × W
  unfolding apply_policy set_static set_enabled connect by_ssid autoconnect
  dispatch_business_request d id method params w =
      if text_eq method (codes "network.route_policy.get")
      then operation_response id route_policy_payload (d.route_policy_get w)
      else if text_eq method (codes "network.route_policy.apply")
      then apply_policy d id params w
      else if text_eq method (codes "eth.get_config")
      then operation_response id ethernet_config_payload (d.eth_get_config w)
      else if text_eq method (codes "eth.set_dhcp")
      then operation_response id ethernet_config_payload (d.eth_set_dhcp w)
      else if text_eq method (codes "eth.set_static")
      then set_static d id params w
      else if text_eq method (codes "wifi.scan.start")
      then operation_response id wifi_scan_status_payload (d.wifi_scan_start w)
      else if text_eq method (codes "wifi.scan.status")
      then operation_response id wifi_scan_status_payload (d.wifi_scan_status w)
      else if text_eq method (codes "wifi.set_enabled")
      then set_enabled d id params w
      else if text_eq method (codes "wifi.connect")
      then connect d id params w
      else if text_eq method (codes "wifi.connect_saved")
      then by_ssid d.wifi_connect_saved (codes "wifi.connect_saved requires non-empty string ssid")
          id params w
      else if text_eq method (codes "wifi.saved_list")
      then operation_response id wifi_saved_payload (d.wifi_list_saved w)
      else if text_eq method (codes "wifi.forget")
      then by_ssid d.wifi_forget (codes "wifi.forget requires non-empty string ssid") id params w
      else if text_eq method (codes "wifi.autoconnect")
      then autoconnect d id params w
      else if text_eq method (codes "wifi.disconnect")
      then operation_response id wifi_command_payload (d.wifi_disconnect w)
      else (response_error id (pos 404) (codes "METHOD_NOT_FOUND") (codes "unknown method"), w)
