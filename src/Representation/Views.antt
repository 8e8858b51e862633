-- ===== src/Representation/Views.antt =====
-- src/ipc/network_ipc_representation.cpp: the view of the supplicant's events, and the answers of
-- protocol v0.
use network_service.Prelude.{ℕ, Bool, [], ◌∷◌, Bytes, codes, decimal}
use network_service.Prelude.Int.{ℤ}
use network_service.Representation.{json_escape, decimal_ℤ, quoted, bool_text, json_object}

pub record WpaEventsView : Type 0 where
  pub attached : Bool
  pub connected : Bool
  pub disconnected : Bool
  pub dhcp_requested : Bool
  pub has_ip : Bool
  pub has_default_route : Bool
  pub dns_available : Bool
  pub ip4 : Bytes
  pub gateway4 : Bytes
  pub dns4 : Bytes
  pub connect_events : ℕ
  pub disconnect_events : ℕ
  pub dhcp_requests : ℕ
  pub scan_started_events : ℕ
  pub scan_result_events : ℕ
  pub scan_failed_events : ℕ
  pub event_sequence : ℕ
  pub last_scan_started_sequence : ℕ
  pub last_scan_result_sequence : ℕ
  pub last_scan_failed_sequence : ℕ
  pub wifi_state : Bytes
  pub failure_reason : Bytes
  pub last_event : Bytes
  pub last_ssid : Bytes
  pub last_bssid : Bytes

unfoldable pub wpa_events_payload : WpaEventsView → Bytes
unfolding json_escape decimal
wpa_events_payload v = json_object (
    (codes "attached", bool_text v.attached)
    ∷ (codes "connected", bool_text v.connected)
    ∷ (codes "disconnected", bool_text v.disconnected)
    ∷ (codes "dhcp_requested", bool_text v.dhcp_requested)
    ∷ (codes "has_ip", bool_text v.has_ip)
    ∷ (codes "has_default_route", bool_text v.has_default_route)
    ∷ (codes "dns_available", bool_text v.dns_available)
    ∷ (codes "ip4", quoted v.ip4)
    ∷ (codes "gateway4", quoted v.gateway4)
    ∷ (codes "dns4", quoted v.dns4)
    ∷ (codes "connect_events", decimal v.connect_events)
    ∷ (codes "disconnect_events", decimal v.disconnect_events)
    ∷ (codes "dhcp_requests", decimal v.dhcp_requests)
    ∷ (codes "scan_started_events", decimal v.scan_started_events)
    ∷ (codes "scan_result_events", decimal v.scan_result_events)
    ∷ (codes "scan_failed_events", decimal v.scan_failed_events)
    ∷ (codes "event_sequence", decimal v.event_sequence)
    ∷ (codes "last_scan_started_sequence", decimal v.last_scan_started_sequence)
    ∷ (codes "last_scan_result_sequence", decimal v.last_scan_result_sequence)
    ∷ (codes "last_scan_failed_sequence", decimal v.last_scan_failed_sequence)
    ∷ (codes "wifi_state", quoted v.wifi_state)
    ∷ (codes "failure_reason", quoted v.failure_reason)
    ∷ (codes "last_event", quoted v.last_event)
    ∷ (codes "last_ssid", quoted v.last_ssid)
    ∷ (codes "last_bssid", quoted v.last_bssid)
    ∷ [])

unfoldable pub v0_success : ℤ → Bytes → Bytes
unfolding decimal_ℤ
v0_success status payload_json =
    json_object ((codes "status", decimal_ℤ status) ∷ (codes "result", payload_json) ∷ [])

unfoldable pub v0_error : ℤ → Bytes → Bytes
unfolding decimal_ℤ json_escape
v0_error status message =
    json_object ((codes "status", decimal_ℤ status) ∷ (codes "error", quoted message) ∷ [])
