-- ===== src/Representation.antt =====
-- src/ipc/network_ipc_representation.cpp: the JSON texts of results, snapshots and events, with the
-- types of src/service/include/service/network_operation_result.h. The source streams the texts of
-- an object piece by piece; here an object is the list of its members.
pub mod Views
use network_service.Prelude.{
  ℕ, ◌+◌, ◌/◌, ◌%◌, Bool, true, false, List, [], ◌∷◌, ◌++◌, ltb, ◌==◌, if◌then◌else◌, length, Bytes,
  codes, decimal,
}
use network_service.Prelude.Int.{ℤ, pos, negsuc}
use network_service.Types.{
  RoutePolicy, ethernet_preferred, wifi_preferred, wifi_only, manual_metric, DnsPolicy, overwrite,
  InterfaceSnapshot, NetworkSnapshot, WifiApRecord, EthernetConfig, WifiSavedNetwork,
}
use network_service.ChangeDetector.{NetworkStateChangeSet}
use network_service.WifiScan.{WifiScanStatus, wifi_scan_state_name}
use network_service.Prelude.{suc}

abbrev pub hex_digit : ℕ → ℕ
hex_digit n = if ltb n 10 then n + b'0' else n + 87

unfoldable pub escape_char : ℕ → Bytes
escape_char ch =
    if ch == b'\\'
    then b'\\' ∷ b'\\' ∷ []
    else if ch == b'"'
    then b'\\' ∷ b'"' ∷ []
    else if ch == 0x08
    then b'\\' ∷ b'b' ∷ []
    else if ch == 0x0c
    then b'\\' ∷ b'f' ∷ []
    else if ch == b'\n'
    then b'\\' ∷ b'n' ∷ []
    else if ch == b'\r'
    then b'\\' ∷ b'r' ∷ []
    else if ch == b'\t'
    then b'\\' ∷ b't' ∷ []
    else if ltb ch 0x20
    then b'\\' ∷ b'u' ∷ b'0' ∷ b'0' ∷ hex_digit (ch / 16 % 16) ∷ hex_digit (ch % 16) ∷ []
    else ch ∷ []

unfoldable pub json_escape : Bytes → Bytes
unfolding escape_char
json_escape [] = []
json_escape (ch ∷ value) = escape_char ch ++ json_escape value

-- What `os <<` prints of an `int`.
unfoldable pub decimal_ℤ : ℤ → Bytes
unfolding decimal
decimal_ℤ (pos n) = decimal n
decimal_ℤ (negsuc n) = b'-' ∷ decimal (suc n)

abbrev pub quoted : Bytes → Bytes
quoted value = b'"' ∷ (json_escape value ++ (b'"' ∷ []))

abbrev pub bool_text : Bool → Bytes
bool_text b = if b then codes "true" else codes "false"

-- A member: its name and the text of its value.
abbrev pub member_text : Bytes × Bytes → Bytes → Bytes
member_text (name, value) rest = b'"' ∷ (name ++ (b'"' ∷ b':' ∷ (value ++ rest)))

abbrev pub more_members : List (Bytes × Bytes) → Bytes
more_members [] = b'}' ∷ []
more_members (m ∷ ms) = b',' ∷ member_text m (more_members ms)

abbrev pub json_object : List (Bytes × Bytes) → Bytes
json_object [] = b'{' ∷ b'}' ∷ []
json_object (m ∷ ms) = b'{' ∷ member_text m (more_members ms)

abbrev pub more_items : List Bytes → Bytes
more_items [] = b']' ∷ []
more_items (i ∷ is) = b',' ∷ (i ++ more_items is)

abbrev pub json_array : List Bytes → Bytes
json_array [] = b'[' ∷ b']' ∷ []
json_array (i ∷ is) = b'[' ∷ (i ++ more_items is)

abbrev pub mapped {ℓ} : {A : Type ℓ} → (A → Bytes) → List A → List Bytes
mapped f [] = []
mapped f (a ∷ as') = f a ∷ mapped f as'

unfoldable pub route_policy_to_string : RoutePolicy → Bytes
route_policy_to_string wifi_preferred = codes "wifi_preferred"
route_policy_to_string wifi_only = codes "wifi_only"
route_policy_to_string manual_metric = codes "manual_metric"
route_policy_to_string ethernet_preferred = codes "ethernet_preferred"

abbrev pub dns_policy_to_string : DnsPolicy → Bytes
dns_policy_to_string overwrite = codes "overwrite"

unfoldable pub iface_payload : InterfaceSnapshot → Bytes
unfolding json_escape decimal_ℤ
iface_payload i = json_object (
    (codes "iface", quoted i.iface)
    ∷ (codes "exists", bool_text i.exists)
    ∷ (codes "carrier_up", bool_text i.carrier_up)
    ∷ (codes "enabled", bool_text i.enabled)
    ∷ (codes "connected", bool_text i.connected)
    ∷ (codes "has_ip", bool_text i.has_ip)
    ∷ (codes "ip4", quoted i.ip4)
    ∷ (codes "netmask4", quoted i.netmask4)
    ∷ (codes "has_default_route", bool_text i.has_default_route)
    ∷ (codes "gateway4", quoted i.gateway4)
    ∷ (codes "route_metric", decimal_ℤ i.route_metric)
    ∷ (codes "ssid", quoted i.ssid)
    ∷ (codes "signal_dbm", decimal_ℤ i.signal_dbm)
    ∷ (codes "signal_bars", decimal_ℤ i.signal_bars)
    ∷ [])

-- `NETWORK_SERVICE_VERSION`, a macro that the build may set, is the first argument.
unfoldable pub snapshot_payload : Bytes → NetworkSnapshot → Bytes
unfolding json_escape iface_payload route_policy_to_string
snapshot_payload version s = json_object (
    (codes "version", b'"' ∷ (version ++ (b'"' ∷ [])))
    ∷ (codes "primary_iface", quoted s.primary_iface)
    ∷ (codes "online", bool_text s.online)
    ∷ (codes "dns_available", bool_text s.dns_available)
    ∷ (codes "dns4", quoted s.dns4)
    ∷ (codes "route_policy", b'"' ∷ (route_policy_to_string s.route_policy ++ (b'"' ∷ [])))
    ∷ (codes "dns_policy", b'"' ∷ (dns_policy_to_string s.dns_policy ++ (b'"' ∷ [])))
    ∷ (codes "eth", iface_payload s.eth)
    ∷ (codes "wifi", iface_payload s.wifi)
    ∷ [])

-- `append` of `state_changes_payload`: a name if its flag is set.
abbrev pub append_if : Bool → Bytes → List Bytes → List Bytes
append_if enabled name rest = if enabled then (b'"' ∷ (name ++ (b'"' ∷ []))) ∷ rest else rest

unfoldable pub state_changes_payload : NetworkStateChangeSet → Bytes
state_changes_payload c = json_object (
    (
      codes "changed",
      json_array (
          append_if c.eth (codes "eth") (
            append_if c.wifi (codes "wifi")
              (append_if c.route (codes "route") (append_if c.dns (codes "dns") [])))),
    )
    ∷ [])

pub record PingInfo : Type 0 where
  pub service : Bytes
  pub version : Bytes
  pub mode : Bytes

pub record RoutePolicyInfo : Type 0 where
  pub policy : RoutePolicy
  pub persistent : Bool

pub record WifiEnabledResult : Type 0 where
  pub enabled : Bool

pub record WifiCommandResult : Type 0 where
  pub requested : Bytes
  pub has_enabled : Bool
  pub enabled : Bool

unfoldable pub ping_payload : PingInfo → Bytes
unfolding json_escape
ping_payload i = json_object (
    (codes "service", quoted i.service)
    ∷ (codes "version", quoted i.version)
    ∷ (codes "mode", quoted i.mode)
    ∷ [])

unfoldable pub route_policy_payload : RoutePolicyInfo → Bytes
unfolding route_policy_to_string
route_policy_payload i = json_object (
    (codes "policy", b'"' ∷ (route_policy_to_string i.policy ++ (b'"' ∷ [])))
    ∷ (codes "persistent", bool_text i.persistent)
    ∷ [])

unfoldable pub ethernet_config_payload : EthernetConfig → Bytes
unfolding json_escape decimal_ℤ
ethernet_config_payload c = json_object (
    (codes "iface", quoted c.iface)
    ∷ (codes "method", quoted c.method)
    ∷ (codes "ip4", quoted c.ip4)
    ∷ (codes "netmask4", quoted c.netmask4)
    ∷ (codes "gateway4", quoted c.gateway4)
    ∷ (codes "dns4", quoted c.dns4)
    ∷ (codes "route_metric", decimal_ℤ c.route_metric)
    ∷ (codes "dns_enabled", bool_text c.dns_enabled)
    ∷ [])

unfoldable pub ap_text : WifiApRecord → Bytes
unfolding json_escape decimal_ℤ
ap_text r = json_object (
    (codes "bssid", quoted r.bssid)
    ∷ (codes "frequency", decimal_ℤ r.frequency)
    ∷ (codes "signal", decimal_ℤ r.signal_dbm)
    ∷ (codes "flags", quoted r.flags)
    ∷ (codes "ssid", quoted r.ssid)
    ∷ [])

unfoldable pub wifi_scan_payload : List WifiApRecord → Bytes
unfolding ap_text decimal
wifi_scan_payload records = json_object (
    (codes "count", decimal (length records))
    ∷ (codes "aps", json_array (mapped ap_text records))
    ∷ [])

unfoldable pub saved_text : WifiSavedNetwork → Bytes
unfolding json_escape decimal_ℤ
saved_text r = json_object (
    (codes "network_id", decimal_ℤ r.network_id)
    ∷ (codes "ssid", quoted r.ssid)
    ∷ (codes "bssid", quoted r.bssid)
    ∷ (codes "flags", quoted r.flags)
    ∷ (codes "current", bool_text r.is_current)
    ∷ (codes "disabled", bool_text r.is_disabled)
    ∷ (codes "temp_disabled", bool_text r.is_temp_disabled)
    ∷ (codes "autoconnect", bool_text r.autoconnect)
    ∷ [])

unfoldable pub wifi_saved_payload : List WifiSavedNetwork → Bytes
unfolding saved_text decimal
wifi_saved_payload records = json_object (
    (codes "count", decimal (length records))
    ∷ (codes "saved", json_array (mapped saved_text records))
    ∷ [])

unfoldable pub wifi_scan_status_payload : WifiScanStatus → Bytes
unfolding json_escape decimal wifi_scan_payload wifi_scan_state_name
wifi_scan_status_payload s = json_object (
    (codes "scanId", decimal s.scan_id)
    ∷ (codes "state", b'"' ∷ (wifi_scan_state_name s.state ++ (b'"' ∷ [])))
    ∷ (codes "error", quoted s.error)
    ∷ (codes "results", wifi_scan_payload s.records)
    ∷ [])

unfoldable pub wifi_enabled_payload : WifiEnabledResult → Bytes
wifi_enabled_payload r = json_object ((codes "enabled", bool_text r.enabled) ∷ [])

unfoldable pub wifi_command_payload : WifiCommandResult → Bytes
unfolding json_escape
wifi_command_payload r = json_object (
    (codes "requested", quoted r.requested)
    ∷ (if r.has_enabled then (codes "enabled", bool_text r.enabled) ∷ [] else []))
