-- ===== src/ChangeDetector.antt =====
-- src/service/network_state_change_detector.cpp and its header: which parts of a snapshot have
-- changed in meaning since the last one.
pub mod Changes
use network_service.Prelude.{Bool, true, false, not, ◌&&◌, ◌||◌, Bytes, text_eq, if◌then◌else◌}
use network_service.Prelude.Int.{eqb_ℤ}
use network_service.Types.{
  RoutePolicy, ethernet_preferred, wifi_preferred, wifi_only, manual_metric, DnsPolicy, overwrite,
  WifiL2State, IpState, InterfaceSnapshot, NetworkSnapshot, empty_snapshot,
}

-- `==` of the two-valued type.
abbrev pub bool_eq : Bool → Bool → Bool
bool_eq true b = b
bool_eq false b = not b

-- `==` of the enumerations.
abbrev pub policy_eq : RoutePolicy → RoutePolicy → Bool
policy_eq ethernet_preferred ethernet_preferred = true
policy_eq wifi_preferred wifi_preferred = true
policy_eq wifi_only wifi_only = true
policy_eq manual_metric manual_metric = true
policy_eq _ _ = false

abbrev pub ip_state_eq : IpState → IpState → Bool
ip_state_eq IpState.no_ip IpState.no_ip = true
ip_state_eq IpState.configuring IpState.configuring = true
ip_state_eq IpState.ready IpState.ready = true
ip_state_eq _ _ = false

abbrev pub l2_state_eq : WifiL2State → WifiL2State → Bool
l2_state_eq WifiL2State.unknown WifiL2State.unknown = true
l2_state_eq WifiL2State.disabled WifiL2State.disabled = true
l2_state_eq WifiL2State.disconnected WifiL2State.disconnected = true
l2_state_eq WifiL2State.associating WifiL2State.associating = true
l2_state_eq WifiL2State.associated WifiL2State.associated = true
l2_state_eq WifiL2State.handshake WifiL2State.handshake = true
l2_state_eq WifiL2State.connected WifiL2State.connected = true
l2_state_eq WifiL2State.failed WifiL2State.failed = true
l2_state_eq _ _ = false

-- The comparisons of `interface_semantically_equal`, in its order.
unfoldable pub interface_semantically_equal :
    InterfaceSnapshot → InterfaceSnapshot → Bool → Bool → Bool
interface_semantically_equal l r include_wifi_truth include_signal_bars =
    text_eq l.iface r.iface
    && bool_eq l.exists r.exists
    && bool_eq l.carrier_up r.carrier_up
    && bool_eq l.has_ip r.has_ip
    && text_eq l.ip4 r.ip4
    && text_eq l.netmask4 r.netmask4
    && bool_eq l.has_default_route r.has_default_route
    && text_eq l.gateway4 r.gateway4
    && eqb_ℤ l.route_metric r.route_metric
    && bool_eq l.enabled r.enabled
    && bool_eq l.connected r.connected
    && ip_state_eq l.ip_state r.ip_state
    && (not include_wifi_truth || l2_state_eq l.wifi_l2_state r.wifi_l2_state)
    && text_eq l.ssid r.ssid
    && (not include_signal_bars || eqb_ℤ l.signal_bars r.signal_bars)

pub record NetworkStateChangeSet : Type 0 where
  pub eth : Bool
  pub wifi : Bool
  pub route : Bool
  pub dns : Bool

unfoldable pub any : NetworkStateChangeSet → Bool
any c = c.eth || c.wifi || c.route || c.dns

pub record NetworkStateChangeDetector : Type 0 where
  pub initialized : Bool
  pub previous : NetworkSnapshot

abbrev pub new_detector : NetworkStateChangeDetector
new_detector = record { initialized = false; previous = empty_snapshot }

abbrev pub no_changes : NetworkStateChangeSet
no_changes = record { eth = false; wifi = false; route = false; dns = false }

unfoldable pub route_changed : NetworkSnapshot → NetworkSnapshot → Bool
route_changed p s =
    not (policy_eq p.route_policy s.route_policy)
    || not (text_eq p.primary_iface s.primary_iface)
    || not (bool_eq p.network_ready s.network_ready)
    || not (bool_eq p.online s.online)

abbrev pub dns_policy_eq : DnsPolicy → DnsPolicy → Bool
dns_policy_eq overwrite overwrite = true

unfoldable pub dns_changed : NetworkSnapshot → NetworkSnapshot → Bool
dns_changed p s =
    not (dns_policy_eq p.dns_policy s.dns_policy)
    || not (bool_eq p.dns_available s.dns_available)
    || not (text_eq p.dns4 s.dns4)

unfoldable pub observe :
    NetworkStateChangeDetector
    → NetworkSnapshot
    → NetworkStateChangeDetector × NetworkStateChangeSet
observe d s =
    if not d.initialized then (record { initialized = true; previous = s }, no_changes) else (
      record d { previous = s },
      record {
        eth = not (interface_semantically_equal d.previous.eth s.eth false false);
        wifi = not (interface_semantically_equal d.previous.wifi s.wifi true true);
        route = route_changed d.previous s;
        dns = dns_changed d.previous s;
      },
    )

unfoldable pub reset_detector : NetworkStateChangeDetector → NetworkStateChangeDetector
reset_detector d = new_detector
