-- ===== src/NetworkState.antt =====
-- src/service/network_state.cpp and its header: the pure normaliser of platform facts, and the
-- legacy Wi-Fi state text. A snapshot is updated in place in the source; here it is returned.
pub mod Normal
pub mod Legacy
use network_service.Prelude.{
  ℕ, Bool, true, false, not, ◌&&◌, ◌||◌, List, [], is_empty, if◌then◌else◌, Bytes, codes, text_eq,
}
use network_service.Prelude.Int.{ltb_ℤ}
use network_service.Types.{
  WifiL2State, IpState, no_ip, configuring, ready, DhcpClientState, InterfaceSnapshot,
  NetworkSnapshot,
}

pub record WifiRuntimeFact : Type 0 where
  pub l2_state : WifiL2State
  pub dhcp_state : DhcpClientState
  pub failure_reason : Bytes

unfoldable pub wifi_l2_connected : WifiL2State → Bool
wifi_l2_connected WifiL2State.connected = true
wifi_l2_connected _ = false

unfoldable pub dhcp_client_active : DhcpClientState → Bool
dhcp_client_active DhcpClientState.starting = true
dhcp_client_active DhcpClientState.running = true
dhcp_client_active _ = false

abbrev pub is_unknown : WifiL2State → Bool
is_unknown WifiL2State.unknown = true
is_unknown _ = false

abbrev pub is_ready : IpState → Bool
is_ready ready = true
is_ready _ = false

unfoldable pub normalize_eth : InterfaceSnapshot → InterfaceSnapshot
normalize_eth e =
    let state = if e.has_ip then ready else no_ip in
    record e { ip_state = state; connected = e.carrier_up && is_ready state }

unfoldable pub normalize_wifi : InterfaceSnapshot → WifiRuntimeFact → InterfaceSnapshot
unfolding wifi_l2_connected dhcp_client_active
normalize_wifi w r =
    let compat_live_link = is_unknown r.l2_state && w.has_ip in
    let l2_connected = wifi_l2_connected r.l2_state || compat_live_link in
    record w {
      wifi_l2_state = r.l2_state;
      connected = l2_connected;
      ip_state =
          if l2_connected && w.has_ip
          then ready
          else if l2_connected && dhcp_client_active r.dhcp_state
          then configuring
          else no_ip;
    }

unfoldable pub eth_usable : InterfaceSnapshot → Bool
eth_usable e = e.connected && e.has_default_route

unfoldable pub wifi_usable : InterfaceSnapshot → Bool
wifi_usable w = w.connected && is_ready w.ip_state && w.has_default_route

unfoldable pub select_primary : InterfaceSnapshot → InterfaceSnapshot → Bytes
unfolding eth_usable wifi_usable
select_primary e w =
    let first = if eth_usable e then e.iface else [] in
    if wifi_usable w && (not (eth_usable e) || ltb_ℤ w.route_metric e.route_metric)
    then w.iface
    else first

unfoldable pub normalize_network_snapshot : NetworkSnapshot → WifiRuntimeFact → NetworkSnapshot
normalize_network_snapshot s r =
    let eth = normalize_eth s.eth in
    let wifi = normalize_wifi s.wifi r in
    let primary = select_primary eth wifi in
    let is_ready_now = not (is_empty primary) && s.dns_available in
    record s {
      eth = eth;
      wifi = wifi;
      primary_iface = primary;
      network_ready = is_ready_now;
      online = is_ready_now;
    }

abbrev adopted_state : NetworkSnapshot → Bytes
adopted_state s =
    if s.wifi.connected && is_ready s.wifi.ip_state
    then if s.wifi.has_default_route && s.dns_available
      then codes "connected"
      else codes "ip_configuring"
    else codes "disconnected"

abbrev connected_state : NetworkSnapshot → DhcpClientState → Bytes
connected_state s d =
    if is_ready s.wifi.ip_state && s.wifi.has_default_route && s.dns_available
    then codes "connected"
    else if dhcp_client_active d
    then codes "ip_configuring"
    else codes "associated"

-- The `switch` of `legacy_wifi_state`.
unfoldable pub legacy_by_l2 : NetworkSnapshot → DhcpClientState → WifiL2State → Bytes
unfolding dhcp_client_active
legacy_by_l2 s d WifiL2State.failed = codes "failed"
legacy_by_l2 s d WifiL2State.disabled = codes "disabled"
legacy_by_l2 s d WifiL2State.disconnected = codes "disconnected"
legacy_by_l2 s d WifiL2State.associating = codes "associating"
legacy_by_l2 s d WifiL2State.associated = codes "associated"
legacy_by_l2 s d WifiL2State.handshake = codes "handshake"
legacy_by_l2 s d WifiL2State.connected = connected_state s d
legacy_by_l2 s d WifiL2State.unknown = adopted_state s

abbrev pub is_failed : WifiL2State → Bool
is_failed WifiL2State.failed = true
is_failed _ = false

unfoldable pub legacy_wifi_state : NetworkSnapshot → WifiRuntimeFact → Bytes
unfolding legacy_by_l2
legacy_wifi_state s r =
    if is_failed r.l2_state
    then codes "failed"
    else if not (is_empty r.failure_reason) && not (is_ready s.wifi.ip_state)
    then codes "failed"
    else legacy_by_l2 s r.dhcp_state r.l2_state
