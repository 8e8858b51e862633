-- ===== src/Tests/NetworkState.antt =====
-- A device with both links up, as the platform reports it and as the service sees it.
use network_service.Prelude.{◌≡◌, ◌↔◌, ◌⊎◌, refl, true, [], codes}
use network_service.Prelude.Int.{pos}
use network_service.Types.{
  WifiL2State, DhcpClientState, InterfaceSnapshot, NetworkSnapshot, empty_interface, empty_snapshot,
}
use network_service.NetworkState.{
  normalize_eth, normalize_wifi, select_primary, eth_usable, wifi_usable, WifiRuntimeFact,
  normalize_network_snapshot, legacy_wifi_state,
}
use network_service.NetworkState.Normal.{
  EthCarries, WifiCarries, Selects, primary_iface-Selects, online-carries,
}
use network_service.NetworkState.Legacy.{legacy_connected_iff}

abbrev wired : InterfaceSnapshot
wired = record empty_interface {
  iface = codes "eth0";
  carrier_up = true;
  has_ip = true;
  has_default_route = true;
  route_metric = pos 10;
}

abbrev wireless : InterfaceSnapshot
wireless = record empty_interface {
  iface = codes "wlan0";
  carrier_up = true;
  has_ip = true;
  has_default_route = true;
  route_metric = pos 20;
}

abbrev device : NetworkSnapshot
device = record empty_snapshot { eth = wired; wifi = wireless; dns_available = true }

abbrev joined : WifiRuntimeFact
joined = record {
  l2_state = WifiL2State.connected;
  dhcp_state = DhcpClientState.running;
  failure_reason = [];
}

primary_iface-Selects_example :
    Selects device joined (normalize_network_snapshot device joined).primary_iface
primary_iface-Selects_example = primary_iface-Selects device joined

device_online : (normalize_network_snapshot device joined).online ≡ true
unfolding normalize_network_snapshot normalize_eth normalize_wifi select_primary eth_usable
    wifi_usable
device_online = refl

online-carries_example :
    (device.dns_available ≡ true)
    × ((normalize_network_snapshot device joined).network_ready ≡ true)
    × (EthCarries device × ((normalize_network_snapshot device joined).primary_iface ≡ codes "eth0")
        ⊎ WifiCarries device joined
          × ((normalize_network_snapshot device joined).primary_iface ≡ codes "wlan0"))
online-carries_example = online-carries device joined device_online

legacy_connected_iff_example :
    (legacy_wifi_state (normalize_network_snapshot device joined) joined ≡ codes "connected")
    ↔ (WifiCarries device joined × (device.dns_available ≡ true))
legacy_connected_iff_example = legacy_connected_iff device joined

-- The cheaper metric wins.
device_primary : (normalize_network_snapshot device joined).primary_iface ≡ codes "eth0"
unfolding normalize_network_snapshot normalize_eth normalize_wifi select_primary eth_usable
    wifi_usable
device_primary = refl
