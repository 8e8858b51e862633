-- ===== src/Types.antt =====
-- include/network_service_types.h and include/network_service_contracts.h: the facts about
-- interfaces, leases and access points that the parts of the service exchange.
use network_service.Prelude.{Bool, false, [], Bytes}
use network_service.Prelude.Int.{ℤ, pos, negsuc}

pub data RoutePolicy : Type 0 where
  ethernet_preferred wifi_preferred wifi_only manual_metric : RoutePolicy

pub data DnsPolicy : Type 0 where
  overwrite : DnsPolicy

pub data WifiL2State : Type 0 where
  unknown disabled disconnected associating associated handshake connected failed : WifiL2State

pub data IpState : Type 0 where
  no_ip configuring ready : IpState

pub data DhcpClientState : Type 0 where
  idle starting running failed : DhcpClientState

pub record InterfaceSnapshot : Type 0 where
  pub iface : Bytes
  pub exists : Bool
  pub carrier_up : Bool
  pub has_ip : Bool
  pub ip4 : Bytes
  pub netmask4 : Bytes
  pub has_default_route : Bool
  pub gateway4 : Bytes
  pub route_metric : ℤ
  pub enabled : Bool
  pub connected : Bool
  pub ip_state : IpState
  pub wifi_l2_state : WifiL2State
  pub ssid : Bytes
  pub signal_dbm : ℤ
  pub signal_bars : ℤ

pub record NetworkSnapshot : Type 0 where
  pub eth : InterfaceSnapshot
  pub wifi : InterfaceSnapshot
  pub route_policy : RoutePolicy
  pub dns_policy : DnsPolicy
  pub primary_iface : Bytes
  pub dns_available : Bool
  pub dns_managed_by_network_service : Bool
  pub network_ready : Bool
  pub online : Bool
  pub dns4 : Bytes

-- The values that the member initialisers give.
abbrev pub empty_interface : InterfaceSnapshot
empty_interface = record {
  iface = [];
  exists = false;
  carrier_up = false;
  has_ip = false;
  ip4 = [];
  netmask4 = [];
  has_default_route = false;
  gateway4 = [];
  route_metric = negsuc 0;
  enabled = false;
  connected = false;
  ip_state = no_ip;
  wifi_l2_state = unknown;
  ssid = [];
  signal_dbm = pos 0;
  signal_bars = pos 0;
}

abbrev pub empty_snapshot : NetworkSnapshot
empty_snapshot = record {
  eth = empty_interface;
  wifi = empty_interface;
  route_policy = ethernet_preferred;
  dns_policy = overwrite;
  primary_iface = [];
  dns_available = false;
  dns_managed_by_network_service = false;
  network_ready = false;
  online = false;
  dns4 = [];
}

pub record WifiApRecord : Type 0 where
  pub bssid : Bytes
  pub frequency : ℤ
  pub signal_dbm : ℤ
  pub flags : Bytes
  pub ssid : Bytes

pub data DhcpLeaseEvent : Type 0 where
  no_event bound renew deconfig : DhcpLeaseEvent

pub record DhcpLeaseFact : Type 0 where
  pub event : DhcpLeaseEvent
  pub iface : Bytes
  pub generation : Bytes
  pub ip4 : Bytes
  pub netmask4 : Bytes
  pub gateway4 : Bytes
  pub dns4 : Bytes

abbrev pub no_lease : DhcpLeaseFact
no_lease = record {
  event = no_event;
  iface = [];
  generation = [];
  ip4 = [];
  netmask4 = [];
  gateway4 = [];
  dns4 = [];
}

pub record EthernetConfig : Type 0 where
  pub iface : Bytes
  pub method : Bytes
  pub ip4 : Bytes
  pub netmask4 : Bytes
  pub gateway4 : Bytes
  pub dns4 : Bytes
  pub route_metric : ℤ
  pub dns_enabled : Bool

pub record WifiSavedNetwork : Type 0 where
  pub network_id : ℤ
  pub ssid : Bytes
  pub bssid : Bytes
  pub flags : Bytes
  pub is_current : Bool
  pub is_disabled : Bool
  pub is_temp_disabled : Bool
  pub autoconnect : Bool
