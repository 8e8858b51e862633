-- ===== src/PlaneState.antt =====
-- The state of src/service/network_control_plane.cpp and its header, and the decisions that it makes
-- from that state alone: which routes are allowed, with which metric, and whose name servers are
-- selected.
use network_service.Prelude.{
  Bool, true, false, not, ◌&&◌, ◌||◌, [], Option, none, some, if◌then◌else◌, is_empty, Bytes,
  text_eq,
}
use network_service.Prelude.Int.{ℤ, pos, negsuc, ltb_ℤ, eqb_ℤ}
use network_service.Types.{
  RoutePolicy, ethernet_preferred, wifi_preferred, wifi_only, manual_metric, NetworkSnapshot,
  DhcpLeaseFact,
}
use network_service.WifiProfile.{Out}

pub record LinkState : Type 0 where
  pub managed_dhcp : Bool
  pub active : Bool
  pub lease : DhcpLeaseFact
  pub fingerprint : Bytes

pub record StaticEthernetState : Type 0 where
  pub active : Bool
  pub ip4 : Bytes
  pub netmask4 : Bytes
  pub gateway4 : Bytes
  pub dns4 : Bytes
  pub own_metric : ℤ

pub record OwnedRouteState : Type 0 where
  pub active : Bool
  pub gateway4 : Bytes
  pub metric : ℤ

abbrev pub no_route : OwnedRouteState
no_route = record { active = false; gateway4 = []; metric = negsuc 0 }

pub record NetworkControlPlaneOps (W : Type 0) : Type 0 where
  pub start_dhcp : Option (Bytes → Bytes → W → Out Bool W)
  pub stop_dhcp : Option (Bytes → W → W)
  pub read_lease : Option (Bytes → Bytes → W → Out (Bool × DhcpLeaseFact × Bool) W)
  pub clear_lease : Option (Bytes → W → W)
  pub apply_ipv4 : Option (Bytes → Bytes → Bytes → Bytes → W → Out Bool W)
  pub clear_ipv4 : Option (Bytes → Bytes → W → Out Bool W)
  pub set_default_route : Option (Bytes → Bytes → ℤ → Bytes → W → Out Bool W)
  pub clear_default_route : Option (Bytes → Bytes → ℤ → Bytes → W → Out Bool W)
  pub set_dns : Option (Bytes → Bytes → W → Out Bool W)
  pub clear_dns : Option (Bytes → W → Out Bool W)
  pub snapshot : Option (W → NetworkSnapshot)

pub record ControlPlane : Type 0 where
  pub eth_iface : Bytes
  pub wifi_iface : Bytes
  pub eth : LinkState
  pub wifi : LinkState
  pub static_eth : StaticEthernetState
  pub eth_route : OwnedRouteState
  pub wifi_route : OwnedRouteState
  pub route_policy : RoutePolicy
  pub dns_ownership_initialized : Bool
  pub managed_dns : Bool
  pub last_dns : Bytes

-- `owned_route_for`, read and written.
abbrev pub owned_route_for : ControlPlane → Bytes → OwnedRouteState
owned_route_for p iface = if text_eq iface p.eth_iface then p.eth_route else p.wifi_route

abbrev pub own : ControlPlane → Bytes → OwnedRouteState → ControlPlane
own p iface r =
    if text_eq iface p.eth_iface then record p { eth_route = r } else record p { wifi_route = r }

abbrev pub is_wifi_only : RoutePolicy → Bool
is_wifi_only wifi_only = true
is_wifi_only _ = false

unfoldable pub route_allowed : ControlPlane → Bytes → Bool
route_allowed p iface = not (is_wifi_only p.route_policy && text_eq iface p.eth_iface)

abbrev pub ten_or_twenty : Bool → ℤ
ten_or_twenty first = if first then pos 10 else pos 20

unfoldable pub metric_by : RoutePolicy → ControlPlane → Bytes → ℤ → ℤ
metric_by wifi_preferred p iface manual = ten_or_twenty (text_eq iface p.wifi_iface)
metric_by wifi_only p iface manual = ten_or_twenty (text_eq iface p.wifi_iface)
metric_by manual_metric p iface manual =
    if not (ltb_ℤ manual (pos 0)) then manual else ten_or_twenty (text_eq iface p.eth_iface)
metric_by ethernet_preferred p iface manual = ten_or_twenty (text_eq iface p.eth_iface)

-- `route_metric`; the argument that is left out in the source is -1.
unfoldable pub route_metric : ControlPlane → Bytes → ℤ → ℤ
unfolding metric_by
route_metric p iface manual = metric_by p.route_policy p iface manual

-- The owned route is another one than what is wanted.
abbrev pub differs : OwnedRouteState → Bytes → ℤ → Bool
differs owned gateway4 metric =
    owned.active && (not (text_eq owned.gateway4 gateway4) || not (eqb_ℤ owned.metric metric))

abbrev pub static_route : ControlPlane → Bool
static_route p =
    p.static_eth.active && route_allowed p p.eth_iface && not (is_empty p.static_eth.gateway4)

abbrev pub dhcp_route : ControlPlane → Bool
dhcp_route p = p.eth.active && route_allowed p p.eth_iface && not (is_empty p.eth.lease.gateway4)

abbrev pub wifi_has_route : ControlPlane → Bool
wifi_has_route p =
    p.wifi.active && route_allowed p p.wifi_iface && not (is_empty p.wifi.lease.gateway4)

abbrev pub eth_has_route : ControlPlane → Bool
eth_has_route p = static_route p || dhcp_route p

abbrev pub eth_dns : ControlPlane → Bytes
eth_dns p = if p.static_eth.active then p.static_eth.dns4 else p.eth.lease.dns4

abbrev pub eth_names : ControlPlane → Bool
eth_names p = eth_has_route p && not (is_empty (eth_dns p))

abbrev pub wifi_names : ControlPlane → Bool
wifi_names p = wifi_has_route p && not (is_empty p.wifi.lease.dns4)

-- A default route on Ethernet that is not ours, under the policy that prefers Ethernet.
unfoldable pub preserve_external : RoutePolicy → ControlPlane → Option NetworkSnapshot → Bool
preserve_external ethernet_preferred p (some live) =
    not (eth_names p) && live.eth.has_default_route && not (eth_has_route p)
preserve_external _ p live = false

-- The name servers that the policy selects; none is the empty text.
unfoldable pub select_dns : RoutePolicy → ControlPlane → Bytes
select_dns wifi_preferred p =
    if wifi_names p then p.wifi.lease.dns4 else if eth_names p then eth_dns p else []
select_dns wifi_only p = if wifi_names p then p.wifi.lease.dns4 else []
select_dns manual_metric p =
    if wifi_has_route p
      && (not (eth_has_route p)
          || ltb_ℤ (route_metric p p.wifi_iface (negsuc 0))
              (route_metric p p.eth_iface p.static_eth.own_metric))
    then p.wifi.lease.dns4
    else if eth_names p
    then eth_dns p
    else []
select_dns ethernet_preferred p =
    if eth_names p then eth_dns p else if wifi_names p then p.wifi.lease.dns4 else []

-- The one recovery of the ownership of the resolver file.
unfoldable pub init_dns : ControlPlane → Option NetworkSnapshot → ControlPlane
init_dns p none = record p { dns_ownership_initialized = true }
init_dns p (some live) = if p.dns_ownership_initialized then p else record p {
  dns_ownership_initialized = true;
  managed_dns = live.dns_managed_by_network_service;
  last_dns = if live.dns_managed_by_network_service then live.dns4 else [];
}

-- `!ops_.snapshot || load_live().dns4 == selected`.
abbrev pub still_there : Option NetworkSnapshot → Bytes → Bool
still_there none selected = true
still_there (some live) selected = text_eq live.dns4 selected
