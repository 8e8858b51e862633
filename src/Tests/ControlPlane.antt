-- ===== src/Tests/ControlPlane.antt =====
-- A device with a leased address on both interfaces, whose policy is changed.
use network_service.Prelude.{
  ℕ, suc, ◌≡◌, refl, Bool, true, false, [], some, none, Bytes, codes, text_eq,
}
use network_service.Prelude.Int.{pos}
use network_service.Types.{ethernet_preferred, no_lease, empty_snapshot, NetworkSnapshot}
use network_service.WifiProfile.{Out}
use network_service.PlaneState.{
  NetworkControlPlaneOps, ControlPlane, LinkState, no_route, route_allowed, route_metric, metric_by,
}
use network_service.ControlPlane.{
  apply_routes, apply_eth_route, apply_wifi_route, clear_owned_route, ensure_owned_route,
}
use network_service.ControlPlane.Ledger.{Ledgered, IsLedger}
use network_service.ControlPlane.Wanted.{Agrees, wanted_eth, wanted_wifi, apply_routes-Agrees}

-- The world counts the calls.
abbrev pub answer : Bool → Bytes → ℕ → Out Bool ℕ
answer v e w = record { value = v; error = e; world = suc w }

abbrev pub platform : NetworkControlPlaneOps ℕ
platform = record {
  start_dhcp = none;
  stop_dhcp = none;
  read_lease = none;
  clear_lease = none;
  apply_ipv4 = none;
  clear_ipv4 = none;
  set_default_route = some (λ i g m e w. answer true e w);
  clear_default_route = some (λ i g m e w. answer true e w);
  set_dns = some (λ s e w. answer true e w);
  clear_dns = some (λ e w. answer true e w);
  snapshot = some (λ w. empty_snapshot);
}

-- The resolver file cannot be written.
abbrev read_only : NetworkControlPlaneOps ℕ
read_only = record platform { set_dns = some (λ s e w. answer false (codes "EROFS") w) }

abbrev pub leased : Bytes → Bytes → LinkState
leased gateway dns = record {
  managed_dhcp = true;
  active = true;
  lease = record no_lease { gateway4 = gateway; dns4 = dns };
  fingerprint = [];
}

abbrev pub device : ControlPlane
device = record {
  eth_iface = codes "eth0";
  wifi_iface = codes "wlan0";
  eth = leased (codes "10.0.0.1") (codes "10.0.0.53");
  wifi = leased (codes "192.168.1.1") (codes "192.168.1.53");
  static_eth = record {
    active = false;
    ip4 = [];
    netmask4 = [];
    gateway4 = [];
    dns4 = [];
    own_metric = pos 10;
  };
  eth_route = no_route;
  wifi_route = no_route;
  route_policy = ethernet_preferred;
  dns_ownership_initialized = false;
  managed_dns = false;
  last_dns = [];
}

abbrev pub untouched : Ledgered ℕ
untouched = record { inner = 0; calls = [] }

pub names_differ : text_eq (codes "wlan0") (codes "eth0") ≡ false
unfolding text_eq
names_differ = refl

names_differ_back : text_eq (codes "eth0") (codes "wlan0") ≡ false
unfolding text_eq
names_differ_back = refl

pub device-IsLedger : IsLedger device untouched
device-IsLedger = record {
  distinct = names_differ;
  apart = names_differ_back;
  eth = refl;
  wifi = refl;
  own_dropped = tt;
}

applies : (apply_routes platform device 0).value ≡ true
unfolding apply_routes apply_eth_route apply_wifi_route ensure_owned_route clear_owned_route
    route_allowed route_metric metric_by text_eq
applies = refl

apply_routes-Agrees_example :
    Agrees (apply_routes platform device 0).plane.eth_route (wanted_eth device)
    × Agrees (apply_routes platform device 0).plane.wifi_route (wanted_wifi device)
apply_routes-Agrees_example = apply_routes-Agrees platform device 0 names_differ applies

-- A platform whose world is the snapshot: a write shows in it. The route of Wi-Fi cannot be set.
abbrev answered : Bool → Bytes → NetworkSnapshot → Out Bool NetworkSnapshot
answered v e w = record { value = v; error = e; world = w }

abbrev resolver : NetworkControlPlaneOps NetworkSnapshot
resolver = record {
  start_dhcp = none;
  stop_dhcp = none;
  read_lease = none;
  clear_lease = none;
  apply_ipv4 = none;
  clear_ipv4 = none;
  set_default_route = some (λ i g m e w. answered (text_eq i (codes "eth0")) e w);
  clear_default_route = some (λ i g m e w. answered true e w);
  set_dns =
      some
        (λ s e w. answered true e (record w { dns4 = s; dns_managed_by_network_service = true }));
  clear_dns =
      some
        (λ e w. answered true e (record w { dns4 = []; dns_managed_by_network_service = false }));
  snapshot = some (λ w. w);
}
