-- ===== src/PlaneRepair.antt =====
-- src/service/network_control_plane.cpp and src/service/network_control_plane_reconcile.cpp: how new
-- lease facts are consumed, and how the addresses and routes that drifted away are put back.
pub mod Operations
pub mod Sides
pub mod Lease
pub mod Runs
use network_service.Prelude.{
  ℕ, Bool, true, false, not, ◌&&◌, ◌||◌, [], ◌∷◌, ◌++◌, Option, none, some, if◌then◌else◌, is_empty,
  Bytes, codes, text_eq, decimal,
}
use network_service.Prelude.Int.{ℤ, pos, negsuc, eqb_ℤ}
use network_service.Types.{
  InterfaceSnapshot, NetworkSnapshot, DhcpLeaseEvent, no_event, bound, renew, deconfig,
  DhcpLeaseFact,
}
use network_service.WifiProfile.{Out}
use network_service.PlaneState.{
  LinkState, NetworkControlPlaneOps, ControlPlane, OwnedRouteState, owned_route_for, route_allowed,
  route_metric,
}
use network_service.ControlPlane.{
  Step, stand, and_then, clear_owned_route, ensure_owned_route, recompute_dns, live_of,
}
use network_service.PlaneLinks.{put_ipv4}

abbrev pub event_number : DhcpLeaseEvent → ℕ
event_number no_event = 0
event_number bound = 1
event_number renew = 2
event_number deconfig = 3

abbrev pub is_deconfig : DhcpLeaseEvent → Bool
is_deconfig deconfig = true
is_deconfig _ = false

abbrev pub configured : DhcpLeaseFact → Bool
configured fact = elim fact.event [
  | no_event ↦ false
  | bound ↦ true
  | renew ↦ true
  | deconfig ↦ false
]

unfoldable pub fingerprint_of : DhcpLeaseFact → Bytes
fingerprint_of fact =
    decimal (event_number fact.event)
    ++ (31
        ∷ (fact.iface
            ++ (31
                ∷ (fact.generation
                    ++ (31
                        ∷ (fact.ip4
                            ++ (31
                                ∷ (fact.netmask4
                                    ++ (31 ∷ (fact.gateway4 ++ (31 ∷ fact.dns4)))))))))))

-- The `iface` and the `LinkState &` that a caller passes together.
pub data Side : Type 0 where
  on_eth on_wifi : Side

abbrev pub name_of : ControlPlane → Side → Bytes
name_of p on_eth = p.eth_iface
name_of p on_wifi = p.wifi_iface

abbrev pub link_of : ControlPlane → Side → LinkState
link_of p on_eth = p.eth
link_of p on_wifi = p.wifi

abbrev pub with_link : ControlPlane → Side → LinkState → ControlPlane
with_link p on_eth link = record p { eth = link }
with_link p on_wifi link = record p { wifi = link }

abbrev pub route_intact : OwnedRouteState → InterfaceSnapshot → Bytes → ℤ → Bool
route_intact owned observed gateway4 metric =
    owned.active
    && (text_eq owned.gateway4 gateway4
        && (eqb_ℤ owned.metric metric
            && (observed.has_default_route
                && (text_eq observed.gateway4 gateway4 && eqb_ℤ observed.route_metric metric))))

-- `changed`, and where the operation stands.
pub record Reconciled (W : Type 0) : Type 0 where
  pub changed : Bool
  pub step : Step W

module _ {W : Type 0} where
  abbrev pub same_lease : Bool → Bytes → ControlPlane → W → Reconciled W
  same_lease value error p w = record { changed = false; step = stand value error p w }

  unfoldable pub clear_address : Option (Bytes → Bytes → W → Out Bool W) → Bytes → Step W → Step W
  clear_address none iface s = s
  clear_address (some clear) iface s =
      let o = clear iface [] s.world in
      stand o.value (if o.value then s.error else o.error) s.plane o.world

  unfoldable pub deconfigure : NetworkControlPlaneOps W → Bytes → ControlPlane → W → Step W
  unfolding clear_address
  deconfigure ops iface p w =
      and_then (clear_owned_route ops iface p w) (clear_address ops.clear_ipv4 iface)

  abbrev pub lease_route : NetworkControlPlaneOps W → Bytes → Bytes → ControlPlane → W → Step W
  lease_route ops iface gateway4 p w =
      if route_allowed p iface && not (is_empty gateway4)
      then ensure_owned_route ops iface gateway4 (route_metric p iface (negsuc 0)) p w
      else clear_owned_route ops iface p w

  unfoldable pub configure :
      NetworkControlPlaneOps W → Side → DhcpLeaseFact → Bytes → ControlPlane → W → Step W
  configure ops side fact error p w =
      if not (configured fact)
      then stand false (codes "unsupported DHCP lease fact") p w
      else and_then
          (put_ipv4 ops.apply_ipv4 (codes "IPv4 configuration port is unavailable") (name_of p side)
            fact.ip4 fact.netmask4 (stand true error p w))
          (λ s. lease_route ops (name_of s.plane side) fact.gateway4 s.plane s.world)

  -- The link once the platform follows the fact.
  abbrev pub followed : Side → DhcpLeaseFact → Step W → Reconciled W
  followed side fact s = record {
    changed = s.value;
    step =
        if s.value
        then record s {
          plane = with_link s.plane side (record (link_of s.plane side) {
            active = not (is_deconfig fact.event);
            lease = fact;
            fingerprint = fingerprint_of fact;
          });
        }
        else s;
  }

  unfoldable pub consume_lease :
      NetworkControlPlaneOps W
      → Side
      → Bool × DhcpLeaseFact × Bool
      → Bytes
      → ControlPlane
      → W
      → Reconciled W
  unfolding fingerprint_of
  consume_lease ops side (ok, fact, exists) error p w =
      if not ok
      then same_lease false error p w
      else if not exists || text_eq (fingerprint_of fact) (link_of p side).fingerprint
      then same_lease true error p w
      else followed side fact (
          if is_deconfig fact.event
          then deconfigure ops (name_of p side) p w
          else configure ops side fact error p w)

  unfoldable pub reconcile_link :
      NetworkControlPlaneOps W → Side → Bytes → ControlPlane → W → Reconciled W
  unfolding consume_lease
  reconcile_link ops side error p w =
      if not (link_of p side).managed_dhcp then same_lease true error p w else elim ops.read_lease [
        | none ↦ same_lease false (codes "DHCP lease reader is unavailable") p w
        | some read ↦
            let o = read (name_of p side) error w in
            consume_lease ops side o.value o.error p o.world
      ]

  unfoldable pub repair_ipv4 :
      NetworkControlPlaneOps W → Side → InterfaceSnapshot → Bytes → Bytes → Step W → Step W
  repair_ipv4 ops side observed ip4 netmask4 s =
      if not observed.exists || (is_empty ip4 || is_empty netmask4)
      then s
      else if observed.has_ip && (text_eq observed.ip4 ip4 && text_eq observed.netmask4 netmask4)
      then s
      else put_ipv4 ops.apply_ipv4 (codes "IPv4 repair port is unavailable") (name_of s.plane side)
          ip4 netmask4 s

  unfoldable pub repair_route :
      NetworkControlPlaneOps W → Side → InterfaceSnapshot → Bytes → ℤ → Step W → Step W
  repair_route ops side observed gateway4 metric s =
      if not observed.exists
        || (not (route_allowed s.plane (name_of s.plane side)) || is_empty gateway4)
      then s
      else if route_intact (owned_route_for s.plane (name_of s.plane side)) observed gateway4 metric
      then s
      else ensure_owned_route ops (name_of s.plane side) gateway4 metric s.plane s.world

  abbrev pub repair_both :
      NetworkControlPlaneOps W
      → Side
      → InterfaceSnapshot
      → Bytes
      → Bytes
      → Bytes
      → ℤ
      → Step W
      → Step W
  repair_both ops side observed ip4 netmask4 gateway4 metric s =
      and_then (repair_ipv4 ops side observed ip4 netmask4 s)
        (repair_route ops side observed gateway4 metric)

  unfoldable pub repair_eth : NetworkControlPlaneOps W → NetworkSnapshot → Step W → Step W
  unfolding repair_ipv4 repair_route
  repair_eth ops live s =
      let p = s.plane in
      if p.static_eth.active
      then repair_both ops on_eth live.eth p.static_eth.ip4 p.static_eth.netmask4
          p.static_eth.gateway4 (route_metric p p.eth_iface p.static_eth.own_metric) s
      else if p.eth.active && configured p.eth.lease
      then repair_both ops on_eth live.eth p.eth.lease.ip4 p.eth.lease.netmask4 p.eth.lease.gateway4
          (route_metric p p.eth_iface (negsuc 0)) s
      else s

  unfoldable pub repair_wifi : NetworkControlPlaneOps W → NetworkSnapshot → Step W → Step W
  unfolding repair_ipv4 repair_route
  repair_wifi ops live s =
      let p = s.plane in
      if p.wifi.active && configured p.wifi.lease
      then repair_both ops on_wifi live.wifi p.wifi.lease.ip4 p.wifi.lease.netmask4
          p.wifi.lease.gateway4 (route_metric p p.wifi_iface (negsuc 0)) s
      else s

  unfoldable pub repair_owned_state : NetworkControlPlaneOps W → ControlPlane → W → Step W
  unfolding repair_eth repair_wifi
  repair_owned_state ops p w = elim ops.snapshot [
    | none ↦ stand true [] p w
    | some read ↦ and_then (repair_eth ops (read w) (stand true [] p w)) (repair_wifi ops (read w))
  ]

  unfoldable pub refresh_external_state : NetworkControlPlaneOps W → ControlPlane → W → Step W
  unfolding repair_owned_state
  refresh_external_state ops p w =
      and_then (repair_owned_state ops p w) (λ s. recompute_dns ops s.plane s.world)

  unfoldable pub reconcile : NetworkControlPlaneOps W → ControlPlane → W → Step W
  unfolding reconcile_link refresh_external_state
  reconcile ops p w = and_then (reconcile_link ops on_eth [] p w).step (λ s.
      and_then (reconcile_link ops on_wifi s.error s.plane s.world).step
        (λ t. refresh_external_state ops t.plane t.world))

  -- `changed` once both links have been read: one of them, or the first pass over the resolver.
  abbrev pub then_dns : NetworkControlPlaneOps W → Bool → Step W → Reconciled W
  then_dns ops link_changed s =
      let first = not s.plane.dns_ownership_initialized in
      if not (link_changed || first)
      then record { changed = false; step = s }
      else record { changed = true; step = recompute_dns ops s.plane s.world }

  abbrev pub reconcile_wifi : NetworkControlPlaneOps W → Reconciled W → Reconciled W
  reconcile_wifi ops e =
      let v = reconcile_link ops on_wifi e.step.error e.step.plane e.step.world in
      if v.step.value
      then then_dns ops (e.changed || v.changed) v.step
      else record { changed = false; step = v.step }

  unfoldable pub reconcile_changed : NetworkControlPlaneOps W → ControlPlane → W → Reconciled W
  unfolding reconcile_link
  reconcile_changed ops p w =
      let e = reconcile_link ops on_eth [] p w in
      if e.step.value then reconcile_wifi ops e else record { changed = false; step = e.step }
