-- ===== src/PlaneLinks.antt =====
-- src/service/network_control_plane.cpp and src/service/network_control_plane_reconcile.cpp: how a
-- DHCP client is started, stopped and adopted on an interface, and how a static address is put on
-- Ethernet. An operation that returns nothing has the result `true` and no error text here.
pub mod Kept
use network_service.Prelude.{
  Bool, true, false, not, ◌&&◌, ◌||◌, [], Option, none, some, if◌then◌else◌, Bytes, codes, text_eq,
}
use network_service.Prelude.Int.{ℤ, pos}
use network_service.Types.{no_lease}
use network_service.WifiProfile.{Out}
use network_service.PlaneState.{
  LinkState, StaticEthernetState, no_route, NetworkControlPlaneOps, ControlPlane, own,
}
use network_service.ControlPlane.{
  Step, stand, and_then, clear_owned_route, apply_routes, recompute_dns,
}

abbrev pub no_link : LinkState
no_link = record { managed_dhcp = false; active = false; lease = no_lease; fingerprint = [] }

abbrev pub no_static : StaticEthernetState
no_static = record {
  active = false;
  ip4 = [];
  netmask4 = [];
  gateway4 = [];
  dns4 = [];
  own_metric = pos 10;
}

abbrev pub new_static : Bytes → Bytes → Bytes → Bytes → ℤ → StaticEthernetState
new_static ip4 netmask4 gateway4 dns4 own_metric = record {
  active = true;
  ip4 = ip4;
  netmask4 = netmask4;
  gateway4 = gateway4;
  dns4 = dns4;
  own_metric = own_metric;
}

abbrev pub known_iface : ControlPlane → Bytes → Bool
known_iface p iface = text_eq iface p.eth_iface || text_eq iface p.wifi_iface

-- `link_for`, read and written.
abbrev pub link_for : ControlPlane → Bytes → LinkState
link_for p iface = if text_eq iface p.eth_iface then p.eth else p.wifi

abbrev pub set_link : ControlPlane → Bytes → LinkState → ControlPlane
set_link p iface link =
    if text_eq iface p.eth_iface then record p { eth = link } else record p { wifi = link }

-- `if (iface == eth_iface_) static_eth_ = StaticEthernetState{};`
abbrev pub end_static : ControlPlane → Bytes → ControlPlane
end_static p iface = if text_eq iface p.eth_iface then record p { static_eth = no_static } else p

abbrev pub managed : ControlPlane → Bytes → ControlPlane
managed p iface = set_link p iface (record (link_for p iface) { managed_dhcp = true })

abbrev pub is_set : {A : Type 0} → Option A → Bool
is_set none = false
is_set (some a) = true

module _ {W : Type 0} where
  -- A port without a result; one that is not set is not called.
  abbrev pub port : Option (Bytes → W → W) → Bytes → W → W
  port none iface w = w
  port (some f) iface w = f iface w

  -- `(void)ops_.clear_ipv4(iface, ignored);`
  abbrev pub ignore_port : Option (Bytes → Bytes → W → Out Bool W) → Bytes → Bytes → W → W
  ignore_port none iface error w = w
  ignore_port (some f) iface error w = (f iface error w).world

  abbrev pub quiet_link : NetworkControlPlaneOps W → Bytes → Bytes → W → W
  quiet_link ops iface error w =
      ignore_port ops.clear_ipv4 iface error
        (port ops.clear_lease iface (port ops.stop_dhcp iface w))

  -- The port is given the text that clearing the route left.
  abbrev pub begin_dhcp : NetworkControlPlaneOps W → Bytes → Bytes → Step W → Step W
  begin_dhcp ops iface error s = elim ops.start_dhcp [
    | none ↦ stand false error s.plane s.world
    | some begin ↦
        let o = begin iface error s.world in
        stand o.value o.error (if o.value then managed s.plane iface else s.plane) o.world
  ]

  abbrev pub fresh_dns : NetworkControlPlaneOps W → Bytes → Step W → Step W
  fresh_dns ops iface s =
      recompute_dns ops (end_static (set_link s.plane iface no_link) iface)
        (quiet_link ops iface [] s.world)

  unfoldable pub start_dhcp : NetworkControlPlaneOps W → Bytes → ControlPlane → W → Step W
  start_dhcp ops iface p w =
      if not (known_iface p iface)
      then stand false (codes "unknown DHCP interface") p w
      else if not (is_set ops.start_dhcp && is_set ops.stop_dhcp && is_set ops.clear_lease)
      then stand false (codes "DHCP platform ports are unavailable") p w
      else and_then (clear_owned_route ops iface p w)
          (λ s. and_then (fresh_dns ops iface s) (begin_dhcp ops iface s.error))

  unfoldable pub stop_dhcp : NetworkControlPlaneOps W → Bytes → ControlPlane → W → Step W
  stop_dhcp ops iface p w =
      if not (known_iface p iface)
      then stand true [] p w
      else let s = clear_owned_route ops iface p w in
        let d =
          recompute_dns ops (set_link s.plane iface no_link)
            (quiet_link ops iface s.error s.world) in
        stand true [] d.plane d.world

  unfoldable pub adopt_dhcp : NetworkControlPlaneOps W → Bytes → ControlPlane → W → Step W
  adopt_dhcp ops iface p w =
      if not (known_iface p iface)
      then stand false (codes "unknown DHCP interface") p w
      else if not (is_set ops.read_lease)
      then stand false (codes "DHCP lease reader is unavailable") p w
      else stand true []
          (end_static
            (own (set_link p iface (record no_link { managed_dhcp = true })) iface no_route) iface)
          w

  -- `if (!ops_.apply_ipv4(...)) return false;`
  unfoldable pub put_ipv4 :
      Option (Bytes → Bytes → Bytes → Bytes → W → Out Bool W)
      → Bytes
      → Bytes
      → Bytes
      → Bytes
      → Step W
      → Step W
  put_ipv4 none unavailable iface ip4 netmask4 s = stand false unavailable s.plane s.world
  put_ipv4 (some f) unavailable iface ip4 netmask4 s =
      let o = f iface ip4 netmask4 s.error s.world in stand o.value o.error s.plane o.world

  abbrev pub without_client : NetworkControlPlaneOps W → Step W → Step W
  without_client ops s =
      stand s.value s.error (record s.plane { eth = no_link; static_eth = no_static })
        (port ops.clear_lease s.plane.eth_iface (port ops.stop_dhcp s.plane.eth_iface s.world))

  abbrev pub settle : NetworkControlPlaneOps W → Step W → Step W
  settle ops s =
      and_then (apply_routes ops s.plane s.world) (λ t. recompute_dns ops t.plane t.world)

  abbrev pub with_static : Step W → StaticEthernetState → Step W
  with_static s static_eth = record s { plane = record s.plane { static_eth = static_eth } }

  unfoldable pub apply_ethernet_static :
      NetworkControlPlaneOps W → Bytes → Bytes → Bytes → Bytes → ℤ → ControlPlane → W → Step W
  unfolding put_ipv4
  apply_ethernet_static ops ip4 netmask4 gateway4 dns4 own_metric p w =
      if not (is_set ops.apply_ipv4 && is_set ops.stop_dhcp && is_set ops.clear_lease)
      then stand false (codes "static IPv4 platform ports are unavailable") p w
      else and_then (clear_owned_route ops p.eth_iface p w) (λ s.
        and_then (put_ipv4 ops.apply_ipv4 [] p.eth_iface ip4 netmask4 (without_client ops s))
          (λ t. settle ops (with_static t (new_static ip4 netmask4 gateway4 dns4 own_metric))))
