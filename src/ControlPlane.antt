-- ===== src/ControlPlane.antt =====
-- src/service/network_control_plane.cpp: who owns which default route and the resolver file. The
-- platform ports are injected functions over a world `W`; a port takes the error text by reference,
-- so it is given one and returns one. `none` is an empty `std::function`, and taking a snapshot does
-- not change the world. The mutex makes each operation one step.
pub mod Policy
pub mod Ledger
pub mod Routes
pub mod Dns
pub mod Resolver
pub mod Wanted
pub mod Change
use network_service.Prelude.{
  ℕ, Bool, true, false, not, ◌&&◌, ◌||◌, List, [], ◌∷◌, Option, none, some, if◌then◌else◌, is_empty,
  Bytes, codes, text_eq,
}
use network_service.Prelude.Int.{ℤ, pos, negsuc, ltb_ℤ, eqb_ℤ}
use network_service.Types.{
  RoutePolicy, ethernet_preferred, wifi_preferred, wifi_only, manual_metric, NetworkSnapshot,
  DhcpLeaseFact, no_lease,
}
use network_service.WifiProfile.{Out}
use network_service.PlaneState.{
  LinkState, StaticEthernetState, OwnedRouteState, no_route, NetworkControlPlaneOps, ControlPlane,
  owned_route_for, own, is_wifi_only, route_allowed, ten_or_twenty, metric_by, route_metric,
  differs, static_route, dhcp_route, wifi_has_route, eth_has_route, eth_dns, eth_names, wifi_names,
  preserve_external, select_dns, init_dns, still_there,
}

-- Where an operation stands: its result, the error text, the plane and the world.
pub record Step (W : Type 0) : Type 0 where
  pub value : Bool
  pub error : Bytes
  pub plane : ControlPlane
  pub world : W

module _ {W : Type 0} where
  abbrev pub stand : Bool → Bytes → ControlPlane → W → Step W
  stand value error p w = record { value = value; error = error; plane = p; world = w }

  -- `if (!...) return false;` and what follows.
  abbrev pub and_then : Step W → (Step W → Step W) → Step W
  and_then s next = if s.value then next s else s

  -- `if (error.empty()) error = ...` on the way out.
  abbrev pub or_error : Step W → Bytes → Step W
  or_error s text = if not s.value && is_empty s.error then record s { error = text } else s

  abbrev pub cleared : ControlPlane → Bytes → Out Bool W → Step W
  cleared p iface o = stand o.value o.error (if o.value then own p iface no_route else p) o.world

  unfoldable pub clear_owned_route : NetworkControlPlaneOps W → Bytes → ControlPlane → W → Step W
  clear_owned_route ops iface p w =
      let owned = owned_route_for p iface in
      if not owned.active then stand true [] p w else elim ops.clear_default_route [
        | none ↦ stand false (codes "default-route clear port is unavailable") p w
        | some clear ↦ cleared p iface (clear iface owned.gateway4 owned.metric [] w)
      ]

  abbrev pub set_route :
      (Bytes → Bytes → ℤ → Bytes → W → Out Bool W) → Bytes → Bytes → ℤ → Step W → Step W
  set_route set iface gateway4 metric s =
      let o = set iface gateway4 metric s.error s.world in
      stand o.value o.error
        (if o.value
          then own s.plane iface (record { active = true; gateway4 = gateway4; metric = metric })
          else s.plane)
        o.world

  unfoldable pub ensure_owned_route :
      NetworkControlPlaneOps W → Bytes → Bytes → ℤ → ControlPlane → W → Step W
  unfolding clear_owned_route
  ensure_owned_route ops iface gateway4 metric p w =
      if is_empty gateway4 then clear_owned_route ops iface p w else elim ops.set_default_route [
        | none ↦ stand false (codes "default-route port is unavailable") p w
        | some set ↦
            and_then
              (if differs (owned_route_for p iface) gateway4 metric
                then clear_owned_route ops iface p w
                else stand true [] p w)
              (set_route set iface gateway4 metric)
      ]

  unfoldable pub apply_eth_route : NetworkControlPlaneOps W → ControlPlane → W → Step W
  apply_eth_route ops p w =
      if static_route p
      then or_error
          (ensure_owned_route ops p.eth_iface p.static_eth.gateway4
            (route_metric p p.eth_iface p.static_eth.own_metric) p w)
          (codes "failed to apply Ethernet static route")
      else if dhcp_route p
      then or_error
          (ensure_owned_route ops p.eth_iface p.eth.lease.gateway4
            (route_metric p p.eth_iface (negsuc 0)) p w)
          (codes "failed to apply Ethernet DHCP route")
      else clear_owned_route ops p.eth_iface p w

  unfoldable pub apply_wifi_route : NetworkControlPlaneOps W → ControlPlane → W → Step W
  apply_wifi_route ops p w =
      if wifi_has_route p
      then or_error
          (ensure_owned_route ops p.wifi_iface p.wifi.lease.gateway4
            (route_metric p p.wifi_iface (negsuc 0)) p w)
          (codes "failed to apply Wi-Fi DHCP route")
      else clear_owned_route ops p.wifi_iface p w

  unfoldable pub apply_routes : NetworkControlPlaneOps W → ControlPlane → W → Step W
  unfolding apply_eth_route apply_wifi_route
  apply_routes ops p w =
      and_then (apply_eth_route ops p w) (λ s. apply_wifi_route ops s.plane s.world)

  unfoldable pub release_dns : NetworkControlPlaneOps W → ControlPlane → W → Step W
  release_dns ops p w = if not p.managed_dns then stand true [] p w else elim ops.clear_dns [
    | none ↦ stand false (codes "DNS clear port is unavailable") p w
    | some clear ↦
        let o = clear [] w in
        stand o.value o.error
          (if o.value then record p { managed_dns = false; last_dns = [] } else p) o.world
  ]

  unfoldable pub write_dns :
      NetworkControlPlaneOps W → Bytes → Option NetworkSnapshot → ControlPlane → W → Step W
  write_dns ops selected live p w =
      if p.managed_dns && text_eq selected p.last_dns && still_there live selected
      then stand true [] p w
      else elim ops.set_dns [
        | none ↦ stand false (codes "DNS configuration port is unavailable") p w
        | some set ↦
            let o = set selected [] w in
            stand o.value o.error
              (if o.value then record p { managed_dns = true; last_dns = selected } else p) o.world
      ]

  unfoldable pub settle_dns :
      NetworkControlPlaneOps W → Option NetworkSnapshot → ControlPlane → W → Step W
  unfolding release_dns write_dns
  settle_dns ops live p w =
      if preserve_external p.route_policy p live || is_empty (select_dns p.route_policy p)
      then release_dns ops p w
      else write_dns ops (select_dns p.route_policy p) live p w

  abbrev pub live_of : NetworkControlPlaneOps W → W → Option NetworkSnapshot
  live_of ops w = elim ops.snapshot [ none ↦ none | some read ↦ some (read w) ]

  unfoldable pub recompute_dns : NetworkControlPlaneOps W → ControlPlane → W → Step W
  unfolding settle_dns init_dns
  recompute_dns ops p w = settle_dns ops (live_of ops w) (init_dns p (live_of ops w)) w

  unfoldable pub converge : NetworkControlPlaneOps W → ControlPlane → W → Step W
  unfolding apply_routes recompute_dns
  converge ops p w = and_then (apply_routes ops p w) (λ s. recompute_dns ops s.plane s.world)

  -- The roll-back under the previous policy tries both parts, and keeps the first error.
  unfoldable pub set_route_policy :
      NetworkControlPlaneOps W → RoutePolicy → ControlPlane → W → Step W
  unfolding converge
  set_route_policy ops policy p w =
      let s = converge ops (record p { route_policy = policy }) w in
      let routes = apply_routes ops (record s.plane { route_policy = p.route_policy }) s.world in
      let names = recompute_dns ops routes.plane routes.world in
      if s.value then s else stand false s.error names.plane names.world
