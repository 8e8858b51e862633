-- ===== src/PlaneRepair/Sides.antt =====
-- What a lease fact asks for, and that its part of the platform brings the owned route there, on
-- either interface.
use network_service.Prelude.{
  ◌≡◌, refl, sym, Bool, true, false, not, ◌&&◌, Option, none, some, arith, Bytes, if◌then◌else◌,
  is_empty, codes, text_eq,
}
use mathlib.Core.Path.{subst}
use network_service.Prelude.Int.{negsuc}
use network_service.Types.{DhcpLeaseFact}
use network_service.WifiProfile.{Out}
use network_service.PlaneState.{
  NetworkControlPlaneOps, ControlPlane, OwnedRouteState, no_route, route_allowed, route_metric,
}
use network_service.ControlPlane.{Step, stand, clear_owned_route, ensure_owned_route}
use network_service.ControlPlane.Policy.{Keeps, clear_owned_route-Keeps, ensure_owned_route-Keeps}
use network_service.ControlPlane.Wanted.{
  Agrees, held, dropped, clear_eth, ensure_eth, clear_wifi, ensure_wifi, Reaches, if_Reaches,
  and_then-Reaches,
}
use network_service.PlaneLinks.{put_ipv4}
use network_service.PlaneRepair.{
  Side, on_eth, on_wifi, name_of, link_of, is_deconfig, clear_address, deconfigure, lease_route,
  configure, configured,
}

abbrev pub route_of : ControlPlane → Side → OwnedRouteState
route_of p on_eth = p.eth_route
route_of p on_wifi = p.wifi_route

-- The route that a fact asks for under the policy, if any.
abbrev pub lease_wants : ControlPlane → Side → DhcpLeaseFact → OwnedRouteState
lease_wants p side fact =
    if is_deconfig fact.event
    then no_route
    else if route_allowed p (name_of p side) && not (is_empty fact.gateway4)
    then record {
      active = true;
      gateway4 = fact.gateway4;
      metric = route_metric p (name_of p side) (negsuc 0);
    }
    else no_route

-- The route of the side, and its link as it was.
abbrev pub Settled : ControlPlane → Side → ControlPlane → OwnedRouteState → Type 0
Settled p side q wanted = Agrees (route_of q side) wanted × (link_of q side ≡ link_of p side)

abbrev route_wanted : ControlPlane → Side → Bytes → OwnedRouteState
route_wanted p side g =
    if route_allowed p (name_of p side) && not (is_empty g)
    then record { active = true; gateway4 = g; metric = route_metric p (name_of p side) (negsuc 0) }
    else no_route

nonempty : (a : Bool) (g : Bytes) → (a && not (is_empty g)) ≡ true → is_empty g ≡ false
nonempty a g h = ground arith

module _ {W : Type 0} (ops : NetworkControlPlaneOps W) where
  clear_side :
      (side : Side) (p : ControlPlane) (w : W)
      → text_eq p.wifi_iface p.eth_iface ≡ false
      → (clear_owned_route ops (name_of p side) p w).value ≡ true
      → (route_of (clear_owned_route ops (name_of p side) p w).plane side).active ≡ false
  clear_side on_eth p w d h = clear_eth ops p w h
  clear_side on_wifi p w d h = (clear_wifi ops p w d h).0

  ensure_side :
      (side : Side) (g : Bytes) (p : ControlPlane) (w : W)
      → text_eq p.wifi_iface p.eth_iface ≡ false
      → is_empty g ≡ false
      → (ensure_owned_route ops
          (name_of p side)
          g
          (route_metric p (name_of p side) (negsuc 0))
          p
          w).value
        ≡ true
      → route_of
          (ensure_owned_route ops
            (name_of p side)
            g
            (route_metric p (name_of p side) (negsuc 0))
            p
            w).plane
          side
        ≡ record {
          active = true;
          gateway4 = g;
          metric = route_metric p (name_of p side) (negsuc 0);
        }
  ensure_side on_eth g p w d e h = ensure_eth ops g _ p w e h
  ensure_side on_wifi g p w d e h = (ensure_wifi ops g _ p w d e h).0

  same_link :
      (side : Side) (p : ControlPlane) (s : Step W)
      → Keeps p s
      → link_of s.plane side ≡ link_of p side
  same_link on_eth p s k = k.eth
  same_link on_wifi p s k = k.wifi

  clear_side-Settled :
      (side : Side) (p : ControlPlane) (w : W)
      → text_eq p.wifi_iface p.eth_iface ≡ false
      → Reaches ops (Settled p side) no_route (clear_owned_route ops (name_of p side) p w)
  clear_side-Settled side p w d h = (
    dropped _ (clear_side side p w d h),
    same_link side p _ (clear_owned_route-Keeps ops (name_of p side) p w),
  )

  ensure_side-Settled :
      (side : Side) (g : Bytes) (p : ControlPlane) (w : W)
      → text_eq p.wifi_iface p.eth_iface ≡ false
      → is_empty g ≡ false
      → Reaches ops
          (Settled p side)
          (record {
            active = true;
            gateway4 = g;
            metric = route_metric p (name_of p side) (negsuc 0);
          })
          (ensure_owned_route ops
            (name_of p side)
            g
            (route_metric p (name_of p side) (negsuc 0))
            p
            w)
  ensure_side-Settled side g p w d e h = (
    held _ _ _ (ensure_side side g p w d e h),
    same_link side p _ (ensure_owned_route-Keeps ops (name_of p side) g _ p w),
  )

  clear_address-plane :
      (f : Option (Bytes → Bytes → W → Out Bool W)) (iface : Bytes) (s : Step W)
      → (clear_address f iface s).plane ≡ s.plane
  unfolding clear_address
  clear_address-plane none iface s = refl
  clear_address-plane (some f) iface s = refl

  deconfigure-Settled :
      (side : Side) (p : ControlPlane) (w : W)
      → text_eq p.wifi_iface p.eth_iface ≡ false
      → Reaches ops (Settled p side) no_route (deconfigure ops (name_of p side) p w)
  unfolding deconfigure
  deconfigure-Settled side p w d =
      let s = clear_owned_route ops (name_of p side) p w in
      and_then-Reaches ops s (clear_address ops.clear_ipv4 (name_of p side))
        (λ q. Settled p side q no_route)
        (λ first _.
          subst (λ q. Settled p side q no_route)
            (sym (clear_address-plane ops.clear_ipv4 (name_of p side) s))
            (clear_side-Settled side p w d first))

  put_ipv4-plane :
      (f : Option (Bytes → Bytes → Bytes → Bytes → W → Out Bool W)) (u iface a n : Bytes)
      (s : Step W)
      → (put_ipv4 f u iface a n s).plane ≡ s.plane
  unfolding put_ipv4
  put_ipv4-plane none u iface a n s = refl
  put_ipv4-plane (some f) u iface a n s = refl

  lease_route-Settled :
      (side : Side) (g : Bytes) (p : ControlPlane) (w : W)
      → text_eq p.wifi_iface p.eth_iface ≡ false
      → Reaches ops
          (Settled p side)
          (route_wanted p side g)
          (lease_route ops (name_of p side) g p w)
  lease_route-Settled side g p w d =
      if_Reaches ops (Settled p side) (route_allowed p (name_of p side) && not (is_empty g)) _
        no_route _ _
        (λ e. ensure_side-Settled side g p w d (nonempty (route_allowed p (name_of p side)) g e))
        (λ _. clear_side-Settled side p w d)

  -- An early return is no success.
  past_guard :
      (P : ControlPlane → OwnedRouteState → Type 0) (b : Bool) (text : Bytes) (p : ControlPlane)
      (w : W) (d : OwnedRouteState) (t : Step W)
      → Reaches ops P d t
      → Reaches ops P d (if not b then stand false text p w else t)
  past_guard P true text p w d t r = r
  past_guard P false text p w d t r = λ h. cc

  -- The platform's part of a fact that gives an address.
  configure-Settled :
      (side : Side) (fact : DhcpLeaseFact) (error : Bytes) (p : ControlPlane) (w : W)
      → text_eq p.wifi_iface p.eth_iface ≡ false
      → Reaches ops
          (Settled p side)
          (route_wanted p side fact.gateway4)
          (configure ops side fact error p w)
  unfolding configure
  configure-Settled side fact error p w d =
      let s =
        put_ipv4 ops.apply_ipv4 (codes "IPv4 configuration port is unavailable") (name_of p side)
          fact.ip4 fact.netmask4 (stand true error p w) in
      past_guard (Settled p side) (configured fact) (codes "unsupported DHCP lease fact") p w _ _ (
        and_then-Reaches ops s
          (λ s. lease_route ops (name_of s.plane side) fact.gateway4 s.plane s.world)
          (λ q. Settled p side q (route_wanted p side fact.gateway4))
          (λ _ second.
            subst
              (λ q.
                (lease_route ops (name_of q side) fact.gateway4 q s.world).value ≡ true
                → Settled p side (lease_route ops (name_of q side) fact.gateway4 q s.world).plane
                    (route_wanted p side fact.gateway4))
              (sym (
                put_ipv4-plane ops.apply_ipv4 (codes "IPv4 configuration port is unavailable")
                  (name_of p side) fact.ip4 fact.netmask4 (stand true error p w)))
              (lease_route-Settled side fact.gateway4 p s.world d) second))

  pub platform-Settled :
      (side : Side) (fact : DhcpLeaseFact) (error : Bytes) (p : ControlPlane) (w : W)
      → text_eq p.wifi_iface p.eth_iface ≡ false
      → Reaches ops (Settled p side) (lease_wants p side fact) (
          if is_deconfig fact.event
          then deconfigure ops (name_of p side) p w
          else configure ops side fact error p w)
  platform-Settled side fact error p w d =
      if_Reaches ops (Settled p side) (is_deconfig fact.event) _ _ _ _
        (λ _. deconfigure-Settled side p w d) (λ _. configure-Settled side fact error p w d)
