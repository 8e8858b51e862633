-- ===== src/ControlPlane/Policy.antt =====
-- What routes and name servers never change, and the field of the route policy through a change.
use network_service.Prelude.{
  ◌≡◌, ◌∙◌, Bool, true, false, [], Option, none, some, arith, Bytes, if◌then◌else◌,
}
use network_service.Prelude.Int.{ℤ}
use network_service.Types.{RoutePolicy, NetworkSnapshot}
use network_service.WifiProfile.{Out}
use network_service.PlaneState.{
  NetworkControlPlaneOps, ControlPlane, static_route, dhcp_route, wifi_has_route, init_dns,
}
use network_service.ControlPlane.{
  Step, stand, and_then, or_error, set_route, clear_owned_route, ensure_owned_route,
  apply_eth_route, apply_wifi_route, apply_routes, release_dns, write_dns, settle_dns, live_of,
  recompute_dns, converge, set_route_policy,
}

-- What routes and name servers never change.
pub record Keeps {W : Type 0} (p : ControlPlane) (s : Step W) : Type 0 where
  pub policy : s.plane.route_policy ≡ p.route_policy
  pub eth_name : s.plane.eth_iface ≡ p.eth_iface
  pub wifi_name : s.plane.wifi_iface ≡ p.wifi_iface
  pub eth : s.plane.eth ≡ p.eth
  pub wifi : s.plane.wifi ≡ p.wifi
  pub static_eth : s.plane.static_eth ≡ p.static_eth

module _ {W : Type 0} (ops : NetworkControlPlaneOps W) where
  pub clear_owned_route-Keeps :
      (iface : Bytes) (p : ControlPlane) (w : W) → Keeps p (clear_owned_route ops iface p w)
  unfolding clear_owned_route
  clear_owned_route-Keeps iface p w = ground arith

  set_route-Keeps :
      (set : Bytes → Bytes → ℤ → Bytes → W → Out Bool W) (iface gateway4 : Bytes) (metric : ℤ)
      (p : ControlPlane) (s : Step W)
      → Keeps p s
      → Keeps p (set_route set iface gateway4 metric s)
  set_route-Keeps set iface gateway4 metric p s k = ground arith

  if_Keeps :
      (p : ControlPlane) (b : Bool) (s t : Step W)
      → Keeps p s
      → Keeps p t
      → Keeps p (if b then s else t)
  if_Keeps p true s t h k = h
  if_Keeps p false s t h k = k

  and_then-Keeps :
      (p : ControlPlane) (s : Step W) (next : Step W → Step W)
      → Keeps p s
      → ((t : Step W) → Keeps p t → Keeps p (next t))
      → Keeps p (and_then s next)
  and_then-Keeps p s next k h = if_Keeps p s.value (next s) s (h s k) k

  pub ensure_owned_route-Keeps :
      (iface gateway4 : Bytes) (metric : ℤ) (p : ControlPlane) (w : W)
      → Keeps p (ensure_owned_route ops iface gateway4 metric p w)
  unfolding ensure_owned_route
  ensure_owned_route-Keeps iface gateway4 metric p w =
      ground (arith, clear_owned_route-Keeps iface p w)

  or_error-Keeps :
      (p : ControlPlane) (s : Step W) (text : Bytes) → Keeps p s → Keeps p (or_error s text)
  or_error-Keeps p s text k = ground arith

  pub apply_eth_route-Keeps : (p : ControlPlane) (w : W) → Keeps p (apply_eth_route ops p w)
  unfolding apply_eth_route
  apply_eth_route-Keeps p w =
      if_Keeps p (static_route p) _ _
        (or_error-Keeps p _ _ (ensure_owned_route-Keeps p.eth_iface p.static_eth.gateway4 _ p w))
        (if_Keeps p (dhcp_route p) _ _
          (or_error-Keeps p _ _ (ensure_owned_route-Keeps p.eth_iface p.eth.lease.gateway4 _ p w))
          (clear_owned_route-Keeps p.eth_iface p w))

  apply_wifi_route-Keeps : (p : ControlPlane) (w : W) → Keeps p (apply_wifi_route ops p w)
  unfolding apply_wifi_route
  apply_wifi_route-Keeps p w =
      if_Keeps p (wifi_has_route p) _ _
        (or_error-Keeps p _ _ (ensure_owned_route-Keeps p.wifi_iface p.wifi.lease.gateway4 _ p w))
        (clear_owned_route-Keeps p.wifi_iface p w)

  pub Keeps-trans : (p : ControlPlane) (s t : Step W) → Keeps p s → Keeps s.plane t → Keeps p t
  Keeps-trans p s t h k = record {
    policy = k.policy ∙ h.policy;
    eth_name = k.eth_name ∙ h.eth_name;
    wifi_name = k.wifi_name ∙ h.wifi_name;
    eth = k.eth ∙ h.eth;
    wifi = k.wifi ∙ h.wifi;
    static_eth = k.static_eth ∙ h.static_eth;
  }

  pub apply_routes-Keeps : (p : ControlPlane) (w : W) → Keeps p (apply_routes ops p w)
  unfolding apply_routes
  apply_routes-Keeps p w =
      and_then-Keeps p (apply_eth_route ops p w) _ (apply_eth_route-Keeps p w)
        (λ s k. Keeps-trans p s _ k (apply_wifi_route-Keeps s.plane s.world))

  init_dns-Keeps :
      (p : ControlPlane) (live : Option NetworkSnapshot) (w : W)
      → Keeps p (stand true [] (init_dns p live) w)
  unfolding init_dns
  init_dns-Keeps p none w = ground arith
  init_dns-Keeps p (some live) w = ground arith

  release_dns-Keeps : (p : ControlPlane) (w : W) → Keeps p (release_dns ops p w)
  unfolding release_dns
  release_dns-Keeps p w = ground arith

  write_dns-Keeps :
      (selected : Bytes) (live : Option NetworkSnapshot) (p : ControlPlane) (w : W)
      → Keeps p (write_dns ops selected live p w)
  unfolding write_dns
  write_dns-Keeps selected live p w = ground arith

  pub settle_dns-Keeps :
      (live : Option NetworkSnapshot) (p : ControlPlane) (w : W) → Keeps p (settle_dns ops live p w)
  unfolding settle_dns
  settle_dns-Keeps live p w = if_Keeps p _ _ _ (release_dns-Keeps p w) (write_dns-Keeps _ live p w)

  pub recompute_dns-Keeps : (p : ControlPlane) (w : W) → Keeps p (recompute_dns ops p w)
  unfolding recompute_dns
  recompute_dns-Keeps p w =
      Keeps-trans p _ _ (init_dns-Keeps p (live_of ops w) w)
        (settle_dns-Keeps (live_of ops w) (init_dns p (live_of ops w)) w)

  pub converge-Keeps : (p : ControlPlane) (w : W) → Keeps p (converge ops p w)
  unfolding converge
  converge-Keeps p w =
      and_then-Keeps p (apply_routes ops p w) _ (apply_routes-Keeps p w)
        (λ s k. Keeps-trans p s _ k (recompute_dns-Keeps s.plane s.world))

  chosen :
      (s : Step W) (q : ControlPlane) (w : W) (x y : RoutePolicy)
      → s.plane.route_policy ≡ x
      → q.route_policy ≡ y
      → let t = if s.value then s else stand false s.error q w in
        t.plane.route_policy ≡ (if t.value then x else y)
  chosen s q w x y h k = ground arith

  -- After a success the field of the policy has what was asked for, and after a failure what it had
  -- before.
  pub set_route_policy-atomic :
      (policy : RoutePolicy) (p : ControlPlane) (w : W)
      → let s = set_route_policy ops policy p w in
        s.plane.route_policy ≡ (if s.value then policy else p.route_policy)
  unfolding set_route_policy
  set_route_policy-atomic policy p w =
      let s = converge ops (record p { route_policy = policy }) w in
      let old = record s.plane { route_policy = p.route_policy } in
      let routes = apply_routes ops old s.world in
      let names = recompute_dns ops routes.plane routes.world in
      chosen s names.plane names.world policy p.route_policy
        (converge-Keeps (record p { route_policy = policy }) w).policy
        ((recompute_dns-Keeps routes.plane routes.world).policy
          ∙ (apply_routes-Keeps old s.world).policy)
