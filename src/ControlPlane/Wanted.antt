-- ===== src/ControlPlane/Wanted.antt =====
-- The routes that the service holds once they have been applied.
use network_service.Prelude.{
  ◌≡◌, ◌∙◌, refl, sym, ap, Bool, true, false, not, ◌&&◌, arith, Bytes, if◌then◌else◌, codes,
  is_empty, text_eq, text_eq_self,
}
use mathlib.Core.Path.{subst}
use network_service.Prelude.Int.{ℤ, negsuc}
use network_service.PlaneState.{
  NetworkControlPlaneOps, ControlPlane, OwnedRouteState, no_route, static_route, dhcp_route,
  wifi_has_route, route_metric, route_allowed, metric_by,
}
use network_service.ControlPlane.{
  Step, and_then, or_error, clear_owned_route, ensure_owned_route, apply_eth_route,
  apply_wifi_route, apply_routes,
}
use network_service.ControlPlane.Policy.{apply_eth_route-Keeps}

-- The route that the facts and the policy ask for, if any.
abbrev pub wanted_eth : ControlPlane → OwnedRouteState
wanted_eth p =
    if static_route p
    then record {
      active = true;
      gateway4 = p.static_eth.gateway4;
      metric = route_metric p p.eth_iface p.static_eth.own_metric;
    }
    else if dhcp_route p
    then record {
      active = true;
      gateway4 = p.eth.lease.gateway4;
      metric = route_metric p p.eth_iface (negsuc 0);
    }
    else no_route

abbrev pub wanted_wifi : ControlPlane → OwnedRouteState
wanted_wifi p =
    if wifi_has_route p
    then record {
      active = true;
      gateway4 = p.wifi.lease.gateway4;
      metric = route_metric p p.wifi_iface (negsuc 0);
    }
    else no_route

-- The route that is wanted is the one that is owned, and none is owned if none is wanted.
pub record Agrees (owned wanted : OwnedRouteState) : Type 0 where
  pub same : wanted.active ≡ true → owned ≡ wanted
  pub none_left : wanted.active ≡ false → owned.active ≡ false

pub held :
    (g : Bytes) (m : ℤ) (r : OwnedRouteState)
    → r ≡ record { active = true; gateway4 = g; metric = m }
    → Agrees r (record { active = true; gateway4 = g; metric = m })
held g m r e = record { same = λ _. e; none_left = λ x. cc }

pub dropped : (r : OwnedRouteState) → r.active ≡ false → Agrees r no_route
dropped r e = record { same = λ x. cc; none_left = λ _. e }

pub wanted_eth_cong :
    (p q : ControlPlane)
    → q.route_policy ≡ p.route_policy
    → q.eth_iface ≡ p.eth_iface
    → q.wifi_iface ≡ p.wifi_iface
    → q.eth ≡ p.eth
    → q.static_eth ≡ p.static_eth
    → wanted_eth q ≡ wanted_eth p
unfolding route_allowed route_metric metric_by
wanted_eth_cong p q a b c d e = ground arith

pub wanted_wifi_cong :
    (p q : ControlPlane)
    → q.route_policy ≡ p.route_policy
    → q.eth_iface ≡ p.eth_iface
    → q.wifi_iface ≡ p.wifi_iface
    → q.wifi ≡ p.wifi
    → wanted_wifi q ≡ wanted_wifi p
unfolding route_allowed route_metric metric_by
wanted_wifi_cong p q a b c d = ground arith

module _ {W : Type 0} (ops : NetworkControlPlaneOps W) where
  pub clear_eth :
      (p : ControlPlane) (w : W)
      → (clear_owned_route ops p.eth_iface p w).value ≡ true
      → (clear_owned_route ops p.eth_iface p w).plane.eth_route.active ≡ false
  unfolding clear_owned_route
  clear_eth p w h = ground (arith, text_eq_self p.eth_iface)

  pub ensure_eth :
      (g : Bytes) (m : ℤ) (p : ControlPlane) (w : W)
      → is_empty g ≡ false
      → (ensure_owned_route ops p.eth_iface g m p w).value ≡ true
      → (ensure_owned_route ops p.eth_iface g m p w).plane.eth_route
        ≡ record { active = true; gateway4 = g; metric = m }
  unfolding ensure_owned_route clear_owned_route
  ensure_eth g m p w e h = ground (arith, text_eq_self p.eth_iface)

  pub clear_wifi :
      (p : ControlPlane) (w : W)
      → text_eq p.wifi_iface p.eth_iface ≡ false
      → (clear_owned_route ops p.wifi_iface p w).value ≡ true
      → ((clear_owned_route ops p.wifi_iface p w).plane.wifi_route.active ≡ false)
        × ((clear_owned_route ops p.wifi_iface p w).plane.eth_route ≡ p.eth_route)
  unfolding clear_owned_route
  clear_wifi p w d h = ground arith

  pub ensure_wifi :
      (g : Bytes) (m : ℤ) (p : ControlPlane) (w : W)
      → text_eq p.wifi_iface p.eth_iface ≡ false
      → is_empty g ≡ false
      → (ensure_owned_route ops p.wifi_iface g m p w).value ≡ true
      → ((ensure_owned_route ops p.wifi_iface g m p w).plane.wifi_route
          ≡ record { active = true; gateway4 = g; metric = m })
        × ((ensure_owned_route ops p.wifi_iface g m p w).plane.eth_route ≡ p.eth_route)
  unfolding ensure_owned_route clear_owned_route
  ensure_wifi g m p w d e h = ground arith

  -- After a success the plane is as `route` says, for the route that is wanted.
  abbrev pub Reaches : (ControlPlane → OwnedRouteState → Type 0) → OwnedRouteState → Step W → Type 0
  Reaches route wanted s = s.value ≡ true → route s.plane wanted

  pub if_Reaches :
      (route : ControlPlane → OwnedRouteState → Type 0) (b : Bool) (d e : OwnedRouteState)
      (s t : Step W)
      → (b ≡ true → Reaches route d s)
      → (b ≡ false → Reaches route e t)
      → Reaches route (if b then d else e) (if b then s else t)
  if_Reaches route true d e s t h k = h refl
  if_Reaches route false d e s t h k = k refl

  or_error-Reaches :
      (route : ControlPlane → OwnedRouteState → Type 0) (d : OwnedRouteState) (s : Step W)
      (text : Bytes)
      → Reaches route d s
      → Reaches route d (or_error s text)
  or_error-Reaches route d s text h = either (not s.value && is_empty s.error)
    where
      either : (b : Bool) → Reaches route d (if b then record s { error = text } else s)
      either true = h
      either false = h

  pub has_gateway :
      (a b : Bool) (g : Bytes) → (a && b && not (is_empty g)) ≡ true → is_empty g ≡ false
  has_gateway a b g h = ground arith

  apply_eth_route-Agrees :
      (p : ControlPlane) (w : W)
      → Reaches (λ q d. Agrees q.eth_route d) (wanted_eth p) (apply_eth_route ops p w)
  unfolding apply_eth_route
  apply_eth_route-Agrees p w =
      if_Reaches (λ q d. Agrees q.eth_route d) (static_route p) _ _ _ _
        (λ e.
          or_error-Reaches (λ q d. Agrees q.eth_route d) _ _ _
            (λ h. held _ _ _ (
              ensure_eth p.static_eth.gateway4 _ p w
                (has_gateway p.static_eth.active (route_allowed p p.eth_iface) _ e) h)))
        (λ _.
          if_Reaches (λ q d. Agrees q.eth_route d) (dhcp_route p) _ _ _ _
            (λ e.
              or_error-Reaches (λ q d. Agrees q.eth_route d) _ _ _
                (λ h. held _ _ _ (
                  ensure_eth p.eth.lease.gateway4 _ p w
                    (has_gateway p.eth.active (route_allowed p p.eth_iface) _ e) h)))
            (λ _ h. dropped _ (clear_eth p w h)))

  apply_wifi_route-Agrees :
      (p : ControlPlane) (w : W)
      → text_eq p.wifi_iface p.eth_iface ≡ false
      → Reaches (λ q d. Agrees q.wifi_route d) (wanted_wifi p) (apply_wifi_route ops p w)
  unfolding apply_wifi_route
  apply_wifi_route-Agrees p w d =
      if_Reaches (λ q d. Agrees q.wifi_route d) (wifi_has_route p) _ _ _ _
        (λ e.
          or_error-Reaches (λ q d. Agrees q.wifi_route d) _ _ _
            (λ h.
              held _ _ _
                (ensure_wifi p.wifi.lease.gateway4 _ p w d
                  (has_gateway p.wifi.active (route_allowed p p.wifi_iface) _ e) h).0))
        (λ _ h. dropped _ (clear_wifi p w d h).0)

  apply_wifi_route-frame :
      (p : ControlPlane) (w : W)
      → text_eq p.wifi_iface p.eth_iface ≡ false
      → (apply_wifi_route ops p w).value ≡ true
      → (apply_wifi_route ops p w).plane.eth_route ≡ p.eth_route
  unfolding apply_wifi_route
  apply_wifi_route-frame p w d =
      let P : ControlPlane → OwnedRouteState → Type 0 = λ q d. q.eth_route ≡ p.eth_route in
      if_Reaches P (wifi_has_route p) no_route no_route _ _
        (λ e.
          or_error-Reaches P no_route
            (ensure_owned_route ops p.wifi_iface p.wifi.lease.gateway4
              (route_metric p p.wifi_iface (negsuc 0)) p w)
            (codes "failed to apply Wi-Fi DHCP route")
            (λ h.
              (ensure_wifi p.wifi.lease.gateway4 (route_metric p p.wifi_iface (negsuc 0)) p w d
                (has_gateway p.wifi.active (route_allowed p p.wifi_iface) _ e) h).1))
        (λ _ h. (clear_wifi p w d h).1)

  -- Both steps of a success have succeeded.
  pub and_then-Reaches :
      (s : Step W) (next : Step W → Step W) (Q : ControlPlane → Type 0)
      → (s.value ≡ true → (next s).value ≡ true → Q (next s).plane)
      → (and_then s next).value ≡ true
      → Q (and_then s next).plane
  and_then-Reaches s next Q h = go s.value refl
    where
      go :
          (b : Bool)
          → s.value ≡ b
          → (if b then next s else s).value ≡ true
          → Q (if b then next s else s).plane
      go true e k = h e k
      go false e k = cc

  -- Where the interfaces have different names and the routes are applied with success, each
  -- interface owns the route that its facts and the policy ask for, or none if they ask for none.
  pub apply_routes-Agrees :
      (p : ControlPlane) (w : W)
      → text_eq p.wifi_iface p.eth_iface ≡ false
      → (apply_routes ops p w).value ≡ true
      → Agrees (apply_routes ops p w).plane.eth_route (wanted_eth p)
        × Agrees (apply_routes ops p w).plane.wifi_route (wanted_wifi p)
  unfolding apply_routes
  apply_routes-Agrees p w d =
      let s = apply_eth_route ops p w in
      let k = apply_eth_route-Keeps ops p w in
      let d' : text_eq s.plane.wifi_iface s.plane.eth_iface ≡ false =
        ap (λ n. text_eq n s.plane.eth_iface) k.wifi_name
        ∙ ap (text_eq p.wifi_iface) k.eth_name
        ∙ d in
      let same = wanted_wifi_cong p s.plane k.policy k.eth_name k.wifi_name k.wifi in
      and_then-Reaches s (λ s. apply_wifi_route ops s.plane s.world)
        (λ q. Agrees q.eth_route (wanted_eth p) × Agrees q.wifi_route (wanted_wifi p))
        (λ first second. (
          subst (λ r. Agrees r (wanted_eth p))
              (sym (apply_wifi_route-frame s.plane s.world d' second))
              (apply_eth_route-Agrees p w first),
          subst (Agrees (apply_wifi_route ops s.plane s.world).plane.wifi_route) same
              (apply_wifi_route-Agrees s.plane s.world d' second),
        ))
