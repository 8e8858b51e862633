-- ===== src/ControlPlane/Routes.antt =====
-- Every operation on routes keeps the ledger.
use network_service.Prelude.{
  ◌≡◌, sym, Bool, true, false, not, ◌&&◌, [], Option, none, some, arith, Bytes, if◌then◌else◌,
  codes, is_empty, text_eq_self,
}
use network_service.Prelude.Int.{ℤ}
use network_service.Types.{RoutePolicy, NetworkSnapshot}
use mathlib.Core.Option
use network_service.WifiProfile.{Out}
use network_service.PlaneState.{
  NetworkControlPlaneOps, ControlPlane, differs, owned_route_for, static_route, dhcp_route,
  wifi_has_route, init_dns,
}
use network_service.ControlPlane.{
  Step, stand, and_then, or_error, set_route, clear_owned_route, ensure_owned_route,
  apply_eth_route, apply_wifi_route, apply_routes, release_dns, write_dns, settle_dns, live_of,
  recompute_dns, converge, set_route_policy,
}
use network_service.ControlPlane.Policy.{Keeps, clear_owned_route-Keeps}
use network_service.ControlPlane.Ledger.{put, Ledgered, noted, noting, IsLedger}

module _ {W : Type 0} (ops : NetworkControlPlaneOps W) where
  pub clear_eth-IsLedger :
      (p : ControlPlane) (w : Ledgered W)
      → IsLedger p w
      → let s = clear_owned_route (noting ops) p.eth_iface p w in IsLedger s.plane s.world
  unfolding clear_owned_route
  clear_eth-IsLedger p w h = ground (arith, text_eq_self p.eth_iface)

  pub clear_wifi-IsLedger :
      (p : ControlPlane) (w : Ledgered W)
      → IsLedger p w
      → let s = clear_owned_route (noting ops) p.wifi_iface p w in IsLedger s.plane s.world
  unfolding clear_owned_route
  clear_wifi-IsLedger p w h = ground (arith, text_eq_self p.wifi_iface)

  abbrev pub Holds : Step (Ledgered W) → Type 0
  Holds s = IsLedger s.plane s.world

  put_eth-IsLedger :
      (set : Bytes → Bytes → ℤ → Bytes → W → Out Bool W) (g : Bytes) (m : ℤ) (iface : Bytes)
      (s : Step (Ledgered W))
      → iface ≡ s.plane.eth_iface
      → IsLedger s.plane s.world
      → let t =
          set_route (λ i g m e w. noted (put i g m) w.calls (set i g m e w.inner)) iface g m s in
        IsLedger t.plane t.world
  put_eth-IsLedger set g m iface s e h = ground (arith, text_eq_self iface)

  put_wifi-IsLedger :
      (set : Bytes → Bytes → ℤ → Bytes → W → Out Bool W) (g : Bytes) (m : ℤ) (iface : Bytes)
      (s : Step (Ledgered W))
      → iface ≡ s.plane.wifi_iface
      → IsLedger s.plane s.world
      → let t =
          set_route (λ i g m e w. noted (put i g m) w.calls (set i g m e w.inner)) iface g m s in
        IsLedger t.plane t.world
  put_wifi-IsLedger set g m iface s e h = ground (arith, text_eq_self iface)

  pub if_Holds :
      (b : Bool) (s t : Step (Ledgered W)) → Holds s → Holds t → Holds (if b then s else t)
  if_Holds true s t h k = h
  if_Holds false s t h k = k

  or_error-Holds : (s : Step (Ledgered W)) (text : Bytes) → Holds s → Holds (or_error s text)
  or_error-Holds s text h = if_Holds (not s.value && is_empty s.error) _ _ h h

  -- The step before the new route is put: the old one is dropped if it differs.
  abbrev before_put : Bytes → Bytes → ℤ → ControlPlane → Ledgered W → Step (Ledgered W)
  before_put iface g m p w =
      if differs (owned_route_for p iface) g m
      then clear_owned_route (noting ops) iface p w
      else stand true [] p w

  before_put-Keeps :
      (iface g : Bytes) (m : ℤ) (p : ControlPlane) (w : Ledgered W)
      → Keeps p (before_put iface g m p w)
  before_put-Keeps iface g m p w = ground (arith, clear_owned_route-Keeps (noting ops) iface p w)

  pub ensure_eth-IsLedger :
      (g : Bytes) (m : ℤ) (p : ControlPlane) (w : Ledgered W)
      → IsLedger p w
      → Holds (ensure_owned_route (noting ops) p.eth_iface g m p w)
  unfolding ensure_owned_route
  ensure_eth-IsLedger g m p w h =
      if_Holds (is_empty g) _ _ (clear_eth-IsLedger p w h) (with_port ops.set_default_route)
    where
      with_port :
          (o : Option (Bytes → Bytes → ℤ → Bytes → W → Out Bool W))
          → Holds
              (elim (Option.map {B = Bytes → Bytes → ℤ → Bytes → Ledgered W → Out Bool (Ledgered W)}
                  (λ f i g m e w. noted (put i g m) w.calls (f i g m e w.inner))
                  o)
                as (λ _. Step (Ledgered W)) [
                  | none ↦ stand false (codes "default-route port is unavailable") p w
                  | some set ↦
                      and_then (before_put p.eth_iface g m p w) (set_route set p.eth_iface g m)
                ])
      with_port none = h
      with_port (some set) =
          let s = before_put p.eth_iface g m p w in
          let cleared =
            if_Holds (differs (owned_route_for p p.eth_iface) g m) _ _ (clear_eth-IsLedger p w h)
              h in
          if_Holds s.value _ s
            (put_eth-IsLedger set g m p.eth_iface s
              (sym (before_put-Keeps p.eth_iface g m p w).eth_name) cleared)
            cleared

  pub ensure_wifi-IsLedger :
      (g : Bytes) (m : ℤ) (p : ControlPlane) (w : Ledgered W)
      → IsLedger p w
      → Holds (ensure_owned_route (noting ops) p.wifi_iface g m p w)
  unfolding ensure_owned_route
  ensure_wifi-IsLedger g m p w h =
      if_Holds (is_empty g) _ _ (clear_wifi-IsLedger p w h) (with_port ops.set_default_route)
    where
      with_port :
          (o : Option (Bytes → Bytes → ℤ → Bytes → W → Out Bool W))
          → Holds
              (elim (Option.map {B = Bytes → Bytes → ℤ → Bytes → Ledgered W → Out Bool (Ledgered W)}
                  (λ f i g m e w. noted (put i g m) w.calls (f i g m e w.inner))
                  o)
                as (λ _. Step (Ledgered W)) [
                  | none ↦ stand false (codes "default-route port is unavailable") p w
                  | some set ↦
                      and_then (before_put p.wifi_iface g m p w) (set_route set p.wifi_iface g m)
                ])
      with_port none = h
      with_port (some set) =
          let s = before_put p.wifi_iface g m p w in
          let cleared =
            if_Holds (differs (owned_route_for p p.wifi_iface) g m) _ _ (clear_wifi-IsLedger p w h)
              h in
          if_Holds s.value _ s
            (put_wifi-IsLedger set g m p.wifi_iface s
              (sym (before_put-Keeps p.wifi_iface g m p w).wifi_name) cleared)
            cleared

  apply_eth_route-IsLedger :
      (p : ControlPlane) (w : Ledgered W) → IsLedger p w → Holds (apply_eth_route (noting ops) p w)
  unfolding apply_eth_route
  apply_eth_route-IsLedger p w h =
      if_Holds (static_route p) _ _
        (or_error-Holds _ _ (ensure_eth-IsLedger p.static_eth.gateway4 _ p w h))
        (if_Holds (dhcp_route p) _ _
          (or_error-Holds _ _ (ensure_eth-IsLedger p.eth.lease.gateway4 _ p w h))
          (clear_eth-IsLedger p w h))

  apply_wifi_route-IsLedger :
      (p : ControlPlane) (w : Ledgered W) → IsLedger p w → Holds (apply_wifi_route (noting ops) p w)
  unfolding apply_wifi_route
  apply_wifi_route-IsLedger p w h =
      if_Holds (wifi_has_route p) _ _
        (or_error-Holds _ _ (ensure_wifi-IsLedger p.wifi.lease.gateway4 _ p w h))
        (clear_wifi-IsLedger p w h)

  pub apply_routes-IsLedger :
      (p : ControlPlane) (w : Ledgered W) → IsLedger p w → Holds (apply_routes (noting ops) p w)
  unfolding apply_routes
  apply_routes-IsLedger p w h =
      let s = apply_eth_route (noting ops) p w in
      let first = apply_eth_route-IsLedger p w h in
      if_Holds s.value _ s (apply_wifi_route-IsLedger s.plane s.world first) first

  -- Name servers touch no route.
  init_dns-IsLedger :
      (p : ControlPlane) (live : Option NetworkSnapshot) (w : Ledgered W)
      → IsLedger p w
      → IsLedger (init_dns p live) w
  unfolding init_dns
  init_dns-IsLedger p none w h = ground arith
  init_dns-IsLedger p (some live) w h = ground arith

  release_dns-IsLedger :
      (p : ControlPlane) (w : Ledgered W) → IsLedger p w → Holds (release_dns (noting ops) p w)
  unfolding release_dns
  release_dns-IsLedger p w h = ground arith

  write_dns-IsLedger :
      (selected : Bytes) (live : Option NetworkSnapshot) (p : ControlPlane) (w : Ledgered W)
      → IsLedger p w
      → Holds (write_dns (noting ops) selected live p w)
  unfolding write_dns
  write_dns-IsLedger selected live p w h = ground arith

  settle_dns-IsLedger :
      (live : Option NetworkSnapshot) (p : ControlPlane) (w : Ledgered W)
      → IsLedger p w
      → Holds (settle_dns (noting ops) live p w)
  unfolding settle_dns
  settle_dns-IsLedger live p w h =
      if_Holds _ _ _ (release_dns-IsLedger p w h) (write_dns-IsLedger _ live p w h)

  pub recompute_dns-IsLedger :
      (p : ControlPlane) (w : Ledgered W) → IsLedger p w → Holds (recompute_dns (noting ops) p w)
  unfolding recompute_dns
  recompute_dns-IsLedger p w h =
      settle_dns-IsLedger (live_of (noting ops) w) (init_dns p (live_of (noting ops) w)) w
        (init_dns-IsLedger p (live_of (noting ops) w) w h)

  converge-IsLedger :
      (p : ControlPlane) (w : Ledgered W) → IsLedger p w → Holds (converge (noting ops) p w)
  unfolding converge
  converge-IsLedger p w h =
      let s = apply_routes (noting ops) p w in
      let first = apply_routes-IsLedger p w h in
      if_Holds s.value _ s (recompute_dns-IsLedger s.plane s.world first) first

  with_policy-IsLedger :
      (p : ControlPlane) (w : Ledgered W) (policy : RoutePolicy)
      → IsLedger p w
      → IsLedger (record p { route_policy = policy }) w
  with_policy-IsLedger p w policy h = ground arith

  pub set_route_policy-IsLedger :
      (policy : RoutePolicy) (p : ControlPlane) (w : Ledgered W)
      → IsLedger p w
      → Holds (set_route_policy (noting ops) policy p w)
  unfolding set_route_policy
  set_route_policy-IsLedger policy p w h =
      let s = converge (noting ops) (record p { route_policy = policy }) w in
      let done = converge-IsLedger _ w (with_policy-IsLedger p w policy h) in
      let back = with_policy-IsLedger s.plane s.world p.route_policy done in
      let routes =
        apply_routes (noting ops) (record s.plane { route_policy = p.route_policy }) s.world in
      if_Holds s.value s _ done
        (recompute_dns-IsLedger routes.plane routes.world (apply_routes-IsLedger _ s.world back))
