-- ===== src/PlaneLinks/Kept.antt =====
-- The ledger of the routes through the operations on links: the cases of a step that all share.
use network_service.Prelude.{
  ◌≡◌, refl, sym, Bool, true, false, not, ◌&&◌, [], ◌∷◌, Option, none, some, arith, Bytes,
  if◌then◌else◌, codes, text_eq_iff, text_eq_self, ◌⊎◌, inl, inr,
}
use network_service.Prelude.Int.{ℤ}
use mathlib.Core.Option
use mathlib.Core.Path.{subst}
use network_service.WifiProfile.{Out}
use network_service.PlaneState.{NetworkControlPlaneOps, ControlPlane, StaticEthernetState}
use network_service.ControlPlane.{
  Step, stand, and_then, apply_routes, clear_owned_route, recompute_dns,
}
use network_service.ControlPlane.Ledger.{adopted, Ledgered, within, noting, IsLedger}
use network_service.ControlPlane.Routes.{
  clear_eth-IsLedger, clear_wifi-IsLedger, apply_routes-IsLedger, recompute_dns-IsLedger,
}
use network_service.PlaneLinks.{
  no_link, known_iface, set_link, end_static, is_set, port, ignore_port, quiet_link, begin_dhcp,
  fresh_dns, start_dhcp, stop_dhcp, adopt_dhcp, put_ipv4, without_client, settle, with_static,
  new_static, apply_ethernet_static,
}

known_cases :
    (p : ControlPlane) (iface : Bytes)
    → known_iface p iface ≡ true
    → (iface ≡ p.eth_iface) ⊎ (iface ≡ p.wifi_iface)
known_cases p iface k =
    ground (arith, text_eq_iff iface p.eth_iface, text_eq_iff iface p.wifi_iface)

module _ {W : Type 0} (ops : NetworkControlPlaneOps W) where
  -- What the ledger looks at.
  record SameRoutes (p q : ControlPlane) (w v : Ledgered W) : Type 0 where
    eth_name : q.eth_iface ≡ p.eth_iface
    wifi_name : q.wifi_iface ≡ p.wifi_iface
    eth : q.eth_route ≡ p.eth_route
    wifi : q.wifi_route ≡ p.wifi_route
    calls : v.calls ≡ w.calls

  same_routes_lem :
      (p q : ControlPlane) (w v : Ledgered W) → SameRoutes p q w v → IsLedger p w → IsLedger q v
  same_routes_lem p q w v s h = ground arith

  pub record Kept (s : Step (Ledgered W)) : Type 0 where
    pub ledger : IsLedger s.plane s.world

  pub kept :
      {value : Bool} {error : Bytes} (p : ControlPlane) (w : Ledgered W)
      → IsLedger p w
      → Kept (stand value error p w)
  kept p w h = record { ledger = h }

  pub if-Kept : (b : Bool) (s t : Step (Ledgered W)) → Kept s → Kept t → Kept (if b then s else t)
  if-Kept true s t h k = h
  if-Kept false s t h k = k

  pub and_then-Kept :
      (s : Step (Ledgered W)) (next : Step (Ledgered W) → Step (Ledgered W))
      → Kept s
      → ((t : Step (Ledgered W)) → Kept t → Kept (next t))
      → Kept (and_then s next)
  and_then-Kept s next h k = if-Kept s.value (next s) s (k s h) h

  pub clear_eth-Kept :
      (p : ControlPlane) (w : Ledgered W)
      → IsLedger p w
      → Kept (clear_owned_route (noting ops) p.eth_iface p w)
  clear_eth-Kept p w h = record { ledger = clear_eth-IsLedger ops p w h }

  pub clear_wifi-Kept :
      (p : ControlPlane) (w : Ledgered W)
      → IsLedger p w
      → Kept (clear_owned_route (noting ops) p.wifi_iface p w)
  clear_wifi-Kept p w h = record { ledger = clear_wifi-IsLedger ops p w h }

  clear-IsLedger :
      (iface : Bytes) (p : ControlPlane) (w : Ledgered W)
      → known_iface p iface ≡ true
      → IsLedger p w
      → Kept (clear_owned_route (noting ops) iface p w)
  clear-IsLedger iface p w k h = elim (known_cases p iface k) [
    | inl e ↦
        subst (λ i. Kept (clear_owned_route (noting ops) i p w)) (sym e) (clear_eth-Kept p w h)
    | inr e ↦
        subst (λ i. Kept (clear_owned_route (noting ops) i p w)) (sym e) (clear_wifi-Kept p w h)
  ]

  port-calls :
      (f : Option (Bytes → W → W)) (iface : Bytes) (w : Ledgered W)
      → (port
          (Option.map {B = Bytes → Ledgered W → Ledgered W}
            (λ f i w. record { inner = f i w.inner; calls = w.calls })
            f)
          iface
          w).calls
        ≡ w.calls
  port-calls none iface w = refl
  port-calls (some f) iface w = refl

  ignore_port-calls :
      (f : Option (Bytes → Bytes → W → Out Bool W)) (iface error : Bytes) (w : Ledgered W)
      → (ignore_port
          (Option.map {B = Bytes → Bytes → Ledgered W → Out Bool (Ledgered W)}
            (λ f i e w. within w.calls (f i e w.inner))
            f)
          iface
          error
          w).calls
        ≡ w.calls
  ignore_port-calls none iface error w = refl
  ignore_port-calls (some f) iface error w = refl

  quiet_link-calls :
      (iface error : Bytes) (w : Ledgered W)
      → (quiet_link (noting ops) iface error w).calls ≡ w.calls
  quiet_link-calls iface error w = ground (
    arith,
    port-calls ops.stop_dhcp iface w,
    port-calls ops.clear_lease iface (port (noting ops).stop_dhcp iface w),
    ignore_port-calls ops.clear_ipv4 iface error
        (port (noting ops).clear_lease iface (port (noting ops).stop_dhcp iface w)),
  )

  fresh_dns-IsLedger :
      (iface : Bytes) (s : Step (Ledgered W)) → Kept s → Kept (fresh_dns (noting ops) iface s)
  fresh_dns-IsLedger iface s h = record {
    ledger =
        recompute_dns-IsLedger ops (end_static (set_link s.plane iface no_link) iface)
          (quiet_link (noting ops) iface [] s.world)
          (same_routes_lem s.plane _ s.world _ (ground (arith, quiet_link-calls iface [] s.world))
            h.ledger);
  }

  begin_dhcp-IsLedger :
      (iface error : Bytes) (s : Step (Ledgered W))
      → Kept s
      → Kept (begin_dhcp (noting ops) iface error s)
  begin_dhcp-IsLedger iface error s h = record { ledger = ground (arith, h.ledger) }

  -- An early return where a test fails.
  pub unless-Kept :
      (b : Bool) (s t : Step (Ledgered W))
      → Kept s
      → (b ≡ true → Kept t)
      → Kept (if not b then s else t)
  unless-Kept false s t h k = h
  unless-Kept true s t h k = k refl

  pub start_dhcp-IsLedger :
      (iface : Bytes) (p : ControlPlane) (w : Ledgered W)
      → IsLedger p w
      → Kept (start_dhcp (noting ops) iface p w)
  unfolding start_dhcp
  start_dhcp-IsLedger iface p w h = unless-Kept (known_iface p iface) _ _ (kept p w h) (λ k.
      unless-Kept
        (is_set (noting ops).start_dhcp
          && is_set (noting ops).stop_dhcp
          && is_set (noting ops).clear_lease)
        (stand false (codes "DHCP platform ports are unavailable") p w) _ (kept p w h)
        (λ _. and_then-Kept _ _ (clear-IsLedger iface p w k h) (λ s r.
          and_then-Kept _ _ (fresh_dns-IsLedger iface s r) (begin_dhcp-IsLedger iface s.error))))

  pub stop_dhcp-IsLedger :
      (iface : Bytes) (p : ControlPlane) (w : Ledgered W)
      → IsLedger p w
      → Kept (stop_dhcp (noting ops) iface p w)
  unfolding stop_dhcp
  stop_dhcp-IsLedger iface p w h = unless-Kept (known_iface p iface) _ _ (kept p w h) (λ k.
      let s = clear_owned_route (noting ops) iface p w in
      kept _ _ (
        recompute_dns-IsLedger ops (set_link s.plane iface no_link)
          (quiet_link (noting ops) iface s.error s.world)
          (same_routes_lem s.plane _ s.world _
            (ground (arith, quiet_link-calls iface s.error s.world))
            (clear-IsLedger iface p w k h).ledger)))

  pub put_ipv4-IsLedger :
      (f : Option (Bytes → Bytes → Bytes → Bytes → W → Out Bool W)) (u iface a n : Bytes)
      (s : Step (Ledgered W))
      → Kept s
      → Kept (
          put_ipv4
            (Option.map {B = Bytes → Bytes → Bytes → Bytes → Ledgered W → Out Bool (Ledgered W)}
              (λ f i a n e w. within w.calls (f i a n e w.inner))
              f)
            u
            iface
            a
            n
            s)
  unfolding put_ipv4
  put_ipv4-IsLedger none u iface a n s h = kept s.plane s.world h.ledger
  put_ipv4-IsLedger (some f) u iface a n s h = record { ledger = ground (arith, h.ledger) }

  pub recompute-Kept :
      (t : Step (Ledgered W)) → Kept t → Kept (recompute_dns (noting ops) t.plane t.world)
  recompute-Kept t r = record { ledger = recompute_dns-IsLedger ops t.plane t.world r.ledger }

  settle-IsLedger : (s : Step (Ledgered W)) → Kept s → Kept (settle (noting ops) s)
  settle-IsLedger s h =
      and_then-Kept (apply_routes (noting ops) s.plane s.world)
        (λ t. recompute_dns (noting ops) t.plane t.world)
        (record { ledger = apply_routes-IsLedger ops s.plane s.world h.ledger }) recompute-Kept

  without_client-IsLedger : (s : Step (Ledgered W)) → Kept s → Kept (without_client (noting ops) s)
  without_client-IsLedger s h = kept _ _ (
      same_routes_lem s.plane _ s.world _
        (ground (
          arith,
          port-calls ops.stop_dhcp s.plane.eth_iface s.world,
          port-calls ops.clear_lease s.plane.eth_iface
              (port (noting ops).stop_dhcp s.plane.eth_iface s.world),
        ))
        h.ledger)

  with_static-Kept :
      (t : Step (Ledgered W)) (static_eth : StaticEthernetState)
      → Kept t
      → Kept (with_static t static_eth)
  with_static-Kept t static_eth h = record { ledger = ground (arith, h.ledger) }

  pub apply_ethernet_static-IsLedger :
      (ip4 netmask4 gateway4 dns4 : Bytes) (metric : ℤ) (p : ControlPlane) (w : Ledgered W)
      → IsLedger p w
      → Kept (apply_ethernet_static (noting ops) ip4 netmask4 gateway4 dns4 metric p w)
  unfolding apply_ethernet_static
  apply_ethernet_static-IsLedger ip4 netmask4 gateway4 dns4 metric p w h =
      unless-Kept
        (is_set (noting ops).apply_ipv4
          && is_set (noting ops).stop_dhcp
          && is_set (noting ops).clear_lease)
        (stand false (codes "static IPv4 platform ports are unavailable") p w) _ (kept p w h)
        (λ _. and_then-Kept _ _ (clear_eth-Kept p w h) (λ s r.
          and_then-Kept _ _
            (put_ipv4-IsLedger ops.apply_ipv4 [] p.eth_iface ip4 netmask4 _
              (without_client-IsLedger s r))
            (λ t q.
              settle-IsLedger _
                (with_static-Kept t (new_static ip4 netmask4 gateway4 dns4 metric) q))))

  -- The adoption is written into the ledger, since it changes no route.
  abbrev pub note_adoption : Bytes → Step (Ledgered W) → Step (Ledgered W)
  note_adoption iface s =
      if s.value
      then record s { world = record s.world { calls = adopted iface ∷ s.world.calls } }
      else s

  pub adopt_dhcp-IsLedger :
      (iface : Bytes) (p : ControlPlane) (w : Ledgered W)
      → IsLedger p w
      → Kept (note_adoption iface (adopt_dhcp (noting ops) iface p w))
  unfolding adopt_dhcp
  adopt_dhcp-IsLedger iface p w h = record {
    ledger = ground (
      arith,
      text_eq_iff iface p.eth_iface,
      text_eq_iff iface p.wifi_iface,
      text_eq_self p.eth_iface,
      text_eq_self p.wifi_iface,
    );
  }
