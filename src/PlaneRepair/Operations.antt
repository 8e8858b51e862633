-- ===== src/PlaneRepair/Operations.antt =====
-- Every operation of the control plane keeps the ledger of the routes.
use network_service.Prelude.{
  Bool, true, false, not, ◌&&◌, ◌||◌, [], Option, none, some, arith, Bytes, if◌then◌else◌, codes,
  is_empty, text_eq,
}
use network_service.Prelude.Int.{ℤ, negsuc}
use network_service.Types.{NetworkSnapshot, InterfaceSnapshot, DhcpLeaseFact}
use mathlib.Core.Option
use network_service.WifiProfile.{Out}
use network_service.PlaneState.{
  NetworkControlPlaneOps, ControlPlane, owned_route_for, route_allowed, route_metric,
}
use network_service.ControlPlane.{
  Step, stand, and_then, clear_owned_route, ensure_owned_route, recompute_dns,
}
use network_service.ControlPlane.Ledger.{Ledgered, within, noting, IsLedger}
use network_service.ControlPlane.Routes.{ensure_eth-IsLedger, ensure_wifi-IsLedger}
use network_service.PlaneLinks.Kept.{
  Kept, kept, if-Kept, and_then-Kept, unless-Kept, clear_eth-Kept, clear_wifi-Kept, recompute-Kept,
  put_ipv4-IsLedger,
}
use network_service.PlaneRepair.{
  Side, on_eth, on_wifi, name_of, link_of, Reconciled, same_lease, fingerprint_of, is_deconfig,
  clear_address, deconfigure, lease_route, configure, configured, followed, consume_lease,
  reconcile_link, repair_ipv4, route_intact, repair_route, repair_both, repair_eth, repair_wifi,
  repair_owned_state, refresh_external_state, reconcile, then_dns, reconcile_changed,
}

module _ {W : Type 0} (ops : NetworkControlPlaneOps W) where
  clear_side-Kept :
      (side : Side) (p : ControlPlane) (w : Ledgered W)
      → IsLedger p w
      → Kept ops (clear_owned_route (noting ops) (name_of p side) p w)
  clear_side-Kept on_eth p w h = clear_eth-Kept ops p w h
  clear_side-Kept on_wifi p w h = clear_wifi-Kept ops p w h

  ensure_side-Kept :
      (side : Side) (g : Bytes) (m : ℤ) (p : ControlPlane) (w : Ledgered W)
      → IsLedger p w
      → Kept ops (ensure_owned_route (noting ops) (name_of p side) g m p w)
  ensure_side-Kept on_eth g m p w h = record { ledger = ensure_eth-IsLedger ops g m p w h }
  ensure_side-Kept on_wifi g m p w h = record { ledger = ensure_wifi-IsLedger ops g m p w h }

  clear_address-Kept :
      (f : Option (Bytes → Bytes → W → Out Bool W)) (iface : Bytes) (s : Step (Ledgered W))
      → Kept ops s
      → Kept ops (
          clear_address
            (Option.map {B = Bytes → Bytes → Ledgered W → Out Bool (Ledgered W)}
              (λ f i e w. within w.calls (f i e w.inner))
              f)
            iface
            s)
  unfolding clear_address
  clear_address-Kept none iface s h = h
  clear_address-Kept (some f) iface s h = record { ledger = ground (arith, h.ledger) }

  deconfigure-Kept :
      (side : Side) (p : ControlPlane) (w : Ledgered W)
      → IsLedger p w
      → Kept ops (deconfigure (noting ops) (name_of p side) p w)
  unfolding deconfigure
  deconfigure-Kept side p w h =
      and_then-Kept ops _ _ (clear_side-Kept side p w h)
        (clear_address-Kept ops.clear_ipv4 (name_of p side))

  lease_route-Kept :
      (side : Side) (g : Bytes) (p : ControlPlane) (w : Ledgered W)
      → IsLedger p w
      → Kept ops (lease_route (noting ops) (name_of p side) g p w)
  lease_route-Kept side g p w h =
      if-Kept ops (route_allowed p (name_of p side) && not (is_empty g)) _ _
        (ensure_side-Kept side g (route_metric p (name_of p side) (negsuc 0)) p w h)
        (clear_side-Kept side p w h)

  followed-Kept :
      (side : Side) (fact : DhcpLeaseFact) (s : Step (Ledgered W))
      → Kept ops s
      → Kept ops (followed side fact s).step
  followed-Kept on_eth fact s h = record { ledger = ground (arith, h.ledger) }
  followed-Kept on_wifi fact s h = record { ledger = ground (arith, h.ledger) }

  configure-Kept :
      (side : Side) (fact : DhcpLeaseFact) (error : Bytes) (p : ControlPlane) (w : Ledgered W)
      → IsLedger p w
      → Kept ops (configure (noting ops) side fact error p w)
  unfolding configure
  configure-Kept side fact error p w h =
      unless-Kept ops (configured fact) (stand false (codes "unsupported DHCP lease fact") p w) _
        (kept ops p w h)
        (λ _.
          and_then-Kept ops _ _
            (put_ipv4-IsLedger ops ops.apply_ipv4 (codes "IPv4 configuration port is unavailable")
              (name_of p side) fact.ip4 fact.netmask4 (stand true error p w)
              (kept ops {value = true} {error = error} p w h))
            (λ s r. lease_route-Kept side fact.gateway4 s.plane s.world r.ledger))

  if-Reconciled :
      (b : Bool) (s t : Reconciled (Ledgered W))
      → Kept ops s.step
      → Kept ops t.step
      → Kept ops (if b then s else t).step
  if-Reconciled true s t h k = h
  if-Reconciled false s t h k = k

  consume_lease-Kept :
      (side : Side) (read : Bool × DhcpLeaseFact × Bool) (error : Bytes) (p : ControlPlane)
      (w : Ledgered W)
      → IsLedger p w
      → Kept ops (consume_lease (noting ops) side read error p w).step
  unfolding consume_lease
  consume_lease-Kept side (ok, fact, exists) error p w h =
      if-Reconciled (not ok) (same_lease false error p w) _ (kept ops p w h) (
        if-Reconciled (not exists || text_eq (fingerprint_of fact) (link_of p side).fingerprint)
          (same_lease true error p w) _ (kept ops p w h)
          (followed-Kept side fact _ (
            if-Kept ops (is_deconfig fact.event) _ _ (deconfigure-Kept side p w h)
              (configure-Kept side fact error p w h))))

  reconcile_link-Kept :
      (side : Side) (error : Bytes) (p : ControlPlane) (w : Ledgered W)
      → IsLedger p w
      → Kept ops (reconcile_link (noting ops) side error p w).step
  unfolding reconcile_link
  reconcile_link-Kept side error p w h =
      if-Reconciled (not (link_of p side).managed_dhcp) (same_lease true error p w) _
        (kept ops p w h) (with_port ops.read_lease)
    where
      with_port :
          (o : Option (Bytes → Bytes → W → Out (Bool × DhcpLeaseFact × Bool) W))
          → Kept ops
              (elim (Option.map
                  {B = Bytes → Bytes → Ledgered W → Out (Bool × DhcpLeaseFact × Bool) (Ledgered W)}
                  (λ f i e w. within w.calls (f i e w.inner))
                  o)
                as (λ _. Reconciled (Ledgered W)) [
                  | none ↦ same_lease false (codes "DHCP lease reader is unavailable") p w
                  | some read ↦
                      let o = read (name_of p side) error w in
                      consume_lease (noting ops) side o.value o.error p o.world
                ]).step
      with_port none = kept ops p w h
      with_port (some read) =
          let o = read (name_of p side) error w.inner in
          consume_lease-Kept side o.value o.error p (record { inner = o.world; calls = w.calls })
            (record {
              distinct = h.distinct;
              apart = h.apart;
              eth = h.eth;
              wifi = h.wifi;
              own_dropped = h.own_dropped;
            })

  repair_ipv4-Kept :
      (side : Side) (observed : InterfaceSnapshot) (ip4 netmask4 : Bytes) (s : Step (Ledgered W))
      → Kept ops s
      → Kept ops (repair_ipv4 (noting ops) side observed ip4 netmask4 s)
  unfolding repair_ipv4
  repair_ipv4-Kept side observed ip4 netmask4 s h =
      if-Kept ops (not observed.exists || (is_empty ip4 || is_empty netmask4)) s _ h (
        if-Kept ops
          (observed.has_ip && (text_eq observed.ip4 ip4 && text_eq observed.netmask4 netmask4)) s _
          h
          (put_ipv4-IsLedger ops ops.apply_ipv4 (codes "IPv4 repair port is unavailable")
            (name_of s.plane side) ip4 netmask4 s h))

  repair_route-Kept :
      (side : Side) (observed : InterfaceSnapshot) (g : Bytes) (m : ℤ) (s : Step (Ledgered W))
      → Kept ops s
      → Kept ops (repair_route (noting ops) side observed g m s)
  unfolding repair_route
  repair_route-Kept side observed g m s h =
      if-Kept ops
        (not observed.exists || (not (route_allowed s.plane (name_of s.plane side)) || is_empty g))
        s _ h
        (if-Kept ops (route_intact (owned_route_for s.plane (name_of s.plane side)) observed g m) s
          _ h (ensure_side-Kept side g m s.plane s.world h.ledger))

  repair_both-Kept :
      (side : Side) (observed : InterfaceSnapshot) (ip4 netmask4 g : Bytes) (m : ℤ)
      (s : Step (Ledgered W))
      → Kept ops s
      → Kept ops (repair_both (noting ops) side observed ip4 netmask4 g m s)
  repair_both-Kept side observed ip4 netmask4 g m s h =
      and_then-Kept ops _ _ (repair_ipv4-Kept side observed ip4 netmask4 s h)
        (repair_route-Kept side observed g m)

  repair_eth-Kept :
      (live : NetworkSnapshot) (s : Step (Ledgered W))
      → Kept ops s
      → Kept ops (repair_eth (noting ops) live s)
  unfolding repair_eth
  repair_eth-Kept live s h =
      let p = s.plane in
      if-Kept ops p.static_eth.active _ _
        (repair_both-Kept on_eth live.eth p.static_eth.ip4 p.static_eth.netmask4
          p.static_eth.gateway4 (route_metric p p.eth_iface p.static_eth.own_metric) s h)
        (if-Kept ops (p.eth.active && configured p.eth.lease) _ s
          (repair_both-Kept on_eth live.eth p.eth.lease.ip4 p.eth.lease.netmask4
            p.eth.lease.gateway4 (route_metric p p.eth_iface (negsuc 0)) s h)
          h)

  repair_wifi-Kept :
      (live : NetworkSnapshot) (s : Step (Ledgered W))
      → Kept ops s
      → Kept ops (repair_wifi (noting ops) live s)
  unfolding repair_wifi
  repair_wifi-Kept live s h =
      let p = s.plane in
      if-Kept ops (p.wifi.active && configured p.wifi.lease) _ s
        (repair_both-Kept on_wifi live.wifi p.wifi.lease.ip4 p.wifi.lease.netmask4
          p.wifi.lease.gateway4 (route_metric p p.wifi_iface (negsuc 0)) s h)
        h

  repair_owned_state-Kept :
      (p : ControlPlane) (w : Ledgered W)
      → IsLedger p w
      → Kept ops (repair_owned_state (noting ops) p w)
  unfolding repair_owned_state
  repair_owned_state-Kept p w h = with_port ops.snapshot
    where
      with_port :
          (o : Option (W → NetworkSnapshot))
          → Kept ops
              (elim (Option.map {B = Ledgered W → NetworkSnapshot} (λ f w. f w.inner) o)
                as (λ _. Step (Ledgered W)) [
                  | none ↦ stand true [] p w
                  | some read ↦
                      and_then
                        (repair_eth (noting ops) (read w) (stand true [] p w))
                        (repair_wifi (noting ops) (read w))
                ])
      with_port none = kept ops p w h
      with_port (some read) =
          and_then-Kept ops _ _
            (repair_eth-Kept (read w.inner) (stand true [] p w)
              (kept ops {value = true} {error = []} p w h))
            (repair_wifi-Kept (read w.inner))

  pub refresh_external_state-Kept :
      (p : ControlPlane) (w : Ledgered W)
      → IsLedger p w
      → Kept ops (refresh_external_state (noting ops) p w)
  unfolding refresh_external_state
  refresh_external_state-Kept p w h =
      and_then-Kept ops (repair_owned_state (noting ops) p w)
        (λ s. recompute_dns (noting ops) s.plane s.world) (repair_owned_state-Kept p w h)
        (recompute-Kept ops)

  pub reconcile-Kept :
      (p : ControlPlane) (w : Ledgered W) → IsLedger p w → Kept ops (reconcile (noting ops) p w)
  unfolding reconcile
  reconcile-Kept p w h =
      and_then-Kept ops (reconcile_link (noting ops) on_eth [] p w).step _
        (reconcile_link-Kept on_eth [] p w h)
        (λ s r.
          and_then-Kept ops (reconcile_link (noting ops) on_wifi s.error s.plane s.world).step
            (λ t. refresh_external_state (noting ops) t.plane t.world)
            (reconcile_link-Kept on_wifi s.error s.plane s.world r.ledger)
            (λ t q. refresh_external_state-Kept t.plane t.world q.ledger))

  then_dns-Kept :
      (b : Bool) (s : Step (Ledgered W)) → Kept ops s → Kept ops (then_dns (noting ops) b s).step
  then_dns-Kept b s h = if-Reconciled _ _ _ h (recompute-Kept ops s h)

  pub reconcile_changed-Kept :
      (p : ControlPlane) (w : Ledgered W)
      → IsLedger p w
      → Kept ops (reconcile_changed (noting ops) p w).step
  unfolding reconcile_changed
  reconcile_changed-Kept p w h =
      let e = reconcile_link (noting ops) on_eth [] p w in
      let v = reconcile_link (noting ops) on_wifi e.step.error e.step.plane e.step.world in
      let eth = reconcile_link-Kept on_eth [] p w h in
      let wifi = reconcile_link-Kept on_wifi e.step.error e.step.plane e.step.world eth.ledger in
      if-Reconciled e.step.value _ (record { changed = false; step = e.step })
        (if-Reconciled v.step.value (then_dns (noting ops) (e.changed || v.changed) v.step)
          (record { changed = false; step = v.step })
          (then_dns-Kept (e.changed || v.changed) v.step wifi) wifi)
        eth
