-- ===== src/PlaneRepair/Lease.antt =====
-- What a lease fact leaves behind once it is consumed, and what a fresh client starts from.
use network_service.Prelude.{
  ◌≡◌, refl, sym, ap, ◌∙◌, Bool, true, false, not, Option, none, some, arith, Bytes, if◌then◌else◌,
  codes, text_eq, text_eq_self, text_eq_iff, Bool-cases, inl, inr,
}
use mathlib.Core.Path.{subst}
use network_service.Types.{DhcpLeaseFact}
use network_service.WifiProfile.{Out}
use network_service.PlaneState.{NetworkControlPlaneOps, ControlPlane, LinkState}
use network_service.ControlPlane.{Step, stand}
use network_service.ControlPlane.Wanted.{Agrees, Reaches}
use network_service.PlaneRepair.{
  Side, on_eth, on_wifi, name_of, link_of, Reconciled, fingerprint_of, is_deconfig, deconfigure,
  configure, consume_lease, followed, reconcile_link, same_lease,
}
use network_service.PlaneRepair.Sides.{route_of, lease_wants, Settled, platform-Settled}

-- Once a new fact has been followed.
pub record Follows {W : Type 0} (p : ControlPlane) (side : Side) (fact : DhcpLeaseFact) (s : Step W)
    : Type 0 where
  pub lease : (link_of s.plane side).lease ≡ fact
  pub fingerprint : (link_of s.plane side).fingerprint ≡ fingerprint_of fact
  pub active : (link_of s.plane side).active ≡ not (is_deconfig fact.event)
  pub managed : (link_of s.plane side).managed_dhcp ≡ (link_of p side).managed_dhcp
  pub route : Agrees (route_of s.plane side) (lease_wants p side fact)

module _ {W : Type 0} (ops : NetworkControlPlaneOps W) where
  followed-Follows :
      (side : Side) (fact : DhcpLeaseFact) (p : ControlPlane) (value : Bool) (error : Bytes)
      (q : ControlPlane) (w : W)
      → Reaches ops (Settled p side) (lease_wants p side fact) (stand value error q w)
      → value ≡ true
      → Follows p side fact (followed side fact (stand value error q w)).step
  followed-Follows side fact p false error q w r h = cc
  followed-Follows on_eth fact p true error q w r h = record {
    lease = refl;
    fingerprint = refl;
    active = refl;
    managed = ap (λ (l : LinkState). l.managed_dhcp) (r refl).1;
    route = (r refl).0;
  }
  followed-Follows on_wifi fact p true error q w r h = record {
    lease = refl;
    fingerprint = refl;
    active = refl;
    managed = ap (λ (l : LinkState). l.managed_dhcp) (r refl).1;
    route = (r refl).0;
  }

  past_same :
      (side : Side) (fact : DhcpLeaseFact) (error : Bytes) (p : ControlPlane) (w : W) (b : Bool)
      (s : Step W)
      → Reaches ops (Settled p side) (lease_wants p side fact) s
      → (if b then same_lease true error p w else followed side fact s).changed ≡ true
      → Follows p side fact (if b then same_lease true error p w else followed side fact s).step
  past_same side fact error p w true s r h = cc
  past_same side fact error p w false s r h =
      followed-Follows side fact p s.value s.error s.plane s.world r h

  -- Where the interfaces have different names: once a lease fact that is new has been consumed, the
  -- link holds the fact with its fingerprint, it is active exactly when the fact is not a
  -- deconfiguration, it is still managed, and the interface owns the route that the fact and the
  -- policy ask for, or none if they ask for none.
  pub consume_lease-Follows :
      (side : Side) (fact : DhcpLeaseFact) (error : Bytes) (p : ControlPlane) (w : W)
      → text_eq p.wifi_iface p.eth_iface ≡ false
      → (consume_lease ops side (true, fact, true) error p w).changed ≡ true
      → Follows p side fact (consume_lease ops side (true, fact, true) error p w).step
  unfolding consume_lease
  consume_lease-Follows side fact error p w d =
      past_same side fact error p w (text_eq (fingerprint_of fact) (link_of p side).fingerprint)
        (if is_deconfig fact.event
          then deconfigure ops (name_of p side) p w
          else configure ops side fact error p w)
        (platform-Settled ops side fact error p w d)

  -- The second pass over a lease that has been consumed.
  consumed_again :
      (side : Side) (fact : DhcpLeaseFact) (error : Bytes) (q : ControlPlane) (v : W)
      → (link_of q side).fingerprint ≡ fingerprint_of fact
      → consume_lease ops side (true, fact, true) error q v ≡ same_lease true error q v
  unfolding consume_lease
  consumed_again side fact error q v e = rw e (rw (text_eq_self (fingerprint_of fact)) refl)

  -- The link holds the fact, whether it was new or not.
  abbrev Holding : ControlPlane → Side → DhcpLeaseFact → ControlPlane → Type 0
  Holding p side fact q =
      ((link_of q side).fingerprint ≡ fingerprint_of fact)
      × ((link_of q side).managed_dhcp ≡ (link_of p side).managed_dhcp)

  either_lease :
      (side : Side) (fact : DhcpLeaseFact) (error : Bytes) (p : ControlPlane) (w : W) (b : Bool)
      (s : Step W)
      → (b ≡ true → (link_of p side).fingerprint ≡ fingerprint_of fact)
      → Reaches ops (Settled p side) (lease_wants p side fact) s
      → (if b then same_lease true error p w else followed side fact s).step.value ≡ true
      → Holding p side fact
          (if b then same_lease true error p w else followed side fact s).step.plane
  either_lease side fact error p w true s e r h = (e refl, refl)
  either_lease side fact error p w false s e r h = elim (Bool-cases s.value) [
    | inl v ↦
        let f = followed-Follows side fact p s.value s.error s.plane s.world r v in
        (f.fingerprint, f.managed)
    | inr v ↦ ground (arith, v, h)
  ]

  consume_lease-Holding :
      (side : Side) (fact : DhcpLeaseFact) (error : Bytes) (p : ControlPlane) (w : W)
      → text_eq p.wifi_iface p.eth_iface ≡ false
      → (consume_lease ops side (true, fact, true) error p w).step.value ≡ true
      → Holding p side fact (consume_lease ops side (true, fact, true) error p w).step.plane
  unfolding consume_lease
  consume_lease-Holding side fact error p w d =
      either_lease side fact error p w (text_eq (fingerprint_of fact) (link_of p side).fingerprint)
        (if is_deconfig fact.event
          then deconfigure ops (name_of p side) p w
          else configure ops side fact error p w)
        (λ e. sym ((text_eq_iff (fingerprint_of fact) (link_of p side).fingerprint).0 e))
        (platform-Settled ops side fact error p w d)

  -- With the port read and its answer in place.
  reconcile_link-reads :
      (side : Side) (error : Bytes) (p : ControlPlane) (w : W)
      (read : Bytes → Bytes → W → Out (Bool × DhcpLeaseFact × Bool) W)
      → ops.read_lease ≡ some read
      → (link_of p side).managed_dhcp ≡ true
      → let o = read (name_of p side) error w in
        reconcile_link ops side error p w ≡ consume_lease ops side o.value o.error p o.world
  unfolding reconcile_link
  reconcile_link-reads side error p w read e m =
      ap (λ (b : Bool). if not b then same_lease true error p w else by_port ops.read_lease) m
      ∙ ap by_port e
    where
      by_port : Option (Bytes → Bytes → W → Out (Bool × DhcpLeaseFact × Bool) W) → Reconciled W
      by_port port = elim port as (λ _. Reconciled W) [
        | none ↦ same_lease false (codes "DHCP lease reader is unavailable") p w
        | some read ↦
            let o = read (name_of p side) error w in
            consume_lease ops side o.value o.error p o.world
      ]

  -- Where the interfaces have different names and the lease reader is set and gives the same fact
  -- whenever it is asked: once the link of a managed client has been reconciled with success, a
  -- later pass reports no change, leaves the plane as it is, and calls nothing but the reader.
  pub reconcile_link-settles :
      (side : Side) (fact : DhcpLeaseFact) (error : Bytes) (p : ControlPlane) (w : W)
      (read : Bytes → Bytes → W → Out (Bool × DhcpLeaseFact × Bool) W)
      → text_eq p.wifi_iface p.eth_iface ≡ false
      → ops.read_lease ≡ some read
      → ((i e : Bytes) (v : W) → (read i e v).value ≡ (true, fact, true))
      → (link_of p side).managed_dhcp ≡ true
      → (reconcile_link ops side error p w).step.value ≡ true
      → (later : Bytes) (v : W)
      → let q = (reconcile_link ops side error p w).step.plane in
        let o = read (name_of q side) later v in
        reconcile_link ops side later q v ≡ same_lease true o.error q o.world
  reconcile_link-settles side fact error p w read d e same m h later v =
      let q = (reconcile_link ops side error p w).step.plane in
      let o = read (name_of p side) error w in
      let o' = read (name_of q side) later v in
      let first : reconcile_link ops side error p w
          ≡ consume_lease ops side (true, fact, true) o.error p o.world =
        reconcile_link-reads side error p w read e m
        ∙ ap (λ r. consume_lease ops side r o.error p o.world) (same (name_of p side) error w) in
      let held : Holding p side fact q =
        subst (λ (r : Reconciled W). r.step.value ≡ true → Holding p side fact r.step.plane)
          (sym first) (consume_lease-Holding side fact o.error p o.world d) h in
      reconcile_link-reads side later q v read e (held.1 ∙ m)
      ∙ ap (λ r. consume_lease ops side r o'.error q o'.world) (same (name_of q side) later v)
      ∙ consumed_again side fact o'.error q o'.world held.0
