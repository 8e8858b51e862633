-- ===== src/ControlPlane/Resolver.antt =====
-- A DNS pass as the platform shows it: what the resolver file holds afterwards.
use network_service.Prelude.{
  ◌≡◌, refl, sym, ap, ◌∙◌, Bool, true, false, not, ◌&&◌, ◌||◌, [], Option, none, some, arith, Bytes,
  if◌then◌else◌, is_empty, text_eq, text_eq_iff, Bool-cases, inl, inr, codes,
}
use network_service.Prelude.Int.{ltb_ℤ, negsuc}
use network_service.Types.{
  ethernet_preferred, wifi_preferred, wifi_only, manual_metric, NetworkSnapshot,
}
use network_service.WifiProfile.{Out}
use network_service.PlaneState.{
  route_metric, wifi_has_route, NetworkControlPlaneOps, ControlPlane, eth_has_route, eth_dns,
  eth_names, wifi_names, preserve_external, select_dns, init_dns,
}
use network_service.ControlPlane.{
  Step, stand, release_dns, write_dns, settle_dns, live_of, recompute_dns,
}
use network_service.ControlPlane.Dns.{
  HasSource, select_dns-HasSource, release_dns_lem, write_dns_lem,
}
use mathlib.Core.Path.{subst}

-- What the service relies on: the snapshot shows the resolver file; a write that succeeds puts the
-- given servers there; and once a release has succeeded the file is not marked as the service's.
pub record IsResolver {W : Type 0} (ops : NetworkControlPlaneOps W) (read : W → NetworkSnapshot)
    : Type 0 where
  pub reads : ops.snapshot ≡ some read
  pub puts :
      (f : Bytes → Bytes → W → Out Bool W)
      → ops.set_dns ≡ some f
      → (s e : Bytes) (w : W) → (f s e w).value ≡ true
      → (read (f s e w).world).dns4 ≡ s
  pub releases :
      (f : Bytes → W → Out Bool W)
      → ops.clear_dns ≡ some f
      → (e : Bytes) (w : W) → (f e w).value ≡ true
      → (read (f e w).world).dns_managed_by_network_service ≡ false

-- Whose servers, from the facts `p` and the state `live` of the system before: `d` is empty where
-- the file is to be left or given back.
pub record IsChoice (p : ControlPlane) (live : NetworkSnapshot) (d : Bytes) : Type 0 where
  pub source : HasSource p d
  pub wifi_first : p.route_policy ≡ wifi_preferred → wifi_names p ≡ true → d ≡ p.wifi.lease.dns4
  pub eth_next :
      p.route_policy ≡ wifi_preferred → wifi_names p ≡ false → eth_names p ≡ true → d ≡ eth_dns p
  pub wifi_alone : p.route_policy ≡ wifi_only → d ≡ (if wifi_names p then p.wifi.lease.dns4 else [])
  pub eth_first : p.route_policy ≡ ethernet_preferred → eth_names p ≡ true → d ≡ eth_dns p
  pub wifi_next :
      p.route_policy ≡ ethernet_preferred
      → eth_names p ≡ false
      → live.eth.has_default_route ≡ false
      → wifi_names p ≡ true
      → d ≡ p.wifi.lease.dns4
  pub manual_alone :
      p.route_policy ≡ manual_metric
      → wifi_has_route p ≡ true
      → eth_has_route p ≡ false
      → d ≡ p.wifi.lease.dns4
  pub manual_lower :
      p.route_policy ≡ manual_metric
      → wifi_has_route p ≡ true
      → ltb_ℤ
          (route_metric p p.wifi_iface (negsuc 0))
          (route_metric p p.eth_iface p.static_eth.own_metric)
        ≡ true
      → d ≡ p.wifi.lease.dns4
  pub manual_eth :
      p.route_policy ≡ manual_metric
      → ltb_ℤ
          (route_metric p p.wifi_iface (negsuc 0))
          (route_metric p p.eth_iface p.static_eth.own_metric)
        ≡ false
      → eth_names p ≡ true
      → d ≡ eth_dns p
  pub manual_eth_alone :
      p.route_policy ≡ manual_metric → wifi_has_route p ≡ false → eth_names p ≡ true → d ≡ eth_dns p
  pub external :
      p.route_policy ≡ ethernet_preferred
      → eth_has_route p ≡ false
      → live.eth.has_default_route ≡ true
      → d ≡ []

-- The file and the plane where `d` is asked for.
pub record Holds {W : Type 0} (read : W → NetworkSnapshot) (p : ControlPlane)
    (live : NetworkSnapshot) (s : Step W) (d : Bytes) : Type 0 where
  pub choice : IsChoice p live d
  pub there : is_empty d ≡ false → (read s.world).dns4 ≡ d
  pub owned : s.plane.managed_dns ≡ not (is_empty d)
  pub noted : is_empty d ≡ false → s.plane.last_dns ≡ d

-- Past its first pass, the plane knows of a file that is marked as the service's.
abbrev pub Knows : {W : Type 0} → (W → NetworkSnapshot) → ControlPlane → W → Type 0
Knows read p w =
    p.dns_ownership_initialized ≡ true
    → (read w).dns_managed_by_network_service ≡ true
    → p.managed_dns ≡ true

-- The end of a pass that succeeded.
pub record Shows {W : Type 0} (read : W → NetworkSnapshot) (p : ControlPlane)
    (live : NetworkSnapshot) (s : Step W) (d : Bytes) : Type 0 where
  pub holds : Holds read p live s d
  pub given_back : is_empty d ≡ true → (read s.world).dns_managed_by_network_service ≡ false
  pub known : Knows read s.plane s.world

-- The servers that a pass goes for.
abbrev pub chosen_dns : ControlPlane → NetworkSnapshot → Bytes
chosen_dns p live =
    if preserve_external p.route_policy p (some live) then [] else select_dns p.route_policy p

chosen_dns-IsChoice :
    (p : ControlPlane) (live : NetworkSnapshot) → IsChoice p live (chosen_dns p live)
unfolding preserve_external select_dns
chosen_dns-IsChoice p live = record {
  source = by_preserve (preserve_external p.route_policy p (some live));
  wifi_first = λ e h. ground (arith, e, h);
  eth_next = λ e h k. ground (arith, e, h, k);
  wifi_alone = λ e. ground (arith, e);
  eth_first = λ e h. ground (arith, e, h);
  wifi_next = λ e h k l. ground (arith, e, h, k, l);
  manual_alone = λ e h k. ground (arith, e, h, k);
  manual_lower = λ e h k. ground (arith, e, h, k);
  manual_eth = λ e h k. ground (arith, e, h, k);
  manual_eth_alone = λ e h k. ground (arith, e, h, k);
  external = λ e h k. ground (arith, e, h, k);
}
  where
    by_preserve : (b : Bool) → HasSource p (if b then [] else select_dns p.route_policy p)
    by_preserve true = inl refl
    by_preserve false = select_dns-HasSource p.route_policy p

module _ {W : Type 0} (ops : NetworkControlPlaneOps W) (read : W → NetworkSnapshot)
    (h : IsResolver ops read) where
  release_dns-clears :
      (p : ControlPlane) (w : W)
      → (release_dns ops p w).value ≡ true
      → ((read w).dns_managed_by_network_service ≡ true → p.managed_dns ≡ true)
      → (read (release_dns ops p w).world).dns_managed_by_network_service ≡ false
  unfolding release_dns
  release_dns-clears p w ok k = by_port ops.clear_dns refl p.managed_dns refl ok
    where
      by_port :
          (port : Option (Bytes → W → Out Bool W))
          → ops.clear_dns ≡ port
          → (b : Bool) → p.managed_dns ≡ b
          → let s = if not b then stand true [] p w else elim port as (λ _. Step W) [
            | none ↦ stand false (codes "DNS clear port is unavailable") p w
            | some clear ↦
                let o = clear [] w in
                stand o.value o.error
                  (if o.value then record p { managed_dns = false; last_dns = [] } else p)
                  o.world
          ] in
            s.value ≡ true → (read s.world).dns_managed_by_network_service ≡ false
      by_port port e false m ok = elim (Bool-cases (read w).dns_managed_by_network_service) [
        | inl y ↦ ground (arith, k y, m)
        | inr n ↦ n
      ]
      by_port none e true m ok = cc
      by_port (some f) e true m ok = h.releases f e [] w ok

  write_dns-puts :
      (d : Bytes) (p : ControlPlane) (w : W)
      → (write_dns ops d (some (read w)) p w).value ≡ true
      → (read (write_dns ops d (some (read w)) p w).world).dns4 ≡ d
  unfolding write_dns
  write_dns-puts d p w ok =
      by_port ops.set_dns refl (p.managed_dns && text_eq d p.last_dns && text_eq (read w).dns4 d)
        (λ e.
          (text_eq_iff (read w).dns4 d).0
            (last_true p.managed_dns (text_eq d p.last_dns) (text_eq (read w).dns4 d) e))
        ok
    where
      last_true : (a b c : Bool) → (a && b && c) ≡ true → c ≡ true
      last_true a b c e = ground arith

      by_port :
          (port : Option (Bytes → Bytes → W → Out Bool W))
          → ops.set_dns ≡ port
          → (b : Bool) → (b ≡ true → (read w).dns4 ≡ d)
          → let s = if b then stand true [] p w else elim port as (λ _. Step W) [
            | none ↦ stand false (codes "DNS configuration port is unavailable") p w
            | some set ↦
                let o = set d [] w in
                stand o.value o.error
                  (if o.value then record p { managed_dns = true; last_dns = d } else p)
                  o.world
          ] in
            s.value ≡ true → (read s.world).dns4 ≡ d
      by_port port e true m ok = m refl
      by_port none e false m ok = cc
      by_port (some f) e false m ok = h.puts f e d [] w ok

  -- `preserve` and an empty `d` are the two reasons to give the file back.
  settle_dns-file :
      (preserve : Bool) (d : Bytes) (p : ControlPlane) (w : W)
      → let s =
          if preserve || is_empty d
          then release_dns ops p w
          else write_dns ops d (some (read w)) p w in
        let e = if preserve then [] else d in
        s.value ≡ true
        → (is_empty e ≡ false → (read s.world).dns4 ≡ e)
          × (s.plane.managed_dns ≡ not (is_empty e))
          × (is_empty e ≡ false → s.plane.last_dns ≡ e)
          × (is_empty e ≡ true
              → ((read w).dns_managed_by_network_service ≡ true → p.managed_dns ≡ true)
              → (read s.world).dns_managed_by_network_service ≡ false)
  settle_dns-file true d p w =
      λ ok. (λ x. cc, (release_dns_lem ops p w).0 ok, λ x. cc, λ _ k. release_dns-clears p w ok k)
  settle_dns-file false d p w = by_empty (is_empty d) refl
    where
      by_empty :
          (b : Bool)
          → is_empty d ≡ b
          → let s = if b then release_dns ops p w else write_dns ops d (some (read w)) p w in
            s.value ≡ true
            → (is_empty d ≡ false → (read s.world).dns4 ≡ d)
              × (s.plane.managed_dns ≡ not (is_empty d))
              × (is_empty d ≡ false → s.plane.last_dns ≡ d)
              × (is_empty d ≡ true
                  → ((read w).dns_managed_by_network_service ≡ true → p.managed_dns ≡ true)
                  → (read s.world).dns_managed_by_network_service ≡ false)
      by_empty true e ok = (
        λ x. cc,
        (release_dns_lem ops p w).0 ok ∙ sym (ap not e),
        λ x. cc,
        λ _ k. release_dns-clears p w ok k,
      )
      by_empty false e ok =
          let own = (write_dns_lem ops d (some (read w)) p w).0 ok in
          (λ _. write_dns-puts d p w ok, own.0 ∙ sym (ap not e), λ _. own.1, λ x. cc)

  -- `p` is the plane that has taken over, in the first pass, what the platform shows.
  settle_dns-Holds :
      (p : ControlPlane) (w : W)
      → (settle_dns ops (some (read w)) p w).value ≡ true
      → Holds read p (read w) (settle_dns ops (some (read w)) p w) (chosen_dns p (read w))
  unfolding settle_dns
  settle_dns-Holds p w ok =
      let file =
        settle_dns-file (preserve_external p.route_policy p (some (read w)))
          (select_dns p.route_policy p) p w ok in
      record {
        choice = chosen_dns-IsChoice p (read w);
        there = file.0;
        owned = file.1;
        noted = file.2;
      }

  -- The pass reads the file once.
  pub recompute_dns-reads :
      (p : ControlPlane) (w : W)
      → recompute_dns ops p w ≡ settle_dns ops (some (read w)) (init_dns p (some (read w))) w
  unfolding recompute_dns
  recompute_dns-reads p w =
      let live : live_of ops w ≡ some (read w) = rw h.reads refl in
      ap (λ (l : Option NetworkSnapshot). settle_dns ops l (init_dns p l) w) live

  pub recompute_dns-Holds :
      (p : ControlPlane) (w : W)
      → (recompute_dns ops p w).value ≡ true
      → let q = init_dns p (some (read w)) in
        Holds read q (read w) (recompute_dns ops p w) (chosen_dns q (read w))
  recompute_dns-Holds p w =
      let q = init_dns p (some (read w)) in
      subst (λ s. s.value ≡ true → Holds read q (read w) s (chosen_dns q (read w)))
        (sym (recompute_dns-reads p w)) (settle_dns-Holds q w)
