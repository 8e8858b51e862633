-- ===== src/ControlPlane/Dns.antt =====
-- What a DNS pass leaves behind, and whose name servers it selects.
use network_service.Prelude.{
  ◌≡◌, ◌⊎◌, inl, inr, refl, Bool, true, false, not, ◌&&◌, ◌||◌, [], Option, arith, Bytes,
  if◌then◌else◌, is_empty, text_eq_iff,
}
use network_service.Types.{
  RoutePolicy, ethernet_preferred, wifi_preferred, wifi_only, manual_metric, NetworkSnapshot,
}
use network_service.PlaneState.{
  NetworkControlPlaneOps, ControlPlane, eth_has_route, wifi_has_route, eth_dns, eth_names,
  wifi_names, preserve_external, select_dns, init_dns,
}
use network_service.ControlPlane.{Step, release_dns, write_dns, settle_dns, live_of, recompute_dns}

-- The name servers come from an interface that has a route under the policy, or there are none.
abbrev pub HasSource : ControlPlane → Bytes → Type 0
HasSource p d =
    (d ≡ [])
    ⊎ ((eth_has_route p ≡ true) × (d ≡ eth_dns p)
        ⊎ (wifi_has_route p ≡ true) × (d ≡ p.wifi.lease.dns4))

-- Of two texts under two tests, one is taken or none.
either_source :
    (p : ControlPlane) (e w : Bool)
    → (e ≡ true → eth_has_route p ≡ true)
    → (w ≡ true → wifi_has_route p ≡ true)
    → HasSource p (if w then p.wifi.lease.dns4 else if e then eth_dns p else [])
      × HasSource p (if e then eth_dns p else if w then p.wifi.lease.dns4 else [])
either_source p true true he hw = (inr (inr (hw refl, refl)), inr (inl (he refl, refl)))
either_source p true false he hw = (inr (inl (he refl, refl)), inr (inl (he refl, refl)))
either_source p false true he hw = (inr (inr (hw refl, refl)), inr (inr (hw refl, refl)))
either_source p false false he hw = (inl refl, inl refl)

left_true : (a b : Bool) → (a && b) ≡ true → a ≡ true
left_true true b h = refl
left_true false b h = h

-- Whatever the policy, the selected name servers are those of an interface that has a route under
-- it, or none.
pub select_dns-HasSource :
    (policy : RoutePolicy) (p : ControlPlane) → HasSource p (select_dns policy p)
unfolding select_dns
select_dns-HasSource wifi_preferred p =
    (either_source p (eth_names p) (wifi_names p) (left_true _ _) (left_true _ _)).0
select_dns-HasSource wifi_only p =
    (either_source p false (wifi_names p) (λ x. cc) (left_true _ _)).0
select_dns-HasSource manual_metric p =
    (either_source p (eth_names p) _ (left_true _ _) (left_true _ _)).0
select_dns-HasSource ethernet_preferred p =
    (either_source p (eth_names p) (wifi_names p) (left_true _ _) (left_true _ _)).1

-- Whether the plane should own the resolver file.
abbrev pub wants_dns : ControlPlane → Option NetworkSnapshot → Bool
wants_dns p live =
    not (preserve_external p.route_policy p live) && not (is_empty (select_dns p.route_policy p))

-- By the flags of the plane: a pass that succeeds owns the file exactly if it should, and then notes
-- the selected servers; one that fails leaves the plane.
pub record Settles {W : Type 0} (p : ControlPlane) (live : Option NetworkSnapshot) (s : Step W)
    : Type 0 where
  pub owned : s.value ≡ true → s.plane.managed_dns ≡ wants_dns p live
  pub written :
      s.value ≡ true → wants_dns p live ≡ true → s.plane.last_dns ≡ select_dns p.route_policy p
  pub kept : s.value ≡ false → s.plane ≡ p

module _ {W : Type 0} (ops : NetworkControlPlaneOps W) where
  pub release_dns_lem :
      (p : ControlPlane) (w : W)
      → ((release_dns ops p w).value ≡ true → (release_dns ops p w).plane.managed_dns ≡ false)
        × ((release_dns ops p w).value ≡ false → (release_dns ops p w).plane ≡ p)
  unfolding release_dns
  release_dns_lem p w = (λ h. ground arith, λ h. ground arith)

  pub write_dns_lem :
      (d : Bytes) (live : Option NetworkSnapshot) (p : ControlPlane) (w : W)
      → ((write_dns ops d live p w).value ≡ true
          → ((write_dns ops d live p w).plane.managed_dns ≡ true)
            × ((write_dns ops d live p w).plane.last_dns ≡ d))
        × ((write_dns ops d live p w).value ≡ false → (write_dns ops d live p w).plane ≡ p)
  unfolding write_dns
  write_dns_lem d live p w = (λ h. ground (arith, text_eq_iff d p.last_dns), λ h. ground arith)

  settle_by :
      (preserve empty : Bool) (d : Bytes) (live : Option NetworkSnapshot) (p : ControlPlane) (w : W)
      → let s = if preserve || empty then release_dns ops p w else write_dns ops d live p w in
        (s.value ≡ true → s.plane.managed_dns ≡ (not preserve && not empty))
        × (s.value ≡ true → (not preserve && not empty) ≡ true → s.plane.last_dns ≡ d)
        × (s.value ≡ false → s.plane ≡ p)
  settle_by true empty d live p w = ((release_dns_lem p w).0, λ h k. cc, (release_dns_lem p w).1)
  settle_by false true d live p w = ((release_dns_lem p w).0, λ h k. cc, (release_dns_lem p w).1)
  settle_by false false d live p w =
      let o = write_dns_lem d live p w in ((λ h. (o.0 h).0), (λ h k. (o.0 h).1), o.1)

  pub settle_dns-Settles :
      (live : Option NetworkSnapshot) (p : ControlPlane) (w : W)
      → Settles p live (settle_dns ops live p w)
  unfolding settle_dns
  settle_dns-Settles live p w =
      let (a, b, c) =
        settle_by (preserve_external p.route_policy p live) (is_empty (select_dns p.route_policy p))
          (select_dns p.route_policy p) live p w in
      record { owned = a; written = b; kept = c }

  -- A DNS pass, once the ownership of the resolver file has been recovered, settles the flags of the
  -- plane: after a success it owns the file exactly if it should, with the selected name servers
  -- noted, and after a failure it is as before.
  pub recompute_dns-Settles :
      (p : ControlPlane) (w : W)
      → Settles (init_dns p (live_of ops w)) (live_of ops w) (recompute_dns ops p w)
  unfolding recompute_dns
  recompute_dns-Settles p w = settle_dns-Settles (live_of ops w) (init_dns p (live_of ops w)) w
