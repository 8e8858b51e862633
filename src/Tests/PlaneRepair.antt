-- ===== src/Tests/PlaneRepair.antt =====
-- A device whose clients are started, whose leases are read, and whose link drops.
use network_service.Prelude.{
  ℕ, ◌≡◌, refl, Bool, true, false, List, [], ◌∷◌, some, Bytes, codes, text_eq, if◌then◌else◌,
  digits_onto, decimal,
}
use network_service.Types.{wifi_only, bound, DhcpLeaseFact}
use network_service.WifiProfile.{Out}
use network_service.PlaneState.{
  NetworkControlPlaneOps, ControlPlane, init_dns, select_dns, route_allowed, route_metric,
  metric_by, preserve_external,
}
use network_service.ControlPlane.{
  apply_routes, recompute_dns, set_route_policy, converge, apply_eth_route, apply_wifi_route,
  clear_owned_route, ensure_owned_route, settle_dns, release_dns, write_dns,
}
use network_service.ControlPlane.Ledger.{IsLedger}
use network_service.PlaneLinks.{put_ipv4}
use network_service.PlaneRepair.{
  on_eth, fingerprint_of, same_lease, consume_lease, reconcile_link, configure, reconcile_changed,
}
use network_service.PlaneRepair.Lease.{Follows, consume_lease-Follows, reconcile_link-settles}
use network_service.PlaneRepair.Runs.{
  Call, start_client, stop_client, adopt_client, static_address, reconcile_all, reconcile_new,
  refresh, choose_policy, run, run-IsLedger,
}
use network_service.Prelude.Int.{pos}
use network_service.Tests.ControlPlane.{
  answer, platform, device, untouched, names_differ, device-IsLedger,
}

abbrev fact : DhcpLeaseFact
fact = record {
  event = bound;
  iface = codes "eth0";
  generation = codes "1";
  ip4 = codes "10.0.0.7";
  netmask4 = codes "255.0.0.0";
  gateway4 = codes "10.0.0.1";
  dns4 = codes "10.0.0.53";
}

abbrev read_fact : Bytes → Bytes → ℕ → Out (Bool × DhcpLeaseFact × Bool) ℕ
read_fact i e w = record { value = (true, fact, true); error = e; world = w }

abbrev pub full : NetworkControlPlaneOps ℕ
full = record platform {
  start_dhcp = some (λ i e w. answer true e w);
  stop_dhcp = some (λ i w. w);
  read_lease = some read_fact;
  clear_lease = some (λ i w. w);
  apply_ipv4 = some (λ i a n e w. answer true e w);
}

abbrev calls : List Call
calls =
    start_client (codes "eth0")
    ∷ reconcile_all
    ∷ choose_policy wifi_only
    ∷ stop_client (codes "eth0")
    ∷ adopt_client (codes "wlan0")
    ∷ reconcile_new
    ∷ static_address (codes "10.0.0.9") (codes "255.0.0.0") (codes "10.0.0.1") [] (pos 5)
    ∷ refresh
    ∷ []

run-IsLedger_example :
    IsLedger (run full calls device untouched).plane (run full calls device untouched).world
run-IsLedger_example = run-IsLedger full calls device untouched device-IsLedger

consumes : (consume_lease full on_eth (true, fact, true) [] device 0).changed ≡ true
unfolding consume_lease configure put_ipv4 ensure_owned_route clear_owned_route fingerprint_of
    decimal digits_onto text_eq route_allowed route_metric metric_by
consumes = refl

consume_lease-Follows_example :
    Follows device on_eth fact (consume_lease full on_eth (true, fact, true) [] device 0).step
consume_lease-Follows_example =
    consume_lease-Follows full on_eth fact [] device 0 names_differ consumes

reconciles : (reconcile_link full on_eth [] device 0).step.value ≡ true
unfolding reconcile_link consume_lease configure put_ipv4 ensure_owned_route clear_owned_route
    fingerprint_of decimal digits_onto text_eq route_allowed route_metric metric_by
reconciles = refl

reconcile_link-settles_example :
    let q = (reconcile_link full on_eth [] device 0).step.plane in
    reconcile_link full on_eth [] q 4 ≡ same_lease true [] q 4
reconcile_link-settles_example =
    reconcile_link-settles full on_eth fact [] device 0 read_fact names_differ refl (λ i e v. refl)
      refl reconciles [] 4

-- The lease file of Wi-Fi cannot be read for a while.
abbrev wifi_down : NetworkControlPlaneOps ℕ
wifi_down = record full {
  read_lease = some (λ i e w. record {
    value = if text_eq i (codes "eth0") then (true, fact, true) else (false, fact, false);
    error = codes "EIO";
    world = w;
  });
}

-- The new lease of Ethernet is consumed in a pass that fails on Wi-Fi, and the pass after it
-- finds nothing new and writes no name servers, unless the resolver was never looked at.
abbrev served : ControlPlane
served = record device { dns_ownership_initialized = true }

lost_change :
    let first = reconcile_changed wifi_down served 0 in
    let second =
      reconcile_changed
        (record wifi_down {
          read_lease = some (λ i e w. record {
            value = (true, fact, text_eq i (codes "eth0"));
            error = e;
            world = w;
          });
        })
        first.step.plane
        first.step.world in
    (first.changed ≡ false)
    × (first.step.plane.eth.lease ≡ fact)
    × (second.step.value ≡ true)
    × (second.changed ≡ false)
    × (second.step.plane.managed_dns ≡ false)
unfolding reconcile_changed reconcile_link consume_lease configure put_ipv4 ensure_owned_route
    clear_owned_route fingerprint_of decimal digits_onto text_eq route_allowed route_metric
    metric_by
lost_change = (refl, refl, refl, refl, refl)

-- Under the policy that allows Wi-Fi only, its route is the one that is left.
after_policy : (set_route_policy full wifi_only device 0).plane.eth_route.active ≡ false
unfolding set_route_policy converge recompute_dns init_dns settle_dns release_dns write_dns
    preserve_external select_dns apply_routes apply_eth_route apply_wifi_route ensure_owned_route
    clear_owned_route route_allowed route_metric metric_by text_eq
after_policy = refl
