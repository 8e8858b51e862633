-- ===== src/PlaneRepair/Runs.antt =====
-- Any order of calls of the control plane's operations. The mutex makes each call one step.
use network_service.Prelude.{true, List, [], ◌∷◌, Bytes}
use network_service.Prelude.Int.{ℤ}
use network_service.Types.{RoutePolicy}
use network_service.PlaneState.{NetworkControlPlaneOps, ControlPlane}
use network_service.ControlPlane.{Step, stand, recompute_dns, set_route_policy}
use network_service.ControlPlane.Ledger.{Ledgered, noting, IsLedger}
use network_service.ControlPlane.Routes.{recompute_dns-IsLedger, set_route_policy-IsLedger}
use network_service.PlaneLinks.{start_dhcp, stop_dhcp, adopt_dhcp, apply_ethernet_static}
use network_service.PlaneLinks.Kept.{
  note_adoption, start_dhcp-IsLedger, stop_dhcp-IsLedger, apply_ethernet_static-IsLedger,
  adopt_dhcp-IsLedger,
}
use network_service.PlaneRepair.{reconcile, reconcile_changed, refresh_external_state}
use network_service.PlaneRepair.Operations.{
  refresh_external_state-Kept, reconcile-Kept, reconcile_changed-Kept,
}

pub data Call : Type 0 where
  start_client stop_client adopt_client : Bytes → Call
  static_address : Bytes → Bytes → Bytes → Bytes → ℤ → Call
  reconcile_all reconcile_new refresh dns_pass : Call
  choose_policy : RoutePolicy → Call

module _ {W : Type 0} (ops : NetworkControlPlaneOps W) where
  -- One call, the adoption of a client written into the ledger.
  unfoldable pub perform : Call → ControlPlane → Ledgered W → Step (Ledgered W)
  perform (start_client iface) p w = start_dhcp (noting ops) iface p w
  perform (stop_client iface) p w = stop_dhcp (noting ops) iface p w
  perform (adopt_client iface) p w = note_adoption ops iface (adopt_dhcp (noting ops) iface p w)
  perform (static_address ip4 netmask4 gateway4 dns4 metric) p w =
      apply_ethernet_static (noting ops) ip4 netmask4 gateway4 dns4 metric p w
  perform reconcile_all p w = reconcile (noting ops) p w
  perform reconcile_new p w = (reconcile_changed (noting ops) p w).step
  perform refresh p w = refresh_external_state (noting ops) p w
  perform dns_pass p w = recompute_dns (noting ops) p w
  perform (choose_policy policy) p w = set_route_policy (noting ops) policy p w

  perform-IsLedger :
      (c : Call) (p : ControlPlane) (w : Ledgered W)
      → IsLedger p w
      → IsLedger (perform c p w).plane (perform c p w).world
  unfolding perform
  perform-IsLedger (start_client iface) p w h = (start_dhcp-IsLedger ops iface p w h).ledger
  perform-IsLedger (stop_client iface) p w h = (stop_dhcp-IsLedger ops iface p w h).ledger
  perform-IsLedger (adopt_client iface) p w h = (adopt_dhcp-IsLedger ops iface p w h).ledger
  perform-IsLedger (static_address ip4 netmask4 gateway4 dns4 metric) p w h =
      (apply_ethernet_static-IsLedger ops ip4 netmask4 gateway4 dns4 metric p w h).ledger
  perform-IsLedger reconcile_all p w h = (reconcile-Kept ops p w h).ledger
  perform-IsLedger reconcile_new p w h = (reconcile_changed-Kept ops p w h).ledger
  perform-IsLedger refresh p w h = (refresh_external_state-Kept ops p w h).ledger
  perform-IsLedger dns_pass p w h = recompute_dns-IsLedger ops p w h
  perform-IsLedger (choose_policy policy) p w h = set_route_policy-IsLedger ops policy p w h

  unfoldable pub run : List Call → ControlPlane → Ledgered W → Step (Ledgered W)
  run [] p w = stand true [] p w
  run (c ∷ cs) p w = let s = perform c p w in run cs s.plane s.world

  -- From a plane whose interfaces have different names and whose owned routes are those of the
  -- ledger, whatever the platform answers, and in any order of the operations (clients started,
  -- stopped and adopted, static addresses, both kinds of reconciliation, repairs, passes over the
  -- resolver and policy changes): the routes that the service takes for its own are those that its
  -- successful calls leave since the interface was last adopted, and every route that it asked to
  -- drop it owned then, under that very gateway and metric.
  pub run-IsLedger :
      (cs : List Call) (p : ControlPlane) (w : Ledgered W)
      → IsLedger p w
      → IsLedger (run cs p w).plane (run cs p w).world
  unfolding run
  run-IsLedger [] p w h = h
  run-IsLedger (c ∷ cs) p w h =
      let s = perform c p w in run-IsLedger cs s.plane s.world (perform-IsLedger c p w h)
