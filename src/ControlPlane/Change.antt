-- ===== src/ControlPlane/Change.antt =====
-- A change of the route policy and its roll-back: the routes and the resolver file that are in force
-- afterwards.
use network_service.Prelude.{◌≡◌, Bool, true, false}
use network_service.Types.{RoutePolicy, NetworkSnapshot}
use network_service.PlaneState.{NetworkControlPlaneOps, ControlPlane}
use network_service.ControlPlane.{Step, apply_routes, recompute_dns, converge}
use network_service.ControlPlane.Policy.{Keeps}
use network_service.ControlPlane.Wanted.{Agrees, wanted_eth, wanted_wifi}
use network_service.ControlPlane.Resolver.{Holds, chosen_dns}

-- Each interface owns the route that the facts and the policy of `p` ask for.
abbrev pub Routed : ControlPlane → ControlPlane → Type 0
Routed p q = Agrees q.eth_route (wanted_eth p) × Agrees q.wifi_route (wanted_wifi p)

-- The resolver file is what `looked` asks for, a plane with the policy and the facts of `s.plane`,
-- the system being in the state `live`.
pub record Named {W : Type 0} (read : W → NetworkSnapshot) (s : Step W) : Type 0 where
  pub looked : ControlPlane
  pub live : NetworkSnapshot
  pub same : Keeps looked s
  pub holds : Holds read looked live s (chosen_dns looked live)

-- What a change of the policy of `p` leaves. `attempt` is where the attempt under the new policy
-- ended, and the two parts of the roll-back follow it.
pub record IsChange {W : Type 0} (ops : NetworkControlPlaneOps W) (read : W → NetworkSnapshot)
    (policy : RoutePolicy) (p : ControlPlane) (w : W) (s : Step W) : Type 0 where
  pub chosen : s.value ≡ true → Keeps (record p { route_policy = policy }) s
  pub routed : s.value ≡ true → Routed (record p { route_policy = policy }) s.plane
  pub named : s.value ≡ true → Named read s
  pub former : s.value ≡ false → Keeps p s
  pub routed_again :
      s.value ≡ false
      → let attempt = converge ops (record p { route_policy = policy }) w in
        let old = record attempt.plane { route_policy = p.route_policy } in
        (apply_routes ops old attempt.world).value ≡ true → Routed p s.plane
  pub named_again :
      s.value ≡ false
      → let attempt = converge ops (record p { route_policy = policy }) w in
        let old = record attempt.plane { route_policy = p.route_policy } in
        let routes = apply_routes ops old attempt.world in
        (recompute_dns ops routes.plane routes.world).value ≡ true → Named read s
