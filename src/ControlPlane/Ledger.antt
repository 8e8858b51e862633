-- ===== src/ControlPlane/Ledger.antt =====
-- Ports that write down every call on a default route with its answer, and the routes that the
-- service owns by that ledger. An adopted interface starts again without a route.
use network_service.Prelude.{
  ◌≡◌, Bool, true, false, ◌&&◌, List, [], ◌∷◌, Bytes, if◌then◌else◌, text_eq,
}
use network_service.Prelude.Int.{ℤ}
use mathlib.Core.Option
use network_service.WifiProfile.{Out}
use network_service.PlaneState.{NetworkControlPlaneOps, ControlPlane, OwnedRouteState, no_route}

pub data RouteCall : Type 0 where
  put : Bytes → Bytes → ℤ → Bool → RouteCall
  dropped : Bytes → Bytes → ℤ → Bool → RouteCall
  adopted : Bytes → RouteCall

-- The platform's own world, and the calls so far, the last one first.
pub record Ledgered (W : Type 0) : Type 0 where
  pub inner : W
  pub calls : List RouteCall

abbrev pub owned_by : Bytes → List RouteCall → OwnedRouteState
owned_by i [] = no_route
owned_by i (put j g m ok ∷ cs) =
    let rest = owned_by i cs in
    if ok && text_eq i j then record { active = true; gateway4 = g; metric = m } else rest
owned_by i (dropped j g m ok ∷ cs) =
    let rest = owned_by i cs in if ok && text_eq i j then no_route else rest
owned_by i (adopted j ∷ cs) = let rest = owned_by i cs in if text_eq i j then no_route else rest

-- Every route that was asked to be dropped was one that the service owned then, under that gateway
-- and metric.
abbrev pub OwnsDropped : List RouteCall → Type 0
OwnsDropped [] = Unit
OwnsDropped (put i g m ok ∷ cs) = OwnsDropped cs
OwnsDropped (dropped i g m ok ∷ cs) =
    (owned_by i cs ≡ record { active = true; gateway4 = g; metric = m }) × OwnsDropped cs
OwnsDropped (adopted i ∷ cs) = OwnsDropped cs

module _ {W : Type 0} where
  abbrev pub within : {A : Type 0} → List RouteCall → Out A W → Out A (Ledgered W)
  within calls o = record {
    value = o.value;
    error = o.error;
    world = record { inner = o.world; calls = calls };
  }

  abbrev pub noted : (Bool → RouteCall) → List RouteCall → Out Bool W → Out Bool (Ledgered W)
  noted call calls o = within (call o.value ∷ calls) o

  abbrev pub noting : NetworkControlPlaneOps W → NetworkControlPlaneOps (Ledgered W)
  noting ops = record {
    start_dhcp = Option.map (λ f i e w. within w.calls (f i e w.inner)) ops.start_dhcp;
    stop_dhcp = Option.map (λ f i w. record { inner = f i w.inner; calls = w.calls }) ops.stop_dhcp;
    read_lease = Option.map (λ f i e w. within w.calls (f i e w.inner)) ops.read_lease;
    clear_lease =
        Option.map (λ f i w. record { inner = f i w.inner; calls = w.calls }) ops.clear_lease;
    apply_ipv4 = Option.map (λ f i a n e w. within w.calls (f i a n e w.inner)) ops.apply_ipv4;
    clear_ipv4 = Option.map (λ f i e w. within w.calls (f i e w.inner)) ops.clear_ipv4;
    set_default_route =
        Option.map (λ f i g m e w. noted (put i g m) w.calls (f i g m e w.inner))
          ops.set_default_route;
    clear_default_route =
        Option.map (λ f i g m e w. noted (dropped i g m) w.calls (f i g m e w.inner))
          ops.clear_default_route;
    set_dns = Option.map (λ f s e w. within w.calls (f s e w.inner)) ops.set_dns;
    clear_dns = Option.map (λ f e w. within w.calls (f e w.inner)) ops.clear_dns;
    snapshot = Option.map (λ f w. f w.inner) ops.snapshot;
  }

  -- The plane's routes are those of the ledger, and only own routes were dropped.
  pub record IsLedger (p : ControlPlane) (w : Ledgered W) : Type 0 where
    pub distinct : text_eq p.wifi_iface p.eth_iface ≡ false
    pub apart : text_eq p.eth_iface p.wifi_iface ≡ false
    pub eth : p.eth_route ≡ owned_by p.eth_iface w.calls
    pub wifi : p.wifi_route ≡ owned_by p.wifi_iface w.calls
    pub own_dropped : OwnsDropped w.calls
