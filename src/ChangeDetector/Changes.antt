-- ===== src/ChangeDetector/Changes.antt =====
-- What the detector compares: a snapshot with the fields cleared that carry no meaning for it.
use network_service.Prelude.{
  ◌≡◌, ◌↔◌, refl, ap, Bool, true, false, not, ◌&&◌, ◌||◌, arith, text_eq_iff,
}
use network_service.Prelude.Int.{pos, eqb_ℤ_iff}
use network_service.Types.{RoutePolicy, WifiL2State, IpState, InterfaceSnapshot, NetworkSnapshot}
use network_service.ChangeDetector.{
  bool_eq, policy_eq, ip_state_eq, l2_state_eq, interface_semantically_equal, any,
  NetworkStateChangeDetector, route_changed, dns_changed, observe,
}

abbrev pub eth_meaning : InterfaceSnapshot → InterfaceSnapshot
eth_meaning i = record i {
  wifi_l2_state = WifiL2State.unknown;
  signal_dbm = pos 0;
  signal_bars = pos 0;
}

abbrev pub wifi_meaning : InterfaceSnapshot → InterfaceSnapshot
wifi_meaning i = record i { signal_dbm = pos 0 }

bool_eq_iff : (a b : Bool) → (bool_eq a b ≡ true) ↔ (a ≡ b)
bool_eq_iff a b = ground arith

policy_eq_iff : (a b : RoutePolicy) → (policy_eq a b ≡ true) ↔ (a ≡ b)
policy_eq_iff a b = ground arith

ip_state_eq_iff : (a b : IpState) → (ip_state_eq a b ≡ true) ↔ (a ≡ b)
ip_state_eq_iff a b = ground arith

l2_state_eq_iff : (a b : WifiL2State) → (l2_state_eq a b ≡ true) ↔ (a ≡ b)
l2_state_eq_iff a b = ground arith

infixl 35 ◌both◌
◌both◌ {ℓ κ} :
    {P : Type ℓ} {Q : Type κ} {a b : Bool}
    → (a ≡ true) ↔ P
    → (b ≡ true) ↔ Q
    → ((a && b) ≡ true) ↔ (P × Q)
◌both◌ {a = true} hp hq = (λ h. (hp.0 refl, hq.0 h), λ h. hq.1 h.1)
◌both◌ {a = false} hp hq = (λ h. cc, λ h. hp.1 h.0)

-- The fields that both interfaces are compared by, up to the IP state.
record SameFields (l r : InterfaceSnapshot) : Type 0 where
  iface : l.iface ≡ r.iface
  exists : l.exists ≡ r.exists
  carrier_up : l.carrier_up ≡ r.carrier_up
  has_ip : l.has_ip ≡ r.has_ip
  ip4 : l.ip4 ≡ r.ip4
  netmask4 : l.netmask4 ≡ r.netmask4
  has_default_route : l.has_default_route ≡ r.has_default_route
  gateway4 : l.gateway4 ≡ r.gateway4
  route_metric : l.route_metric ≡ r.route_metric
  enabled : l.enabled ≡ r.enabled
  connected : l.connected ≡ r.connected
  ip_state : l.ip_state ≡ r.ip_state
  ssid : l.ssid ≡ r.ssid

guard_iff {ℓ} :
    {P : Type ℓ} (on b : Bool) → (b ≡ true) ↔ P → ((not on || b) ≡ true) ↔ (on ≡ true → P)
guard_iff true b h = (λ e _. h.0 e, λ f. h.1 (f refl))
guard_iff false b h = (λ _ e. cc, λ _. refl)

equal_parts :
    (l r : InterfaceSnapshot) (truth bars : Bool)
    → (interface_semantically_equal l r truth bars ≡ true) ↔ (
        SameFields l r
        × (truth ≡ true → l.wifi_l2_state ≡ r.wifi_l2_state)
        × (bars ≡ true → l.signal_bars ≡ r.signal_bars))
unfolding interface_semantically_equal
equal_parts l r truth bars =
    let all =
      text_eq_iff l.iface r.iface
      both bool_eq_iff l.exists r.exists
      both bool_eq_iff l.carrier_up r.carrier_up
      both bool_eq_iff l.has_ip r.has_ip
      both text_eq_iff l.ip4 r.ip4
      both text_eq_iff l.netmask4 r.netmask4
      both bool_eq_iff l.has_default_route r.has_default_route
      both text_eq_iff l.gateway4 r.gateway4
      both eqb_ℤ_iff l.route_metric r.route_metric
      both bool_eq_iff l.enabled r.enabled
      both bool_eq_iff l.connected r.connected
      both ip_state_eq_iff l.ip_state r.ip_state
      both guard_iff truth _ (l2_state_eq_iff l.wifi_l2_state r.wifi_l2_state)
      both text_eq_iff l.ssid r.ssid
      both guard_iff bars _ (eqb_ℤ_iff l.signal_bars r.signal_bars) in
    (
      λ h.
          let v = all.0 h in
          (
            record {
              iface = v.0.0.0.0.0.0.0.0.0.0.0.0.0.0;
              exists = v.0.0.0.0.0.0.0.0.0.0.0.0.0.1;
              carrier_up = v.0.0.0.0.0.0.0.0.0.0.0.0.1;
              has_ip = v.0.0.0.0.0.0.0.0.0.0.0.1;
              ip4 = v.0.0.0.0.0.0.0.0.0.0.1;
              netmask4 = v.0.0.0.0.0.0.0.0.0.1;
              has_default_route = v.0.0.0.0.0.0.0.0.1;
              gateway4 = v.0.0.0.0.0.0.0.1;
              route_metric = v.0.0.0.0.0.0.1;
              enabled = v.0.0.0.0.0.1;
              connected = v.0.0.0.0.1;
              ip_state = v.0.0.0.1;
              ssid = v.0.1;
            },
            v.0.0.1,
            v.1,
          ),
      λ (s, w, u). all.1 (
        (
          (
            (
              (
                (
                  (
                    (
                      (
                        (((((s.iface, s.exists), s.carrier_up), s.has_ip), s.ip4), s.netmask4),
                        s.has_default_route,
                      ),
                      s.gateway4,
                    ),
                    s.route_metric,
                  ),
                  s.enabled,
                ),
                s.connected,
              ),
              s.ip_state,
            ),
            w,
          ),
          s.ssid,
        ),
        u,
      ),
    )

eth_equal_iff :
    (l r : InterfaceSnapshot)
    → (interface_semantically_equal l r false false ≡ true) ↔ (eth_meaning l ≡ eth_meaning r)
eth_equal_iff l r = (
  λ h. let (s, _, _) = (equal_parts l r false false).0 h in ground arith,
  λ e. (equal_parts l r false false).1 (ground arith, λ x. cc, λ x. cc),
)

wifi_equal_iff :
    (l r : InterfaceSnapshot)
    → (interface_semantically_equal l r true true ≡ true) ↔ (wifi_meaning l ≡ wifi_meaning r)
wifi_equal_iff l r = (
  λ h. let (s, w, u) = (equal_parts l r true true).0 h in ground (arith, w refl, u refl),
  λ e. (equal_parts l r true true).1 (ground arith, λ _. ground arith, λ _. ground arith),
)

route_changed_iff :
    (p s : NetworkSnapshot)
    → (route_changed p s ≡ false) ↔ (
        (p.route_policy ≡ s.route_policy)
        × (p.primary_iface ≡ s.primary_iface)
        × (p.network_ready ≡ s.network_ready)
        × (p.online ≡ s.online))
unfolding route_changed
route_changed_iff p s = ground (
  arith,
  text_eq_iff p.primary_iface s.primary_iface,
  policy_eq_iff p.route_policy s.route_policy,
)

dns_changed_iff :
    (p s : NetworkSnapshot)
    → (dns_changed p s ≡ false)
      ↔ ((p.dns_policy ≡ s.dns_policy) × (p.dns_available ≡ s.dns_available) × (p.dns4 ≡ s.dns4))
unfolding dns_changed
dns_changed_iff p s = ground (arith, text_eq_iff p.dns4 s.dns4)

-- A snapshot without what the detector does not look at: the Wi-Fi state and signal of Ethernet,
-- the signal strength of Wi-Fi in dBm, and the resolver's ownership mark.
abbrev pub meaning : NetworkSnapshot → NetworkSnapshot
meaning s = record s {
  eth = eth_meaning s.eth;
  wifi = wifi_meaning s.wifi;
  dns_managed_by_network_service = false;
}

-- The four comparisons of `observe`, all silent.
abbrev Quiet : NetworkSnapshot → NetworkSnapshot → Type 0
Quiet p s =
    (interface_semantically_equal p.eth s.eth false false ≡ true)
    × (interface_semantically_equal p.wifi s.wifi true true ≡ true)
    × (route_changed p s ≡ false)
    × (dns_changed p s ≡ false)

Quiet-meaning : (p s : NetworkSnapshot) → Quiet p s → meaning p ≡ meaning s
Quiet-meaning p s (e, w, r, d) = ground (
  arith,
  (eth_equal_iff p.eth s.eth).0 e,
  (wifi_equal_iff p.wifi s.wifi).0 w,
  (route_changed_iff p s).0 r,
  (dns_changed_iff p s).0 d,
)

meaning-Quiet : (p s : NetworkSnapshot) → meaning p ≡ meaning s → Quiet p s
meaning-Quiet p s m = (
  (eth_equal_iff p.eth s.eth).1 (ap (λ x. x.eth) m),
  (wifi_equal_iff p.wifi s.wifi).1 (ap (λ x. x.wifi) m),
  (route_changed_iff p s).1 (ground arith),
  (dns_changed_iff p s).1 (ground arith),
)

observe-Quiet :
    (d : NetworkStateChangeDetector) (s : NetworkSnapshot)
    → d.initialized ≡ true
    → (any (observe d s).1 ≡ false) ↔ Quiet d.previous s
unfolding any observe
observe-Quiet d s init = ground arith

-- An initialised detector reports no change exactly if the snapshot means the same as the last.
pub any-observe_iff :
    (d : NetworkStateChangeDetector) (s : NetworkSnapshot)
    → d.initialized ≡ true
    → (any (observe d s).1 ≡ false) ↔ (meaning d.previous ≡ meaning s)
any-observe_iff d s init = (
  λ h. Quiet-meaning d.previous s ((observe-Quiet d s init).0 h),
  λ m. (observe-Quiet d s init).1 (meaning-Quiet d.previous s m),
)
