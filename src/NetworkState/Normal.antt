-- ===== src/NetworkState/Normal.antt =====
-- The normaliser: what it decides, what it keeps, and that once is enough.
use network_service.Prelude.{
  ◌≡◌, ◌≢◌, ◌↔◌, ◌⊎◌, ◌∙◌, refl, inl, inr, Bool, true, false, [], arith, Bool-cases, Bytes, not,
  ◌&&◌, ◌||◌, if◌then◌else◌,
}
use network_service.Prelude.Int.{◌<ℤ◌, ltb_ℤ}
use network_service.Types.{WifiL2State, no_ip, InterfaceSnapshot, NetworkSnapshot}
use network_service.NetworkState.{
  WifiRuntimeFact, normalize_eth, normalize_wifi, select_primary, normalize_network_snapshot,
  eth_usable, wifi_usable,
}

normalize_eth_idem : (e : InterfaceSnapshot) → normalize_eth (normalize_eth e) ≡ normalize_eth e
unfolding normalize_eth
normalize_eth_idem e = ground arith

normalize_wifi_idem :
    (w : InterfaceSnapshot) (r : WifiRuntimeFact)
    → normalize_wifi (normalize_wifi w r) r ≡ normalize_wifi w r
unfolding normalize_wifi
normalize_wifi_idem w r = ground arith

-- Normalising a normalised snapshot under the same Wi-Fi fact changes nothing.
pub normalize_network_snapshot_idem :
    (s : NetworkSnapshot) (r : WifiRuntimeFact)
    → normalize_network_snapshot (normalize_network_snapshot s r) r ≡ normalize_network_snapshot s r
unfolding normalize_network_snapshot
normalize_network_snapshot_idem s r = rw (normalize_eth_idem s.eth, normalize_wifi_idem s.wifi r)

-- The fields that the normaliser derives, cleared.
abbrev pub raw_interface : InterfaceSnapshot → InterfaceSnapshot
raw_interface i = record i {
  connected = false;
  ip_state = no_ip;
  wifi_l2_state = WifiL2State.unknown;
}

abbrev pub raw : NetworkSnapshot → NetworkSnapshot
raw s = record s {
  eth = raw_interface s.eth;
  wifi = raw_interface s.wifi;
  primary_iface = [];
  network_ready = false;
  online = false;
}

-- The normaliser changes no platform fact: only the connected flags, the IP and Wi-Fi states, the
-- primary interface and the two readiness flags.
pub raw-normalize_network_snapshot :
    (s : NetworkSnapshot) (r : WifiRuntimeFact) → raw (normalize_network_snapshot s r) ≡ raw s
unfolding normalize_network_snapshot normalize_eth normalize_wifi
raw-normalize_network_snapshot s r = refl

-- In terms of platform facts alone: Ethernet has carrier, address and default route; Wi-Fi has
-- address and default route, and WPA says that it is connected or has said nothing yet.
pub record EthCarries (s : NetworkSnapshot) : Type 0 where
  pub carrier : s.eth.carrier_up ≡ true
  pub address : s.eth.has_ip ≡ true
  pub route : s.eth.has_default_route ≡ true

pub record WifiCarries (s : NetworkSnapshot) (r : WifiRuntimeFact) : Type 0 where
  pub linked : (r.l2_state ≡ WifiL2State.connected) ⊎ (r.l2_state ≡ WifiL2State.unknown)
  pub address : s.wifi.has_ip ≡ true
  pub route : s.wifi.has_default_route ≡ true

pub eth_usable_iff :
    (s : NetworkSnapshot) → (eth_usable (normalize_eth s.eth) ≡ true) ↔ EthCarries s
unfolding eth_usable normalize_eth
eth_usable_iff s = (λ h. ground arith, λ h. ground arith)

pub wifi_usable_iff :
    (s : NetworkSnapshot) (r : WifiRuntimeFact)
    → (wifi_usable (normalize_wifi s.wifi r) ≡ true) ↔ WifiCarries s r
unfolding wifi_usable normalize_wifi
wifi_usable_iff s r = (λ h. ground arith, λ h. ground arith)

false_of {ℓ} : {P : Type ℓ} (b : Bool) → (b ≡ true) ↔ P → ¬ P → b ≡ false
false_of true h np = absurd (np (h.0 refl))
false_of false h np = refl

primary_iface_lem :
    (s : NetworkSnapshot) (r : WifiRuntimeFact)
    → (normalize_network_snapshot s r).primary_iface ≡ (
        if wifi_usable (normalize_wifi s.wifi r)
          && (not (eth_usable (normalize_eth s.eth))
              || ltb_ℤ s.wifi.route_metric s.eth.route_metric)
        then s.wifi.iface
        else if eth_usable (normalize_eth s.eth)
        then s.eth.iface
        else [])
unfolding normalize_network_snapshot select_primary normalize_eth normalize_wifi
primary_iface_lem s r = refl

-- How the primary interface follows from platform facts.
pub record Selects (s : NetworkSnapshot) (r : WifiRuntimeFact) (primary : Bytes) : Type 0 where
  pub takes_wifi :
      WifiCarries s r
      → (¬ EthCarries s) ⊎ (s.wifi.route_metric <ℤ s.eth.route_metric)
      → primary ≡ s.wifi.iface
  pub takes_eth :
      EthCarries s
      → (¬ WifiCarries s r) ⊎ (¬ (s.wifi.route_metric <ℤ s.eth.route_metric))
      → primary ≡ s.eth.iface
  pub takes_none : ¬ EthCarries s → ¬ WifiCarries s r → primary ≡ []

-- Wi-Fi is primary if it carries traffic and Ethernet does not or has the larger metric; Ethernet
-- if it carries traffic and Wi-Fi does not or has no smaller metric; with neither there is none.
pub primary_iface-Selects :
    (s : NetworkSnapshot) (r : WifiRuntimeFact)
    → Selects s r (normalize_network_snapshot s r).primary_iface
primary_iface-Selects s r = record {
  takes_wifi = λ w c. elim c [
    | inl ne ↦
        ground (
          arith,
          primary_iface_lem s r,
          (wifi_usable_iff s r).1 w,
          false_of _ (eth_usable_iff s) ne,
        )
    | inr lower ↦ ground (arith, primary_iface_lem s r, (wifi_usable_iff s r).1 w)
  ];
  takes_eth = λ e c. elim c [
    | inl nw ↦
        ground (
          arith,
          primary_iface_lem s r,
          (eth_usable_iff s).1 e,
          false_of _ (wifi_usable_iff s r) nw,
        )
    | inr higher ↦ ground (arith, primary_iface_lem s r, (eth_usable_iff s).1 e)
  ];
  takes_none = λ ne nw. ground (
    arith,
    primary_iface_lem s r,
    false_of _ (eth_usable_iff s) ne,
    false_of _ (wifi_usable_iff s r) nw,
  );
}

network_ready-online :
    (s : NetworkSnapshot) (r : WifiRuntimeFact)
    → (normalize_network_snapshot s r).network_ready ≡ (normalize_network_snapshot s r).online
unfolding normalize_network_snapshot
network_ready-online s r = refl

online_lem :
    (s : NetworkSnapshot) (r : WifiRuntimeFact)
    → (normalize_network_snapshot s r).online ≡ true
    → ((normalize_network_snapshot s r).primary_iface ≢ []) × (s.dns_available ≡ true)
unfolding normalize_network_snapshot
online_lem s r h = (λ e. ground arith, ground arith)

-- The service calls itself online only if DNS is configured and an interface carries traffic, and
-- then the primary interface is one that does.
pub online-carries :
    (s : NetworkSnapshot) (r : WifiRuntimeFact)
    → (normalize_network_snapshot s r).online ≡ true
    → (s.dns_available ≡ true)
      × ((normalize_network_snapshot s r).network_ready ≡ true)
      × (EthCarries s × ((normalize_network_snapshot s r).primary_iface ≡ s.eth.iface)
          ⊎ WifiCarries s r × ((normalize_network_snapshot s r).primary_iface ≡ s.wifi.iface))
online-carries s r h =
    let (named, dns) = online_lem s r h in
    let eu = eth_usable (normalize_eth s.eth) in
    let wu = wifi_usable (normalize_wifi s.wifi r) in
    let lower = ltb_ℤ s.wifi.route_metric s.eth.route_metric in
    (
      dns,
      network_ready-online s r ∙ h,
      elim (Bool-cases (wu && (not eu || lower))) [
        | inl w ↦
            inr ((wifi_usable_iff s r).0 (ground arith), ground (arith, primary_iface_lem s r))
        | inr nw ↦ elim (Bool-cases eu) [
          | inl e ↦ inl ((eth_usable_iff s).0 e, ground (arith, primary_iface_lem s r))
          | inr ne ↦ absurd (ground (arith, primary_iface_lem s r))
        ]
      ],
    )
