-- ===== src/NetworkState/Legacy.antt =====
-- The legacy Wi-Fi text in terms of platform facts.
use network_service.Prelude.{◌≡◌, ◌↔◌, true, arith, codes}
use network_service.Types.{NetworkSnapshot}
use network_service.NetworkState.{
  WifiRuntimeFact, normalize_wifi, normalize_network_snapshot, legacy_wifi_state,
}
use network_service.NetworkState.Normal.{WifiCarries}

-- After normalisation the legacy text is "connected" exactly if Wi-Fi carries traffic and DNS is
-- available, whatever the DHCP client does and whatever failure it has reported.
pub legacy_connected_iff :
    (s : NetworkSnapshot) (r : WifiRuntimeFact)
    → (legacy_wifi_state (normalize_network_snapshot s r) r ≡ codes "connected")
      ↔ (WifiCarries s r × (s.dns_available ≡ true))
unfolding legacy_wifi_state normalize_network_snapshot normalize_wifi
legacy_connected_iff s r = (λ h. ground arith, λ h. ground arith)
