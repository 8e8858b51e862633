-- ===== src/Tests/EthernetTransaction.antt =====
-- A static address that is asked for, stored and put into effect, and one that the platform refuses.
use network_service.Prelude.{refl, ℕ, false, [], some, inl, codes}
use network_service.Prelude.Int.{pos}
use network_service.Types.{ethernet_preferred, EthernetConfig}
use network_service.PlaneState.{NetworkControlPlaneOps}
use network_service.WifiScan.{idle}
use network_service.EthernetText.{ethernet_config_path}
use network_service.EthernetText.Reading.{IsStorable}
use network_service.EthernetFile.{temp_path_for}
use network_service.Business.{NetworkOperationResult, NetworkDaemon, dispatch_business_request}
use network_service.Business.Requests.{static_params}
use network_service.EthernetTransaction.{
  DaemonState, success, loaded, static_config, apply_ethernet_transaction, ethernet_daemon,
}
use network_service.EthernetTransaction.Atomic.{
  IsTransaction, apply_ethernet_transaction-IsTransaction,
}
use network_service.EthernetTransaction.Requests.{IsAnswered, dispatch-eth_set_static}
use network_service.Tests.ControlPlane.{answer, device}
use network_service.Tests.PlaneRepair.{full}
use network_service.Tests.EthernetFile.{
  answers, empty_disk, IsClean-ip, IsClean-mask, IsClean-dns, IsClean-name, IsClean-empty,
}

abbrev fine : {A : Type 0} → A → NetworkOperationResult A
fine a = record { status = pos 200; value = a; error = [] }

-- The operations that are not about Ethernet answer and change nothing.
abbrev others : NetworkDaemon (DaemonState ℕ)
others = record {
  route_policy_get = λ v. (fine (record { policy = ethernet_preferred; persistent = false }), v);
  route_policy_apply = λ p v. (fine (record { policy = p; persistent = false }), v);
  eth_get_config = λ v. (success (static_config [] [] [] [] []), v);
  eth_set_dhcp = λ v. (success (static_config [] [] [] [] []), v);
  eth_set_static = λ i m g n v. (success (static_config [] i m g n), v);
  wifi_scan_start = λ v. (fine (record { scan_id = 1; state = idle; error = []; records = [] }), v);
  wifi_scan_status =
      λ v. (fine (record { scan_id = 1; state = idle; error = []; records = [] }), v);
  wifi_set_enabled = λ b v. (fine (record { enabled = b }), v);
  wifi_connect =
      λ s p v. (fine (record { requested = s; has_enabled = false; enabled = false }), v);
  wifi_connect_saved =
      λ s v. (fine (record { requested = s; has_enabled = false; enabled = false }), v);
  wifi_list_saved = λ v. (fine [], v);
  wifi_forget = λ s v. (fine (record { requested = s; has_enabled = false; enabled = false }), v);
  wifi_set_autoconnect =
      λ s b v. (fine (record { requested = s; has_enabled = b; enabled = b }), v);
  wifi_disconnect =
      λ v. (fine (record { requested = []; has_enabled = false; enabled = false }), v);
}

abbrev wanted : EthernetConfig
wanted =
    static_config (codes "eth0") (codes "10.0.0.2") (codes "255.0.0.0") [] (codes "1.1.1.1 8.8.8.8")

wanted-IsStorable : IsStorable wanted
wanted-IsStorable = record {
  iface = IsClean-name;
  ip4 = IsClean-ip;
  netmask4 = IsClean-mask;
  gateway4 = IsClean-empty;
  dns4 = IsClean-dns;
  named = refl;
  method = inl refl;
}

abbrev start : DaemonState ℕ
start = record { plane = some device; world = 0; disk = empty_disk }

-- The address cannot be set.
abbrev refusing : NetworkControlPlaneOps ℕ
refusing = record full { apply_ipv4 = some (λ i a n e w. answer false (codes "EADDRINUSE") w) }

apply_ethernet_transaction-IsTransaction_example :
    let path = ethernet_config_path (codes "/data") in
    IsTransaction refusing answers
      (codes "eth0")
      path
      (temp_path_for path 12 0)
      wanted
      (loaded empty_disk (codes "/data") (codes "eth0"))
      (some device)
      0
      empty_disk
      (apply_ethernet_transaction refusing answers 12
        (codes "/data")
        (codes "eth0")
        wanted
        (some device)
        0
        empty_disk)
apply_ethernet_transaction-IsTransaction_example =
    apply_ethernet_transaction-IsTransaction refusing answers 12 (codes "/data") (codes "eth0")
      wanted (some device) 0 empty_disk

dispatch-eth_set_static_example :
    let r =
      dispatch_business_request
        (ethernet_daemon full answers 12 (codes "/data") (codes "eth0") others)
        7
        (codes "eth.set_static")
        (static_params (codes "10.0.0.2") (codes "255.0.0.0") [] (codes "1.1.1.1 8.8.8.8"))
        start in
    IsAnswered 7
      (loaded empty_disk (codes "/data") (codes "eth0"))
      wanted
      (loaded r.1.disk (codes "/data") (codes "eth0"))
      r.0
dispatch-eth_set_static_example =
    dispatch-eth_set_static 7 full answers 12 (codes "/data") (codes "eth0") others
      (codes "10.0.0.2") (codes "255.0.0.0") [] (codes "1.1.1.1 8.8.8.8") start wanted-IsStorable
