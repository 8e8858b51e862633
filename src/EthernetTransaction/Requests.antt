-- ===== src/EthernetTransaction/Requests.antt =====
-- A request of a client for a static address, from its parameters to the file and the response.
use network_service.Prelude.{ℕ, ◌≡◌, refl, sym, ap, ◌∙◌, Bytes, codes}
use mathlib.Core.Path.{subst}
use network_service.Prelude.Int.{pos}
use network_service.Types.{EthernetConfig}
use network_service.PlaneState.{NetworkControlPlaneOps}
use network_service.EthernetText.{load_ethernet_config, ethernet_config_path}
use network_service.EthernetText.Reading.{IsStorable, load_ethernet_config-serialize}
use network_service.EthernetFile.{Answers, temp_path_for}
use network_service.Representation.{ethernet_config_payload}
use network_service.Business.{
  NetworkOperationResult, NetworkDaemon, operation_response, response_error, response_success,
  dispatch_business_request,
}
use network_service.Business.Requests.{static_params, dispatch-static}
use network_service.EthernetTransaction.{
  Transaction, DaemonState, operation, success, loaded, static_config, eth_set_static,
  ethernet_daemon,
}
use network_service.EthernetTransaction.Atomic.{
  IsTransaction, stopped, restored, not_restored, in_effect,
  apply_ethernet_transaction-IsTransaction,
}

-- What the client is told, with what is loaded afterwards.
pub data IsAnswered (id : ℕ) (old desired : EthernetConfig) : EthernetConfig → Bytes → Type 0 where
  refused :
      (text : Bytes)
      → IsAnswered id old desired old (response_error id (pos 500) (codes "OPERATION_FAILED") text)
  stored :
      IsAnswered id old desired desired
        (response_success id (pos 200) (ethernet_config_payload desired))

refused_as :
    {id : ℕ} {old desired now : EthernetConfig} {answer : Bytes} (text : Bytes)
    → now ≡ old
    → answer ≡ response_error id (pos 500) (codes "OPERATION_FAILED") text
    → IsAnswered id old desired now answer
refused_as {id} {old} {desired} {now} {answer} text n e =
    subst (λ c. IsAnswered id old desired c answer) (sym n)
      (subst (λ s. IsAnswered id old desired old s) (sym e) (refused text))

stored_as :
    {id : ℕ} {old desired now : EthernetConfig} {answer : Bytes}
    → now ≡ desired
    → answer ≡ response_success id (pos 200) (ethernet_config_payload desired)
    → IsAnswered id old desired now answer
stored_as {id} {old} {desired} {now} {answer} n e =
    subst (λ c. IsAnswered id old desired c answer) (sym n)
      (subst (λ s. IsAnswered id old desired desired s) (sym e) stored)

module _ {W : Type 0} (id : ℕ) where
  failed_response :
      (r : NetworkOperationResult EthernetConfig) (v : DaemonState W)
      → r.status ≡ pos 500
      → operation_response id ethernet_config_payload (r, v)
        ≡ (response_error id (pos 500) (codes "OPERATION_FAILED") r.error, v)
  unfolding operation_response
  failed_response r v h = rw h refl

  fine_response :
      (r : NetworkOperationResult EthernetConfig) (config : EthernetConfig) (v : DaemonState W)
      → r ≡ success config
      → operation_response id ethernet_config_payload (r, v)
        ≡ (response_success id (pos 200) (ethernet_config_payload config), v)
  unfolding operation_response
  fine_response r config v h = rw h refl

  module _ (ops : NetworkControlPlaneOps W) (a : Answers) (config_dir iface tmp : Bytes)
      (v : DaemonState W) where
    transaction-IsAnswered :
        (desired : EthernetConfig) (t : Transaction W)
        → IsStorable desired
        → IsTransaction ops a iface
            (ethernet_config_path config_dir)
            tmp
            desired
            (loaded v.disk config_dir iface)
            v.plane
            v.world
            v.disk
            t
        → IsAnswered id
            (loaded v.disk config_dir iface)
            desired
            (loaded t.disk config_dir iface)
            (operation_response id ethernet_config_payload (operation t)).0
    transaction-IsAnswered desired t h (stopped r e _ _ l) =
        refused_as r.result.error (ap (λ o. load_ethernet_config o iface) l.at_path)
          (ap (λ x. x.0) (failed_response r.result (operation r).1 e))
    transaction-IsAnswered desired t h (restored p r text _ (_, _, e) l) =
        refused_as r.result.error (ap (λ o. load_ethernet_config o iface) l.at_path) (
          ap (λ x. x.0)
            (failed_response r.result (operation r).1
              (ap (λ (x : NetworkOperationResult EthernetConfig). x.status) e)))
    transaction-IsAnswered desired t h (not_restored p r text _ (_, _, e) l) =
        refused_as r.result.error (ap (λ o. load_ethernet_config o iface) l.at_path) (
          ap (λ x. x.0)
            (failed_response r.result (operation r).1
              (ap (λ (x : NetworkOperationResult EthernetConfig). x.status) e)))
    transaction-IsAnswered desired t h (in_effect p r _ e _ _ l) =
        stored_as
          (ap (λ o. load_ethernet_config o iface) l.at_path
            ∙ load_ethernet_config-serialize desired iface h)
          (ap (λ x. x.0) (fine_response r.result desired (operation r).1 e))

  -- From the parameters of a request, written as JSON, to the file: a request for a static address
  -- whose texts the file can hold gets the response with status 200 and the new configuration, which
  -- is then the one that is loaded, or the one with status 500, and then the loaded configuration is
  -- the one of before, whatever the platform and the system calls answer. A response is the frame
  -- that the service encodes, which has no bytes if its payload exceeds the limit; and texts that
  -- are not UTF-8 are taken like any others.
  pub dispatch-eth_set_static :
      (ops : NetworkControlPlaneOps W) (a : Answers) (pid : ℕ) (config_dir eth_iface : Bytes)
      (others : NetworkDaemon (DaemonState W)) (ip mask gateway dns : Bytes) (v : DaemonState W)
      → IsStorable (static_config eth_iface ip mask gateway dns)
      → let r =
          dispatch_business_request
            (ethernet_daemon ops a pid config_dir eth_iface others)
            id
            (codes "eth.set_static")
            (static_params ip mask gateway dns)
            v in
        IsAnswered id
          (loaded v.disk config_dir eth_iface)
          (static_config eth_iface ip mask gateway dns)
          (loaded r.1.disk config_dir eth_iface)
          r.0
  unfolding eth_set_static operation_response
  dispatch-eth_set_static ops a pid config_dir eth_iface others ip mask gateway dns v h =
      let old = loaded v.disk config_dir eth_iface in
      let desired = static_config eth_iface ip mask gateway dns in
      let tmp = temp_path_for (ethernet_config_path config_dir) pid v.disk.sequence in
      subst (λ r. IsAnswered id old desired (loaded r.1.disk config_dir eth_iface) r.0)
        (sym (
          dispatch-static (ethernet_daemon ops a pid config_dir eth_iface others) id ip mask gateway
            dns v))
        (transaction-IsAnswered ops a config_dir eth_iface tmp v desired _ h (
          apply_ethernet_transaction-IsTransaction ops a pid config_dir eth_iface desired v.plane
            v.world v.disk))
