-- ===== src/EthernetTransaction.antt =====
-- `apply_ethernet_transaction` of src/service/network_daemon.cpp, and the operations of the daemon
-- that use it: a new Ethernet configuration is staged, put into effect and committed, or the one of
-- before is put back. `none` is the null control plane. The ports of the plane do not touch the disk
-- of the configuration.
pub mod Atomic
pub mod Requests
use network_service.Prelude.{
  ℕ, Bool, true, false, not, [], ◌++◌, Option, none, some, if◌then◌else◌, is_empty, Bytes, codes,
  text_eq,
}
use network_service.Prelude.Int.{ℤ, pos}
use network_service.Types.{EthernetConfig}
use network_service.PlaneState.{NetworkControlPlaneOps, ControlPlane}
use network_service.ControlPlane.{Step}
use network_service.PlaneLinks.{start_dhcp, apply_ethernet_static}
use network_service.EthernetText.{load_ethernet_config, default_config, ethernet_config_path}
use network_service.EthernetFile.{
  Answers, Disk, EthernetConfigStage, no_stage, Staged, stage_ethernet_config,
  discard_ethernet_config, Committed, commit_ethernet_config, commit_failed, committed_durable,
  committed_durability_uncertain,
}
use network_service.Business.{NetworkOperationResult, NetworkDaemon}

abbrev pub success : EthernetConfig → NetworkOperationResult EthernetConfig
success config = record { status = pos 200; value = config; error = [] }

abbrev pub failure : ℤ → Bytes → NetworkOperationResult EthernetConfig
failure status error = record { status = status; value = default_config []; error = error }

abbrev pub failure_with_rollback : Bytes → Bytes → Bytes
failure_with_rollback failure rollback_error =
    if is_empty rollback_error
    then failure
    else failure ++ (codes "; rollback_failed: " ++ rollback_error)

abbrev pub text_or : Bytes → Bytes → Bytes
text_or error fallback = if is_empty error then fallback else error

-- The configuration that the daemon loads from a disk.
abbrev pub loaded : Disk → Bytes → Bytes → EthernetConfig
loaded d config_dir iface = load_ethernet_config (d.content (ethernet_config_path config_dir)) iface

pub record Transaction (W : Type 0) : Type 0 where
  pub result : NetworkOperationResult EthernetConfig
  pub plane : Option ControlPlane
  pub world : W
  pub disk : Disk

abbrev pub dhcp_config : Bytes → EthernetConfig
dhcp_config iface = record {
  iface = iface;
  method = codes "dhcp";
  ip4 = [];
  netmask4 = [];
  gateway4 = [];
  dns4 = [];
  route_metric = pos 10;
  dns_enabled = true;
}

abbrev pub static_config : Bytes → Bytes → Bytes → Bytes → Bytes → EthernetConfig
static_config iface ip mask gateway dns = record {
  iface = iface;
  method = codes "static";
  ip4 = ip;
  netmask4 = mask;
  gateway4 = gateway;
  dns4 = dns;
  route_metric = pos 10;
  dns_enabled = not (is_empty dns);
}

-- What the daemon's operations work on.
pub record DaemonState (W : Type 0) : Type 0 where
  pub plane : Option ControlPlane
  pub world : W
  pub disk : Disk

abbrev pub operation :
    {W : Type 0} → Transaction W → NetworkOperationResult EthernetConfig × DaemonState W
operation t = (t.result, record { plane = t.plane; world = t.world; disk = t.disk })

module _ {W : Type 0} (ops : NetworkControlPlaneOps W) where
  unfoldable pub apply_ethernet_runtime : Bytes → EthernetConfig → ControlPlane → W → Step W
  unfolding apply_ethernet_static start_dhcp
  apply_ethernet_runtime iface config p w =
      if text_eq config.method (codes "static")
      then apply_ethernet_static ops config.ip4 config.netmask4 config.gateway4
          (if config.dns_enabled then config.dns4 else []) config.route_metric p w
      else start_dhcp ops iface p w

  -- The stage is discarded, and the plane is asked for the previous configuration again.
  abbrev pub undo_runtime :
      Answers → Bytes → EthernetConfig → Bytes → EthernetConfigStage → Disk → Step W → Transaction W
  undo_runtime a iface previous text stage d s =
      let back = apply_ethernet_runtime iface previous s.plane s.world in
      record {
        result = failure (pos 500) (failure_with_rollback text back.error);
        plane = some back.plane;
        world = back.world;
        disk = (discard_ethernet_config a.discarded stage d).1;
      }

  abbrev pub after_commit :
      Answers → Bytes → EthernetConfig → EthernetConfig → Committed → Step W → Transaction W
  after_commit a iface desired previous c s =
      let done : Transaction W = record {
        result = success desired;
        plane = some s.plane;
        world = s.world;
        disk = c.disk;
      } in
      elim c.value [
        | commit_failed ↦
            undo_runtime a iface previous
              (text_or c.error (codes "failed to commit ethernet config")) c.stage c.disk s
        | committed_durable ↦ done
        | committed_durability_uncertain ↦ done
      ]

  abbrev pub commit_applied :
      Answers
      → Bytes
      → EthernetConfig
      → EthernetConfig
      → EthernetConfigStage
      → Disk
      → Step W
      → Transaction W
  commit_applied a iface desired previous stage d s =
      if not s.value
      then undo_runtime a iface previous
          (text_or s.error (codes "failed to apply ethernet runtime config")) stage d s
      else after_commit a iface desired previous (commit_ethernet_config a stage d) s

  abbrev pub apply_staged :
      Answers → Bytes → EthernetConfig → EthernetConfig → Staged → ControlPlane → W → Transaction W
  apply_staged a iface desired previous s p w =
      if not s.value
      then record {
        result = failure (pos 500) (codes "failed to stage ethernet config: " ++ s.error);
        plane = some p;
        world = w;
        disk = s.disk;
      }
      else commit_applied a iface desired previous s.stage s.disk
          (apply_ethernet_runtime iface desired p w)

  abbrev pub no_plane : W → Disk → Transaction W
  no_plane w d = record {
    result = failure (pos 500) (codes "network control plane unavailable");
    plane = none;
    world = w;
    disk = d;
  }

  unfoldable pub apply_ethernet_transaction :
      Answers → ℕ → Bytes → Bytes → EthernetConfig → Option ControlPlane → W → Disk → Transaction W
  unfolding stage_ethernet_config apply_ethernet_runtime commit_ethernet_config
      discard_ethernet_config
  apply_ethernet_transaction a pid config_dir iface desired none w d = no_plane w d
  apply_ethernet_transaction a pid config_dir iface desired (some p) w d =
      apply_staged a iface desired (loaded d config_dir iface)
        (stage_ethernet_config a pid config_dir desired no_stage d) p w

  -- Every member of the loaded configuration is set.
  unfoldable pub eth_set_dhcp :
      Answers → ℕ → Bytes → Bytes → Option ControlPlane → W → Disk → Transaction W
  unfolding apply_ethernet_transaction
  eth_set_dhcp a pid config_dir eth_iface p w d =
      apply_ethernet_transaction a pid config_dir eth_iface (dhcp_config eth_iface) p w d

  unfoldable pub eth_set_static :
      Answers
      → ℕ
      → Bytes
      → Bytes
      → Bytes
      → Bytes
      → Bytes
      → Bytes
      → Option ControlPlane
      → W
      → Disk
      → Transaction W
  unfolding apply_ethernet_transaction
  eth_set_static a pid config_dir eth_iface ip mask gateway dns p w d =
      apply_ethernet_transaction a pid config_dir eth_iface
        (static_config eth_iface ip mask gateway dns) p w d

  -- The daemon with these operations, `a` being the answers in one call, and the others given.
  abbrev pub ethernet_daemon :
      Answers → ℕ → Bytes → Bytes → NetworkDaemon (DaemonState W) → NetworkDaemon (DaemonState W)
  ethernet_daemon a pid config_dir eth_iface others = record others {
    eth_get_config = λ v. (success (loaded v.disk config_dir eth_iface), v);
    eth_set_dhcp = λ v. operation (eth_set_dhcp a pid config_dir eth_iface v.plane v.world v.disk);
    eth_set_static = λ ip mask gateway dns v.
        operation
          (eth_set_static a pid config_dir eth_iface ip mask gateway dns v.plane v.world v.disk);
  }
