-- ===== src/EthernetTransaction/Atomic.antt =====
-- The transaction is all or nothing, for the file and for what is in effect.
use network_service.Prelude.{
  ℕ, ◌≡◌, refl, Bool, true, false, not, Option, none, some, if◌then◌else◌, Bytes, text_eq, is_empty,
  codes,
}
use network_service.Prelude.Int.{pos}
use network_service.Types.{EthernetConfig}
use network_service.PlaneState.{NetworkControlPlaneOps, ControlPlane}
use network_service.ControlPlane.{Step}
use network_service.EthernetText.{config_directory, ethernet_config_path, serialize_ethernet_config}
use network_service.Prelude.{inl, inr, Bool-cases}
use network_service.EthernetFile.{
  Answers, Disk, Staged, Committed, commit_ethernet_config, discard_ethernet_config, renamed_disk,
  temp_path_for,
}
use network_service.EthernetFile.Staging.{
  IsStage, refused, filled, temp_path-apart, stage_ethernet_config-IsStage,
}
use network_service.EthernetFile.Commit.{
  stage_at, Ends, kept, uncertain, durable, commit-Ends, Leaves, discarded-Leaves, renamed-Leaves,
}
use network_service.EthernetTransaction.{
  Transaction, apply_ethernet_runtime, undo_runtime, after_commit, commit_applied, apply_staged,
  apply_ethernet_transaction, loaded, text_or, success, failure, failure_with_rollback,
}

module _ {W : Type 0} (ops : NetworkControlPlaneOps W) where
  -- The plane and the world that a step left.
  abbrev pub After : Transaction W → Step W → Type 0
  After r s = (r.plane ≡ some s.plane) × (r.world ≡ s.world)

  -- The ends of a transaction: it stopped before the plane was asked; behind the desired
  -- configuration it asked the plane for the previous one, which went well or not; or the desired
  -- one is in effect.
  pub data IsTransaction (a : Answers) (iface path tmp : Bytes) (desired previous : EthernetConfig)
      (o : Option ControlPlane) (w : W) (d : Disk) : Transaction W → Type 0 where
    stopped :
        (r : Transaction W)
        → r.result.status ≡ pos 500
        → r.plane ≡ o
        → r.world ≡ w
        → Leaves a d path tmp (d.content path) r.disk
        → IsTransaction a iface path tmp desired previous o w d r
    restored :
        (p : ControlPlane) (r : Transaction W) (text : Bytes)
        → o ≡ some p
        → (let s = apply_ethernet_runtime ops iface desired p w in
            let back = apply_ethernet_runtime ops iface previous s.plane s.world in
            (back.value ≡ true)
            × After r back
            × (r.result ≡ failure (pos 500) (failure_with_rollback text back.error)))
        → Leaves a d path tmp (d.content path) r.disk
        → IsTransaction a iface path tmp desired previous o w d r
    not_restored :
        (p : ControlPlane) (r : Transaction W) (text : Bytes)
        → o ≡ some p
        → (let s = apply_ethernet_runtime ops iface desired p w in
            let back = apply_ethernet_runtime ops iface previous s.plane s.world in
            (back.value ≡ false)
            × After r back
            × (r.result ≡ failure (pos 500) (failure_with_rollback text back.error)))
        → Leaves a d path tmp (d.content path) r.disk
        → IsTransaction a iface path tmp desired previous o w d r
    in_effect :
        (p : ControlPlane) (r : Transaction W)
        → o ≡ some p
        → r.result ≡ success desired
        → (apply_ethernet_runtime ops iface desired p w).value ≡ true
        → After r (apply_ethernet_runtime ops iface desired p w)
        → Leaves a d path tmp (some (serialize_ethernet_config desired)) r.disk
        → IsTransaction a iface path tmp desired previous o w d r

  module _ (a : Answers) (iface dir path tmp : Bytes) (desired previous : EthernetConfig)
      (p : ControlPlane) (w : W) (d e : Disk)
      (undo : Leaves a d path tmp
        (d.content path)
        (discard_ethernet_config a.discarded (stage_at dir path tmp) e).1)
      (redo : Leaves a d path tmp
        (some (serialize_ethernet_config desired))
        (renamed_disk (stage_at dir path tmp) e)) where
    -- The plane was asked for the previous configuration again.
    undone-IsTransaction :
        (text : Bytes)
        → IsTransaction a iface path tmp desired previous (some p) w d (
            undo_runtime ops a iface previous text
              (stage_at dir path tmp)
              e
              (apply_ethernet_runtime ops iface desired p w))
    undone-IsTransaction text =
        let s = apply_ethernet_runtime ops iface desired p w in
        elim (Bool-cases (apply_ethernet_runtime ops iface previous s.plane s.world).value) [
          | inl good ↦ restored p _ text refl (good, (refl, refl), refl) undo
          | inr bad ↦ not_restored p _ text refl (bad, (refl, refl), refl) undo
        ]

    after_commit-IsTransaction :
        (c : Committed)
        → Ends (stage_at dir path tmp) e c
        → (apply_ethernet_runtime ops iface desired p w).value ≡ true
        → IsTransaction a iface path tmp desired previous (some p) w d (
            after_commit ops a iface desired previous c
              (apply_ethernet_runtime ops iface desired p w))
    after_commit-IsTransaction c (kept error) h =
        undone-IsTransaction (text_or error (codes "failed to commit ethernet config"))
    after_commit-IsTransaction c (uncertain error) h = in_effect p _ refl refl h (refl, refl) redo
    after_commit-IsTransaction c durable h = in_effect p _ refl refl h (refl, refl) redo

    commit_applied-IsTransaction : IsTransaction a iface path tmp desired previous (some p) w d (
        commit_applied ops a iface desired previous
          (stage_at dir path tmp)
          e
          (apply_ethernet_runtime ops iface desired p w))
    commit_applied-IsTransaction =
        by_value (apply_ethernet_runtime ops iface desired p w).value (λ h. h)
      where
        by_value :
            (b : Bool)
            → (b ≡ true → (apply_ethernet_runtime ops iface desired p w).value ≡ true)
            → IsTransaction a iface path tmp desired previous (some p) w d (
                let s = apply_ethernet_runtime ops iface desired p w in
                if not b
                then undo_runtime ops a iface previous
                    (text_or s.error (codes "failed to apply ethernet runtime config"))
                    (stage_at dir path tmp)
                    e
                    s
                else after_commit ops a iface desired previous
                    (commit_ethernet_config a (stage_at dir path tmp) e)
                    s)
        by_value false h = undone-IsTransaction _
        by_value true h =
            after_commit-IsTransaction _ (commit-Ends a (stage_at dir path tmp) e) (h refl)

  staged-IsTransaction :
      (a : Answers) (iface dir path tmp : Bytes) (desired previous : EthernetConfig)
      (p : ControlPlane) (w : W) (d : Disk) (s : Staged)
      → text_eq path tmp ≡ false
      → text_eq tmp path ≡ false
      → is_empty tmp ≡ false
      → IsStage a d dir path tmp (serialize_ethernet_config desired) s
      → IsTransaction a iface path tmp desired previous
          (some p)
          w
          d
          (apply_staged ops a iface desired previous s p w)
  staged-IsTransaction a iface dir path tmp desired previous p w d s t b n (refused error e k h) =
      stopped _ refl refl refl (record { at_path = k path t; left = h; others = λ q x y. k q y })
  staged-IsTransaction a iface dir path tmp desired previous p w d s t b n (filled e k h) =
      let content = serialize_ethernet_config desired in
      commit_applied-IsTransaction a iface dir path tmp desired previous p w d e
        (discarded-Leaves a d e dir path tmp content k h t b n)
        (renamed-Leaves a d e dir path tmp content k h t b n)

  -- Whatever the platform and the system calls answer, a transaction ends in one of these ways. It
  -- fails with 500 before the control plane is asked, and plane, world and file are as before. Or it
  -- fails with 500, the file is as before, and the plane has been asked for the loaded configuration
  -- once more behind the desired one: plane and world are what that call left, whether it succeeded
  -- or failed, and its error text is attached to the answer. Or it succeeds with the desired
  -- configuration, the file holds the whole text of it, and it has been put into effect with success
  -- and nothing behind it. If files can be removed, no staged file is left where there was none, and
  -- in any case no other file has changed.
  pub apply_ethernet_transaction-IsTransaction :
      (a : Answers) (pid : ℕ) (config_dir iface : Bytes) (desired : EthernetConfig)
      (o : Option ControlPlane) (w : W) (d : Disk)
      → let path = ethernet_config_path config_dir in
        IsTransaction a iface path
          (temp_path_for path pid d.sequence)
          desired
          (loaded d config_dir iface)
          o
          w
          d
          (apply_ethernet_transaction ops a pid config_dir iface desired o w d)
  unfolding apply_ethernet_transaction
  apply_ethernet_transaction-IsTransaction a pid config_dir iface desired none w d =
      stopped _ refl refl refl (record { at_path = refl; left = λ _ h. h; others = λ q x y. refl })
  apply_ethernet_transaction-IsTransaction a pid config_dir iface desired (some p) w d =
      let path = ethernet_config_path config_dir in
      let apart = temp_path-apart path pid d.sequence in
      staged-IsTransaction a iface (config_directory config_dir) path
        (temp_path_for path pid d.sequence) desired (loaded d config_dir iface) p w d _ apart.0
        apart.1 apart.2 (stage_ethernet_config-IsStage a pid config_dir desired d)
