-- ===== src/EthernetFile/Saving.antt =====
-- Saving is all or nothing for the file, whatever the system calls answer.
use network_service.Prelude.{
  ℕ, ◌≡◌, ◌⊎◌, inl, inr, ap, ◌∙◌, Bool, true, false, not, Option, none, some, if◌then◌else◌,
  is_empty, Bytes, text_eq,
}
use network_service.Types.{EthernetConfig}
use network_service.EthernetFile.{
  Answers, Disk, Staged, temp_path_for, discard_ethernet_config, Committed, renamed_disk,
  commit_ethernet_config, saved_by, save_ethernet_config,
}
use network_service.EthernetText.{
  config_directory, ethernet_config_path, serialize_ethernet_config, load_ethernet_config,
}
use network_service.EthernetText.Reading.{IsStorable, load_ethernet_config-serialize}
use network_service.EthernetFile.Staging.{Removes, IsStage, refused, filled}
use network_service.EthernetFile.Staging.{temp_path-apart, stage_ethernet_config-IsStage}
use network_service.EthernetFile.Commit.{
  stage_at, Ends, kept, uncertain, durable, commit-Ends, Leaves, discarded-Leaves, renamed-Leaves,
}

-- What saving leaves: at the path the old content or all of the new one, the new one where success
-- is reported; nothing at the staged path that was
-- free, if files can be removed; and every other file as it was.
pub record IsSaved (a : Answers) (d : Disk) (path tmp content : Bytes) (r : Bool × Disk)
    : Type 0 where
  pub whole : (r.1.content path ≡ d.content path) ⊎ (r.1.content path ≡ some content)
  pub reported : r.0 ≡ true → r.1.content path ≡ some content
  pub left : Removes a → d.content tmp ≡ none → r.1.content tmp ≡ none
  pub others :
      (q : Bytes) → text_eq q path ≡ false → text_eq q tmp ≡ false → r.1.content q ≡ d.content q

-- A commit that ended so, as `save_ethernet_config` takes it.
ended-IsSaved :
    (a : Answers) (d e : Disk) (dir path tmp content : Bytes) (c : Committed)
    → Leaves a d path tmp
        (d.content path)
        (discard_ethernet_config a.discarded (stage_at dir path tmp) e).1
    → Leaves a d path tmp (some content) (renamed_disk (stage_at dir path tmp) e)
    → Ends (stage_at dir path tmp) e c
    → IsSaved a d path tmp content (saved_by a c)
ended-IsSaved a d e dir path tmp content c k r (kept error) = record {
  whole = inl k.at_path;
  reported = λ h. cc;
  left = k.left;
  others = k.others;
}
ended-IsSaved a d e dir path tmp content c k r (uncertain error) = record {
  whole = inr r.at_path;
  reported = λ h. cc;
  left = r.left;
  others = r.others;
}
ended-IsSaved a d e dir path tmp content c k r durable = record {
  whole = inr r.at_path;
  reported = λ h. r.at_path;
  left = r.left;
  others = r.others;
}

staged-IsSaved :
    (a : Answers) (d : Disk) (dir path tmp content : Bytes) (s : Staged)
    → text_eq path tmp ≡ false
    → text_eq tmp path ≡ false
    → is_empty tmp ≡ false
    → IsStage a d dir path tmp content s
    → IsSaved a d path tmp content (
        if not s.value
        then (false, s.disk)
        else saved_by a (commit_ethernet_config a s.stage s.disk))
staged-IsSaved a d dir path tmp content s t b n (refused error e k h) = record {
  whole = inl (k path t);
  reported = λ h. cc;
  left = h;
  others = λ q x y. k q y;
}
staged-IsSaved a d dir path tmp content s t b n (filled e k h) =
    ended-IsSaved a d e dir path tmp content _
      (discarded-Leaves a d e dir path tmp content k h t b n)
      (renamed-Leaves a d e dir path tmp content k h t b n)
      (commit-Ends a (stage_at dir path tmp) e)

-- Whatever the system calls answer: after a save, the file at the final path is the one of before or
-- the whole new text, and the new text where success is reported; no staged file is left where there
-- was none, if files can be removed; and no other file has changed.
pub save_ethernet_config-IsSaved :
    (a : Answers) (pid : ℕ) (config_dir : Bytes) (config : EthernetConfig) (d : Disk)
    → let path = ethernet_config_path config_dir in
      IsSaved a d path
        (temp_path_for path pid d.sequence)
        (serialize_ethernet_config config)
        (save_ethernet_config a pid config_dir config d)
unfolding save_ethernet_config
save_ethernet_config-IsSaved a pid config_dir config d =
    let tmp = temp_path_for (ethernet_config_path config_dir) pid d.sequence in
    let apart = temp_path-apart (ethernet_config_path config_dir) pid d.sequence in
    staged-IsSaved a d (config_directory config_dir) (ethernet_config_path config_dir) tmp
      (serialize_ethernet_config config) _ apart.0 apart.1 apart.2
      (stage_ethernet_config-IsStage a pid config_dir config d)

-- The configuration that the service would load from a disk.
abbrev pub held : Disk → Bytes → Bytes → EthernetConfig
held d config_dir iface = load_ethernet_config (d.content (ethernet_config_path config_dir)) iface

-- Of the files on disk this is what matters: for a configuration that can be stored, a save either
-- leaves the configuration that would be loaded or replaces it by the new one, and where it reports
-- success it has replaced it.
pub save_ethernet_config-refines :
    (a : Answers) (pid : ℕ) (config_dir iface : Bytes) (config : EthernetConfig) (d : Disk)
    → IsStorable config
    → let r = save_ethernet_config a pid config_dir config d in
      ((held r.1 config_dir iface ≡ held d config_dir iface) ⊎ (held r.1 config_dir iface ≡ config))
      × (r.0 ≡ true → held r.1 config_dir iface ≡ config)
save_ethernet_config-refines a pid config_dir iface config d h =
    let load = λ (o : Option Bytes). load_ethernet_config o iface in
    let s = save_ethernet_config-IsSaved a pid config_dir config d in
    let back = load_ethernet_config-serialize config iface h in
    (
      elim s.whole [ inl e ↦ inl (ap load e) | inr e ↦ inr (ap load e ∙ back) ],
      λ ok. ap load (s.reported ok) ∙ back,
    )
