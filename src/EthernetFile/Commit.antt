-- ===== src/EthernetFile/Commit.antt =====
-- The ends of a commit, and the files that each leaves.
use network_service.Prelude.{
  ◌≡◌, Bool, true, false, not, ◌||◌, [], ◌++◌, Option, none, some, arith, if◌then◌else◌, is_empty,
  Bytes, codes, text_eq, text_eq_self,
}
use network_service.EthernetFile.Staging.{Removes}
use network_service.EthernetFile.{
  Answer, done, failed, Answers, Disk, EthernetConfigStage, discard_ethernet_config, Committed,
  rename_answer, renamed_disk, commit_ethernet_config, committed_durable,
  committed_durability_uncertain, not_committed, committed_as,
}

pub data Ends (s : EthernetConfigStage) (e : Disk) : Committed → Type 0 where
  kept : (error : Bytes) → Ends s e (not_committed error s e)
  uncertain :
      (error : Bytes)
      → Ends s e (committed_as committed_durability_uncertain error (renamed_disk s e))
  durable : Ends s e (committed_as committed_durable [] (renamed_disk s e))

pub commit-Ends :
    (a : Answers) (s : EthernetConfigStage) (e : Disk) → Ends s e (commit_ethernet_config a s e)
unfolding commit_ethernet_config
commit-Ends a s e =
    by_guard
      (not s.valid || (is_empty s.temp_path || (is_empty s.final_path || is_empty s.directory)))
  where
    by_sync : Answer → Committed
    by_sync x = elim x as (λ _. Committed) [
      | failed text ↦
          committed_as committed_durability_uncertain
            (codes "ethernet config committed but directory fsync failed: " ++ text)
            (renamed_disk s e)
      | done ↦ committed_as committed_durable [] (renamed_disk s e)
    ]

    by_rename : Answer → Committed
    by_rename x = elim x as (λ _. Committed) [
      | failed text ↦ not_committed (codes "failed to commit ethernet config: " ++ text) s e
      | done ↦ by_sync a.directory_synced
    ]

    by_sync-Ends : (x : Answer) → Ends s e (by_sync x)
    by_sync-Ends (failed text) = uncertain _
    by_sync-Ends done = durable

    by_rename-Ends : (x : Answer) → Ends s e (by_rename x)
    by_rename-Ends (failed text) = kept _
    by_rename-Ends done = by_sync-Ends a.directory_synced

    by_guard :
        (b : Bool)
        → Ends s e (
            if b
            then not_committed (codes "ethernet config stage is invalid") s e
            else by_rename (rename_answer a.renamed (e.content s.temp_path)))
    by_guard true = kept _
    by_guard false = by_rename-Ends (rename_answer a.renamed (e.content s.temp_path))

-- `new` at the final path; nothing at the staged path that was free, if files can be removed; every
-- other file as it was.
pub record Leaves (a : Answers) (d : Disk) (path tmp : Bytes) (new : Option Bytes) (e : Disk)
    : Type 0 where
  pub at_path : e.content path ≡ new
  pub left : Removes a → d.content tmp ≡ none → e.content tmp ≡ none
  pub others :
      (q : Bytes) → text_eq q path ≡ false → text_eq q tmp ≡ false → e.content q ≡ d.content q

abbrev pub stage_at : Bytes → Bytes → Bytes → EthernetConfigStage
stage_at dir path tmp = record { temp_path = tmp; final_path = path; directory = dir; valid = true }

module _ (a : Answers) (d e : Disk) (dir path tmp content : Bytes)
    (same : (q : Bytes) → text_eq q tmp ≡ false → e.content q ≡ d.content q)
    (staged : e.content tmp ≡ some content) (there : text_eq path tmp ≡ false)
    (back : text_eq tmp path ≡ false) (named : is_empty tmp ≡ false) where
  pub discarded-Leaves :
      Leaves a d path tmp
        (d.content path)
        (discard_ethernet_config a.discarded (stage_at dir path tmp) e).1
  unfolding discard_ethernet_config
  discarded-Leaves = record {
    at_path = ground (arith, named, there, same path there);
    left = λ x h. ground (arith, named, text_eq_self tmp, x.1);
    others = λ q x y. ground (arith, named, y, same q y);
  }

  pub renamed-Leaves : Leaves a d path tmp (some content) (renamed_disk (stage_at dir path tmp) e)
  renamed-Leaves = record {
    at_path = ground (arith, text_eq_self path, staged);
    left = λ x h. ground (arith, back, text_eq_self tmp);
    others = λ q x y. ground (arith, x, y, same q y);
  }
