-- ===== src/EthernetFile.antt =====
-- The file of the Ethernet configuration on disk, in src/config/ethernet_config.cpp and its header. A
-- disk gives each path its content; what the system calls answer is an argument, with the text of
-- `strerror` where one fails. A write puts at most what it is given, and behind the end of the list
-- of answers every write fails.
pub mod Staging
pub mod Commit
pub mod Saving
use network_service.Prelude.{
  ℕ, zero, suc, ◌+◌, ◌-◌, ◌*◌, ◌%◌, ◌^◌, Bool, true, false, not, ◌&&◌, ◌||◌, List, [], ◌∷◌, ◌++◌,
  Option, none, some, ◌==◌, if◌then◌else◌, is_empty, take, drop, Bytes, codes, text_eq, decimal,
}
use network_service.Prelude.Int.{ℤ, pos, negsuc}
use network_service.Types.{EthernetConfig}
use network_service.Json.{is_space, is_digit}
use network_service.Lines.{key_value, lines}
use network_service.Representation.{decimal_ℤ}
use network_service.EthernetText.{serialize_ethernet_config, config_directory, ethernet_config_path}

pub record EthernetConfigStage : Type 0 where
  pub temp_path : Bytes
  pub final_path : Bytes
  pub directory : Bytes
  pub valid : Bool

abbrev pub no_stage : EthernetConfigStage
no_stage = record { temp_path = []; final_path = []; directory = []; valid = false }

pub data EthernetConfigCommitResult : Type 0 where
  commit_failed committed_durable committed_durability_uncertain : EthernetConfigCommitResult

-- What a system call answers: success, or a failure with its text.
pub data Answer : Type 0 where
  done : Answer
  failed : Bytes → Answer

pub data WriteAnswer : Type 0 where
  wrote : ℕ → WriteAnswer
  interrupted broken : WriteAnswer

-- The answers in one call: `mkdir`, where an existing directory is a success, `open`, `write`,
-- `fsync` and `close` of the staged file, its `unlink` when staging fails, `rename`, `fsync` of the
-- directory, and the `unlink` of a stage that is discarded; `write_error` is the text of `errno`
-- where a write fails.
pub record Answers : Type 0 where
  pub mkdir : Answer
  pub opened : Answer
  pub writes : List WriteAnswer
  pub write_error : Bytes
  pub synced : Answer
  pub closed : Answer
  pub unlinked : Answer
  pub renamed : Answer
  pub directory_synced : Answer
  pub discarded : Answer

-- The files, and `g_stage_sequence`.
pub record Disk : Type 0 where
  pub content : Bytes → Option Bytes
  pub sequence : ℕ

abbrev pub with_file : Bytes → Option Bytes → Disk → Disk
with_file path new d = record d { content = λ p. if text_eq p path then new else d.content p }

-- What reaches the file, and whether all of it did.
unfoldable pub write_all : List WriteAnswer → Bytes → Bytes × Bool
write_all answers [] = ([], true)
write_all [] (c ∷ t) = ([], false)
write_all (broken ∷ as') (c ∷ t) = ([], false)
write_all (interrupted ∷ as') (c ∷ t) = write_all as' (c ∷ t)
write_all (wrote zero ∷ as') (c ∷ t) = ([], false)
write_all (wrote (suc n) ∷ as') (c ∷ t) =
    let (more, ok) = write_all as' (drop n t) in (c ∷ (take n t ++ more), ok)

-- `(void)unlink(...)`: a file that cannot be removed stays.
abbrev pub unlink : Answer → Bytes → Disk → Disk
unlink (failed text) path d = d
unlink done path d = with_file path none d

unfoldable pub discard_ethernet_config :
    Answer → EthernetConfigStage → Disk → EthernetConfigStage × Disk
discard_ethernet_config x s d =
    (no_stage, if s.valid && not (is_empty s.temp_path) then unlink x s.temp_path d else d)

pub record Staged : Type 0 where
  pub value : Bool
  pub error : Bytes
  pub stage : EthernetConfigStage
  pub disk : Disk

abbrev pub not_staged : Bytes → Disk → Staged
not_staged error d = record { value = false; error = error; stage = no_stage; disk = d }

-- The staged file's name, from the final path, the process and the number of the stage.
abbrev pub temp_path_for : Bytes → ℕ → ℕ → Bytes
temp_path_for path pid sequence =
    path ++ (b'.' ∷ (decimal pid ++ (b'.' ∷ (decimal sequence ++ codes ".stage"))))

-- The first thing that went wrong with the open file, if anything did.
abbrev pub file_error : Answers → Bool → Option Bytes
file_error a written =
    if not written
    then some (codes "failed to write staged ethernet config: " ++ a.write_error)
    else elim a.synced [
      | failed text ↦ some (codes "failed to fsync staged ethernet config: " ++ text)
      | done ↦ elim a.closed [
        | failed text ↦ some (codes "failed to close staged ethernet config: " ++ text)
        | done ↦ none
      ]
    ]

-- With the staged file created.
unfoldable pub fill_stage : Answers → Bytes → Bytes → Bytes → Bytes → Disk → Staged
unfolding write_all
fill_stage a dir path tmp content d =
    let (bytes, written) = write_all a.writes content in
    elim (file_error a written) [
      | some error ↦ not_staged error (unlink a.unlinked tmp (with_file tmp (some bytes) d))
      | none ↦ record {
        value = true;
        error = [];
        stage = record { temp_path = tmp; final_path = path; directory = dir; valid = true };
        disk = with_file tmp (some bytes) d;
      }
    ]

abbrev pub is_there : Option Bytes → Bool
is_there none = false
is_there (some content) = true

-- `open` with `O_CREAT | O_EXCL`.
abbrev pub create : Answer → Bool → Answer
create (failed text) there = failed text
create done there = if there then failed (codes "File exists") else done

unfoldable pub make_stage : Answers → ℕ → Bytes → Bytes → EthernetConfig → Disk → Staged
unfolding fill_stage serialize_ethernet_config
make_stage a pid dir path config d =
    let tmp = temp_path_for path pid d.sequence in
    let numbered = record d { sequence = (d.sequence + 1) % 2 ^ 64 } in
    elim (create a.opened (is_there (d.content tmp))) [
      | failed text ↦
          not_staged (codes "failed to create staged ethernet config: " ++ text) numbered
      | done ↦ fill_stage a dir path tmp (serialize_ethernet_config config) numbered
    ]

unfoldable pub stage_ethernet_config :
    Answers → ℕ → Bytes → EthernetConfig → EthernetConfigStage → Disk → Staged
unfolding discard_ethernet_config make_stage ethernet_config_path
stage_ethernet_config a pid config_dir config stage d =
    let clean = (discard_ethernet_config a.discarded stage d).1 in
    if is_empty (config_directory config_dir)
    then not_staged (codes "ethernet config directory is empty") clean
    else elim a.mkdir [
      | failed text ↦
          not_staged (codes "failed to create ethernet config directory: " ++ text) clean
      | done ↦
          make_stage a pid (config_directory config_dir) (ethernet_config_path config_dir) config
            clean
    ]

pub record Committed : Type 0 where
  pub value : EthernetConfigCommitResult
  pub error : Bytes
  pub stage : EthernetConfigStage
  pub disk : Disk

-- `rename` of a file that is not there fails.
abbrev pub rename_answer : Answer → Option Bytes → Answer
rename_answer (failed text) source = failed text
rename_answer done none = failed (codes "No such file or directory")
rename_answer done (some content) = done

abbrev pub renamed_disk : EthernetConfigStage → Disk → Disk
renamed_disk s d = with_file s.final_path (d.content s.temp_path) (with_file s.temp_path none d)

abbrev pub not_committed : Bytes → EthernetConfigStage → Disk → Committed
not_committed error s d = record { value = commit_failed; error = error; stage = s; disk = d }

-- Past the rename, when the stage has been emptied.
abbrev pub committed_as : EthernetConfigCommitResult → Bytes → Disk → Committed
committed_as value error d = record { value = value; error = error; stage = no_stage; disk = d }

unfoldable pub commit_ethernet_config : Answers → EthernetConfigStage → Disk → Committed
commit_ethernet_config a s d =
    if not s.valid || (is_empty s.temp_path || (is_empty s.final_path || is_empty s.directory))
    then not_committed (codes "ethernet config stage is invalid") s d
    else elim (rename_answer a.renamed (d.content s.temp_path)) [
      | failed text ↦ not_committed (codes "failed to commit ethernet config: " ++ text) s d
      | done ↦ elim a.directory_synced [
        | failed text ↦
            committed_as committed_durability_uncertain
              (codes "ethernet config committed but directory fsync failed: " ++ text)
              (renamed_disk s d)
        | done ↦ committed_as committed_durable [] (renamed_disk s d)
      ]
    ]

-- What `save_ethernet_config` makes of the commit.
abbrev pub saved_by : Answers → Committed → Bool × Disk
saved_by a c = elim c.value [
  | commit_failed ↦ (false, (discard_ethernet_config a.discarded c.stage c.disk).1)
  | committed_durable ↦ (true, c.disk)
  | committed_durability_uncertain ↦ (false, c.disk)
]

unfoldable pub save_ethernet_config : Answers → ℕ → Bytes → EthernetConfig → Disk → Bool × Disk
unfolding stage_ethernet_config commit_ethernet_config discard_ethernet_config
save_ethernet_config a pid config_dir config d =
    let s = stage_ethernet_config a pid config_dir config no_stage d in
    if not s.value then (false, s.disk) else saved_by a (commit_ethernet_config a s.stage s.disk)
