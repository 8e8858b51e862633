-- ===== src/EthernetFile/Staging.antt =====
-- Staging writes the whole text into a file of its own and touches no other.
use network_service.Prelude.{
  zero, suc, ◌+◌, ◌%◌, ◌^◌, List, take, drop, take-append-drop, ℕ, ◌<◌, ◌≡◌, inl, inr, refl, ap,
  ◌∙◌, Bool, true, false, [], ◌∷◌, ◌++◌, Option, none, some, arith, if◌then◌else◌, is_empty, length,
  length-append, Bytes, codes, text_eq, text_eq_self, text_eq_iff, decimal, Bool-cases,
}
use network_service.Types.{EthernetConfig}
use network_service.EthernetFile.{
  unlink, WriteAnswer, wrote, interrupted, broken, with_file, write_all, file_error, fill_stage,
  is_there, create, no_stage, Answer, done, failed, Answers, Disk, Staged, not_staged,
  temp_path_for, make_stage, stage_ethernet_config, discard_ethernet_config,
}
use network_service.EthernetText.{config_directory, ethernet_config_path, serialize_ethernet_config}

-- Everything is written where `write_all` says so.
write_all-whole :
    (answers : List WriteAnswer) (t : Bytes)
    → (write_all answers t).1 ≡ true
    → (write_all answers t).0 ≡ t
unfolding write_all
write_all-whole [] [] h = refl
write_all-whole (a ∷ as') [] h = refl
write_all-whole [] (c ∷ t) h = cc
write_all-whole (broken ∷ as') (c ∷ t) h = cc
write_all-whole (interrupted ∷ as') (c ∷ t) h = write_all-whole as' (c ∷ t) h
write_all-whole (wrote zero ∷ as') (c ∷ t) h = cc
write_all-whole (wrote (suc n) ∷ as') (c ∷ t) h =
    ap (λ (more : Bytes). c ∷ (take n t ++ more)) (write_all-whole as' (drop n t) h)
    ∙ ap (◌∷◌ c) (take-append-drop n t)

-- Both kinds of `unlink` succeed.
abbrev pub Removes : Answers → Type 0
Removes a = (a.unlinked ≡ done) × (a.discarded ≡ done)

-- The files outside the staged one, and the staged one.
pub data IsStage (a : Answers) (d : Disk) (dir path tmp content : Bytes) : Staged → Type 0 where
  refused :
      (error : Bytes) (e : Disk)
      → ((q : Bytes) → text_eq q tmp ≡ false → e.content q ≡ d.content q)
      → (Removes a → d.content tmp ≡ none → e.content tmp ≡ none)
      → IsStage a d dir path tmp content (not_staged error e)
  filled :
      (e : Disk)
      → ((q : Bytes) → text_eq q tmp ≡ false → e.content q ≡ d.content q)
      → e.content tmp ≡ some content
      → IsStage a d dir path tmp content (record {
        value = true;
        error = [];
        stage = record { temp_path = tmp; final_path = path; directory = dir; valid = true };
        disk = e;
      })

with_file-other :
    (path q : Bytes) (new : Option Bytes) (d : Disk)
    → text_eq q path ≡ false
    → (with_file path new d).content q ≡ d.content q
with_file-other path q new d h = ground arith

with_file-same :
    (path : Bytes) (new : Option Bytes) (d : Disk) → (with_file path new d).content path ≡ new
with_file-same path new d = ground (arith, text_eq_self path)

unlink-other :
    (x : Answer) (path q : Bytes) (d : Disk)
    → text_eq q path ≡ false
    → (unlink x path d).content q ≡ d.content q
unlink-other done path q d h = with_file-other path q none d h
unlink-other (failed text) path q d h = refl

unlink-same :
    (x : Answer) (path : Bytes) (d : Disk) → x ≡ done → (unlink x path d).content path ≡ none
unlink-same done path d h = with_file-same path none d
unlink-same (failed text) path d h = cc

not_written : (a : Answers) (b : Bool) → file_error a b ≡ none → b ≡ true
not_written a b h = ground arith

fill_stage-IsStage :
    (a : Answers) (dir path tmp content : Bytes) (d : Disk)
    → IsStage a d dir path tmp content (fill_stage a dir path tmp content d)
unfolding fill_stage
fill_stage-IsStage a dir path tmp content d =
    by_error (file_error a (write_all a.writes content).1) refl
  where
    by_error :
        (o : Option Bytes)
        → file_error a (write_all a.writes content).1 ≡ o
        → IsStage a d dir path tmp content (elim o as (λ _. Staged) [
          | some error ↦
              not_staged error
                (unlink a.unlinked tmp (with_file tmp (some (write_all a.writes content).0) d))
          | none ↦ record {
            value = true;
            error = [];
            stage = record { temp_path = tmp; final_path = path; directory = dir; valid = true };
            disk = with_file tmp (some (write_all a.writes content).0) d;
          }
        ])
    by_error (some error) e =
        refused error _
          (λ q h.
            unlink-other a.unlinked tmp q (with_file tmp (some (write_all a.writes content).0) d) h
            ∙ with_file-other tmp q (some (write_all a.writes content).0) d h)
          (λ x _.
            unlink-same a.unlinked tmp (with_file tmp (some (write_all a.writes content).0) d) x.0)
    by_error none e =
        filled _ (λ q h. with_file-other tmp q (some (write_all a.writes content).0) d h)
          (with_file-same tmp (some (write_all a.writes content).0) d
            ∙ ap some
                (write_all-whole a.writes content (not_written a (write_all a.writes content).1 e)))

renumbered :
    {a : Answers} {n : ℕ} {dir path tmp content : Bytes} {s : Staged} (d : Disk)
    → IsStage a (record d { sequence = n }) dir path tmp content s
    → IsStage a d dir path tmp content s
renumbered d (refused error e k h) = refused error e k h
renumbered d (filled e k h) = filled e k h

pub make_stage-IsStage :
    (a : Answers) (pid : ℕ) (dir path : Bytes) (config : EthernetConfig) (d : Disk)
    → IsStage a d dir path
        (temp_path_for path pid d.sequence)
        (serialize_ethernet_config config)
        (make_stage a pid dir path config d)
unfolding make_stage
make_stage-IsStage a pid dir path config d =
    by_answer (create a.opened (is_there (d.content (temp_path_for path pid d.sequence))))
  where
    by_answer :
        (x : Answer)
        → IsStage a d dir path
            (temp_path_for path pid d.sequence)
            (serialize_ethernet_config config)
            (elim x as (λ _. Staged) [
              | failed text ↦
                  not_staged
                    (codes "failed to create staged ethernet config: " ++ text)
                    (record d { sequence = (d.sequence + 1) % 2 ^ 64 })
              | done ↦
                  fill_stage a dir path
                    (temp_path_for path pid d.sequence)
                    (serialize_ethernet_config config)
                    (record d { sequence = (d.sequence + 1) % 2 ^ 64 })
            ])
    by_answer (failed text) = refused _ _ (λ q h. refl) (λ _ h. h)
    by_answer done = renumbered d (fill_stage-IsStage a dir path _ _ _)

distinct : (s t : Bytes) → (s ≡ t → ⊥) → text_eq s t ≡ false
distinct s t h = elim (Bool-cases (text_eq s t)) [
  | inl e ↦ absurd (h ((text_eq_iff s t).0 e))
  | inr e ↦ e
]

longer : (s t : Bytes) → length s < length t → (s ≡ t → ⊥) × (t ≡ s → ⊥)
longer s t h = (λ e. omega (arith, h, ap length e), λ e. omega (arith, h, ap length e))

length-temp_path : (path : Bytes) (pid n : ℕ) → length path < length (temp_path_for path pid n)
length-temp_path path pid n =
    omega
      (arith, length-append path (b'.' ∷ (decimal pid ++ (b'.' ∷ (decimal n ++ codes ".stage")))))

nonempty-longer : (s t : Bytes) → length s < length t → is_empty t ≡ false
nonempty-longer s [] h = absurd (omega (arith, h))
nonempty-longer s (c ∷ t) h = refl

-- The staged file's name is neither empty nor that of the final file.
pub temp_path-apart :
    (path : Bytes) (pid n : ℕ)
    → (text_eq path (temp_path_for path pid n) ≡ false)
      × (text_eq (temp_path_for path pid n) path ≡ false)
      × (is_empty (temp_path_for path pid n) ≡ false)
temp_path-apart path pid n =
    let tmp = temp_path_for path pid n in
    let l = length-temp_path path pid n in
    (
      distinct path tmp (longer path tmp l).0,
      distinct tmp path (longer path tmp l).1,
      nonempty-longer path tmp l,
    )

pub stage_ethernet_config-IsStage :
    (a : Answers) (pid : ℕ) (config_dir : Bytes) (config : EthernetConfig) (d : Disk)
    → IsStage a d
        (config_directory config_dir)
        (ethernet_config_path config_dir)
        (temp_path_for (ethernet_config_path config_dir) pid d.sequence)
        (serialize_ethernet_config config)
        (stage_ethernet_config a pid config_dir config no_stage d)
unfolding stage_ethernet_config discard_ethernet_config
stage_ethernet_config-IsStage a pid config_dir config d =
    by_directory (is_empty (config_directory config_dir))
  where
    by_mkdir : Answer → Staged
    by_mkdir x = elim x as (λ _. Staged) [
      | failed text ↦ not_staged (codes "failed to create ethernet config directory: " ++ text) d
      | done ↦
          make_stage a pid (config_directory config_dir) (ethernet_config_path config_dir) config d
    ]

    by_mkdir-IsStage :
        (x : Answer)
        → IsStage a d
            (config_directory config_dir)
            (ethernet_config_path config_dir)
            (temp_path_for (ethernet_config_path config_dir) pid d.sequence)
            (serialize_ethernet_config config)
            (by_mkdir x)
    by_mkdir-IsStage (failed text) = refused _ d (λ q h. refl) (λ _ h. h)
    by_mkdir-IsStage done =
        make_stage-IsStage a pid (config_directory config_dir) (ethernet_config_path config_dir)
          config d

    by_directory :
        (b : Bool)
        → IsStage a d
            (config_directory config_dir)
            (ethernet_config_path config_dir)
            (temp_path_for (ethernet_config_path config_dir) pid d.sequence)
            (serialize_ethernet_config config)
            (if b
              then not_staged (codes "ethernet config directory is empty") d
              else by_mkdir a.mkdir)
    by_directory true = refused _ d (λ q h. refl) (λ _ h. h)
    by_directory false = by_mkdir-IsStage a.mkdir
