-- ===== src/WifiScan/Verdict.antt =====
-- How a scan that is under way ends, over any number of polls.
use network_service.Prelude.{◌≤◌, ◌<◌, ◌≡◌, ◌≢◌, List, [], ◌∷◌, ◌++◌, All, none, some, Bytes, codes}
use network_service.Types.{WifiApRecord}
use network_service.WifiScan.{ready, WifiScanLifecycle, Answers, events, fail, poll}

abbrev pub polls_on : WifiScanLifecycle → List Answers → WifiScanLifecycle
polls_on l [] = l
polls_on l (a ∷ as') = polls_on (poll l a).0 as'

-- The supplicant started a scan after the baseline, and completed that one.
pub record Heard (l : WifiScanLifecycle) (a : Answers) : Type 0 where
  pub started : l.baseline.sequence < (events a).started_sequence
  pub completed : (events a).started_sequence < (events a).completed_sequence

-- It started one after the baseline, and the last that it said of it is that it failed.
pub record Refused (l : WifiScanLifecycle) (a : Answers) : Type 0 where
  pub started : l.baseline.sequence < (events a).started_sequence
  pub after_start : (events a).started_sequence < (events a).failed_sequence
  pub after_results : (events a).completed_sequence < (events a).failed_sequence

-- A poll before the deadline that hears neither.
abbrev pub Waits : WifiScanLifecycle → Answers → Type 0
Waits l a = (a.now < l.deadline) × (Heard l a → ⊥) × (Refused l a → ⊥)

-- How the poll `a` ends the scan `l`, by what it leaves.
pub data Ends (l : WifiScanLifecycle) (a : Answers) : WifiScanLifecycle → Type 0 where
  refused : Refused l a → Ends l a (fail l (codes "scan_failed"))
  no_reader :
      Heard l a
      → a.results_fn ≡ none
      → Ends l a (record l { records = []; state = ready; error = [] })
  results :
      (records : List WifiApRecord)
      → Heard l a
      → a.results_fn ≡ some (records, [])
      → Ends l a (record l { records = records; state = ready; error = [] })
  unreadable :
      (records : List WifiApRecord) (error : Bytes)
      → Heard l a
      → error ≢ []
      → a.results_fn ≡ some (records, error)
      → Ends l a (fail l (codes "scan_results_failed: " ++ error))
  late : l.deadline ≤ a.now → (Heard l a → ⊥) → Ends l a (fail l (codes "timeout"))

-- All polls wait, or a first one ends the scan and none changes it afterwards.
pub data Verdict (l : WifiScanLifecycle) : List Answers → WifiScanLifecycle → Type 0 where
  open_still : (as' : List Answers) → All (Waits l) as' → Verdict l as' l
  ended :
      (before : List Answers) (a : Answers) (after : List Answers) (m : WifiScanLifecycle)
      → All (Waits l) before
      → Ends l a m
      → Verdict l (before ++ (a ∷ after)) m
