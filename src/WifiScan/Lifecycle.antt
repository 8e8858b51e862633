-- ===== src/WifiScan/Lifecycle.antt =====
-- What each state of a scan promises, and that scans end.
use network_service.Prelude.{
  ℕ, ◌+◌, ◌^◌, ◌≤◌, ◌<◌, ◌≡◌, ◌≢◌, ◌↔◌, refl, ◌⊎◌, List, [], ◌∷◌, Option, none, some, arith, Bytes,
  codes,
}
use network_service.Types.{WifiApRecord}
use network_service.Prelude.Int.{ℤ}
use network_service.WifiScan.{
  idle, scanning, ready, failed, WifiScanLifecycle, Answers, new_lifecycle, events, fail,
  next_scan_id, start, take_results, poll,
}

-- A scan that has begun has an identifier other than 0; only a failed one has an error text, and
-- only a ready one has records.
pub record IsScan (l : WifiScanLifecycle) : Type 0 where
  pub in_range : l.scan_id < 2 ^ 64
  pub begun : l.state ≢ idle → 0 < l.scan_id
  pub failed_iff_error : (l.state ≡ failed → l.error ≢ []) × (l.state ≢ failed → l.error ≡ [])
  pub records_when_ready : l.state ≢ ready → l.records ≡ []
  pub patient : 0 < l.timeout

pub new_lifecycle-IsScan : (timeout : ℤ) → IsScan (new_lifecycle timeout)
unfolding new_lifecycle
new_lifecycle-IsScan timeout = ground arith

-- A new scan never has the identifier of the one before it, nor 0.
pub next_scan_id_fresh :
    (n : ℕ) → n < 2 ^ 64 → (next_scan_id n ≢ n) × (0 < next_scan_id n) × (next_scan_id n < 2 ^ 64)
unfolding next_scan_id
next_scan_id_fresh n h = ground arith

pub start-IsScan : (l : WifiScanLifecycle) (a : Answers) → IsScan l → IsScan (start l a).0
unfolding start
start-IsScan l a v = ground (arith, next_scan_id_fresh l.scan_id)

pub poll-IsScan : (l : WifiScanLifecycle) (a : Answers) → IsScan l → IsScan (poll l a).0
unfolding poll take_results
poll-IsScan l a v = ground arith

-- Any sequence of `start` and `poll` calls.
pub data Call : Type 0 where
  starts : Answers → Call
  polls : Answers → Call

unfoldable pub run : WifiScanLifecycle → List Call → WifiScanLifecycle
run l [] = l
run l (starts a ∷ cs) = run (start l a).0 cs
run l (polls a ∷ cs) = run (poll l a).0 cs

run-IsScan : (cs : List Call) (l : WifiScanLifecycle) → IsScan l → IsScan (run l cs)
unfolding run
run-IsScan [] l v = v
run-IsScan (starts a ∷ cs) l v = run-IsScan cs (start l a).0 (start-IsScan l a v)
run-IsScan (polls a ∷ cs) l v = run-IsScan cs (poll l a).0 (poll-IsScan l a v)

-- Whatever the calls and the answers, the scan is well formed: identifiers fit 64 bits and are not
-- 0 once a scan has begun, there is an error text exactly in the failed state, and there are
-- records in the ready state only.
pub run_new-IsScan : (timeout : ℤ) (cs : List Call) → IsScan (run (new_lifecycle timeout) cs)
run_new-IsScan timeout cs = run-IsScan cs (new_lifecycle timeout) (new_lifecycle-IsScan timeout)

-- `start` outside a scan begins one under a new identifier, with the deadline one timeout away,
-- and leaves it scanning or failed.
pub start_begins :
    (l : WifiScanLifecycle) (a : Answers)
    → IsScan l
    → l.state ≢ scanning
    → let l' = (start l a).0 in
      (l'.scan_id ≢ l.scan_id)
      × (l'.deadline ≡ a.now + l.timeout)
      × (l'.baseline ≡ events a)
      × ((l'.state ≡ scanning) ⊎ (l'.state ≡ failed))
unfolding start
start_begins l a v h = ground (arith, next_scan_id_fresh l.scan_id, v.in_range)

-- A scan ends: a poll at the deadline or later leaves the scanning state.
pub poll_at_deadline :
    (l : WifiScanLifecycle) (a : Answers) → l.deadline ≤ a.now → (poll l a).0.state ≢ scanning
unfolding poll take_results
poll_at_deadline l a h e = ground arith

-- `ResultsFn` is not set, or it answers without an error.
abbrev pub ReadsWell : Option (List WifiApRecord × Bytes) → Type 0
ReadsWell none = Unit
ReadsWell (some (records, error)) = error ≡ []

take_results-ready_iff :
    (l : WifiScanLifecycle) (o : Option (List WifiApRecord × Bytes))
    → ((take_results l o).state ≡ ready) ↔ ReadsWell o
unfolding take_results
take_results-ready_iff l none = (λ _. tt, λ _. refl)
take_results-ready_iff l (some (records, error)) = ground arith

-- What lets a poll make a scan ready: the supplicant has started a scan after the baseline, has
-- completed it after that start, and the results were read without an error.
pub record Completed (l : WifiScanLifecycle) (a : Answers) : Type 0 where
  pub started_after : l.baseline.sequence < (events a).started_sequence
  pub completed_after : (events a).started_sequence < (events a).completed_sequence
  pub read : ReadsWell a.results_fn
  pub not_failed :
      (events a).failed_sequence ≤ (events a).started_sequence
      ⊎ (events a).failed_sequence ≤ (events a).completed_sequence

-- While scanning, a poll makes the scan ready exactly if it has been completed in that sense.
pub poll_ready_iff :
    (l : WifiScanLifecycle) (a : Answers)
    → l.state ≡ scanning
    → ((poll l a).0.state ≡ ready) ↔ Completed l a
unfolding poll
poll_ready_iff l a s =
    let reads = take_results-ready_iff l a.results_fn in
    (λ h. ground (arith, reads.0), λ c. ground (arith, reads.1 c.read))

-- Markers of an earlier scan cannot end this one: while no scan has started after the baseline, a
-- poll before the deadline changes nothing, and one at the deadline or later fails with "timeout".
pub poll_stale :
    (l : WifiScanLifecycle) (a : Answers)
    → l.state ≡ scanning
    → (events a).started_sequence ≤ l.baseline.sequence
    → (a.now < l.deadline → (poll l a).0 ≡ l)
      × (l.deadline ≤ a.now → (poll l a).0 ≡ fail l (codes "timeout"))
unfolding poll
poll_stale l a s h = (λ t. ground arith, λ t. ground arith)
