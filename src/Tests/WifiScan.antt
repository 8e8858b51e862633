-- ===== src/Tests/WifiScan.antt =====
-- One scan that succeeds and one that times out.
use network_service.Prelude.{◌≤◌, ◌≡◌, refl, true, [], ◌∷◌, some, arith, codes}
use network_service.Prelude.Int.{pos}
use network_service.WifiScan.{
  scanning, ready, WifiScanLifecycle, Answers, no_markers, new_lifecycle, events, fail, start, poll,
  take_results,
}
use network_service.WifiScan.Verdict.{Verdict}
use network_service.WifiScan.Lifecycle.{IsScan, starts, polls, run, run_new-IsScan}

abbrev at_start : Answers
at_start = record {
  start_fn = some (true, []);
  results_fn = some ([], []);
  events_fn = some no_markers;
  now = 100;
}

abbrev at_end : Answers
at_end = record at_start {
  events_fn =
      some (record {
        sequence = 2;
        started_sequence = 1;
        completed_sequence = 2;
        failed_sequence = 0;
      });
  now = 200;
}

abbrev too_late : Answers
too_late = record at_start { now = 9000 }

abbrev busy : WifiScanLifecycle
busy = record {
  timeout = 5000;
  scan_id = 1;
  state = scanning;
  error = [];
  records = [];
  baseline = no_markers;
  deadline = 5100;
}

abbrev resting : WifiScanLifecycle
resting = record {
  timeout = 5000;
  scan_id = 4;
  state = ready;
  error = [];
  records = [];
  baseline = no_markers;
  deadline = 5100;
}

resting-IsScan : IsScan resting
resting-IsScan = ground arith

run_new-IsScan_example : IsScan (
    run
      (new_lifecycle (pos 0))
      (starts at_start ∷ polls at_end ∷ starts at_start ∷ polls too_late ∷ []))
run_new-IsScan_example =
    run_new-IsScan (pos 0) (starts at_start ∷ polls at_end ∷ starts at_start ∷ polls too_late ∷ [])

nothing_started : (events at_start).started_sequence ≤ 0
unfolding events
nothing_started = omega arith

scan_succeeds : (run (new_lifecycle (pos 0)) (starts at_start ∷ polls at_end ∷ [])).state ≡ ready
unfolding run new_lifecycle start poll take_results
scan_succeeds = refl

scan_times_out :
    (run (new_lifecycle (pos 0)) (starts at_start ∷ polls too_late ∷ [])).error ≡ codes "timeout"
unfolding run new_lifecycle start poll fail
scan_times_out = refl
