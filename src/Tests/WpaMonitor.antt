-- ===== src/Tests/WpaMonitor.antt =====
-- A supplicant that connects, scans, refuses and goes away.
use network_service.Prelude.{
  ◌≡◌, refl, true, false, List, [], ◌∷◌, none, some, arith, Bytes, codes, text_eq,
}
use network_service.Types.{failed}
use network_service.Lines.{behind, find, contains, key_value, lines}
use network_service.WifiScan.{WifiScanLifecycle, Answers, scanning, ready, poll}
use network_service.WpaStatus.{
  normalize_event, parse_wpa_status_reply, status_lines, status_line, drop_return,
  l2_state_for_status, l2_state_for_event, failure_reason_for_event, field_after,
}
use network_service.WpaMonitor.{
  Input, not_opened, quiet, lost, attached, received, run, step, new_monitor, update_event,
  link_calls, apply_status, bump_sequence, mark_channel_unavailable, note_scan, note_link,
  no_events,
}
use network_service.WpaMonitor.Markers.{IsFact, IsMonitor, run_new-IsMonitor}
use network_service.WpaMonitor.Scans.{scan_markers, Marks, poll-heard}

abbrev story : List Input
story =
    not_opened
    ∷ attached (some (codes "bssid=aa:bb\nwpa_state=COMPLETED\r\nssid=home\n"))
    ∷ received (codes "<3>CTRL-EVENT-SCAN-STARTED ")
    ∷ quiet
    ∷ received (codes "<3>CTRL-EVENT-SCAN-RESULTS ")
    ∷ received (codes "<3>CTRL-EVENT-DISCONNECTED bssid=aa:bb reason=3")
    ∷ lost
    ∷ []

run_new-IsMonitor_example : IsMonitor (run new_monitor story).0
run_new-IsMonitor_example = run_new-IsMonitor story (omega arith)

-- The handler hears of the status and of the disconnection.
heard : (run new_monitor story).1 ≡ true ∷ false ∷ []
unfolding run step normalize_event link_calls parse_wpa_status_reply status_lines status_line
    drop_return key_value lines l2_state_for_status apply_status find behind contains text_eq
    bump_sequence mark_channel_unavailable
heard = refl

abbrev begun : WifiScanLifecycle
begun = record {
  timeout = 5000;
  scan_id = 1;
  state = scanning;
  error = [];
  records = [];
  baseline = scan_markers no_events;
  deadline = 5000;
}

abbrev started : Bytes
started = codes "CTRL-EVENT-SCAN-STARTED "

abbrev results : Bytes
results = codes "CTRL-EVENT-SCAN-RESULTS "

abbrev later : Answers
later = record {
  start_fn = none;
  results_fn = some ([], []);
  events_fn = some (scan_markers (update_event results (update_event started no_events)));
  now = 6000;
}

no_events-IsFact : IsFact no_events
no_events-IsFact = record {
  started = omega arith;
  results = omega arith;
  failures = omega arith;
  running = λ e. cc;
  detached = λ e. (refl, refl, refl);
}

Marks-started : Marks true false false started
unfolding contains find behind
Marks-started = (refl, refl, refl)

Marks-results : Marks false true false results
unfolding contains find behind
Marks-results = (refl, refl, refl)

poll-heard_example : (poll begun later).0.state ≡ ready
poll-heard_example =
    poll-heard begun no_events [] [] [] started results later refl refl no_events-IsFact
      (omega arith) tt Marks-started tt Marks-results tt refl refl

-- The reason of a refused association is gone once any other event is seen, while the link state
-- still says that it failed.
lost_reason :
    let f = update_event (codes "CTRL-EVENT-ASSOC-REJECT status_code=17") no_events in
    let g = update_event started f in
    (f.failure_reason ≡ codes "assoc_reject") × (g.l2_state ≡ failed) × (g.failure_reason ≡ [])
unfolding update_event bump_sequence note_scan note_link l2_state_for_event failure_reason_for_event
    contains find behind field_after
lost_reason = (refl, refl, refl)
