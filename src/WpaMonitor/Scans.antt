-- ===== src/WpaMonitor/Scans.antt =====
-- A scan that the lifecycle has started, followed through the events of the supplicant: the markers
-- are those that src/service/network_daemon.cpp passes from the monitor to the lifecycle.
use network_service.Prelude.{
  ℕ, suc, ◌+◌, ◌^◌, ◌≤◌, ◌<◌, ◌≡◌, refl, ap, ◌∙◌, inl, Bool, true, false, List, [], ◌∷◌, Option,
  none, some, arith, length, Bytes, codes, if◌then◌else◌,
}
use network_service.Types.{WifiL2State}
use network_service.Lines.{contains}
use network_service.WifiScan.{
  WifiScanEventMarkers, WifiScanLifecycle, Answers, scanning, ready, events, poll,
}
use network_service.WifiScan.Lifecycle.{ReadsWell, Completed, poll_ready_iff}
use network_service.WpaStatus.{l2_state_for_event}
use network_service.WpaMonitor.{
  WpaEventFact, bump_sequence, note_scan, note_l2, note_link, update_event,
}
use network_service.WpaMonitor.Markers.{IsFact}

abbrev pub scan_markers : WpaEventFact → WifiScanEventMarkers
scan_markers f = record {
  sequence = f.event_sequence;
  started_sequence = f.last_scan_started_sequence;
  completed_sequence = f.last_scan_result_sequence;
  failed_sequence = f.last_scan_failed_sequence;
}

abbrev pub hear : WpaEventFact → List Bytes → WpaEventFact
hear f [] = f
hear f (e ∷ es) = hear (update_event e f) es

-- Which scan markers an event has: started, results, failed.
abbrev pub Marks : Bool → Bool → Bool → Bytes → Type 0
Marks s r x e =
    (contains (codes "CTRL-EVENT-SCAN-STARTED") e ≡ s)
    × (contains (codes "CTRL-EVENT-SCAN-RESULTS") e ≡ r)
    × (contains (codes "CTRL-EVENT-SCAN-FAILED") e ≡ x)

abbrev pub AreOther : List Bytes → Type 0
AreOther [] = Unit
AreOther (e ∷ es) = Marks false false false e × AreOther es

-- The link part of an event leaves the markers.
record Same (f g : WpaEventFact) : Type 0 where
  sequence : g.event_sequence ≡ f.event_sequence
  started : g.last_scan_started_sequence ≡ f.last_scan_started_sequence
  results : g.last_scan_result_sequence ≡ f.last_scan_result_sequence
  failures : g.last_scan_failed_sequence ≡ f.last_scan_failed_sequence

note_l2_lem : (l2 : Option WifiL2State) (f : WpaEventFact) → Same f (note_l2 l2 f)
note_l2_lem none f = ground arith
note_l2_lem (some l2) f = ground arith

note_link_lem : (event : Bytes) (f : WpaEventFact) → Same f (note_link event f)
unfolding note_link
note_link_lem event f = ground arith

-- An event by its markers.
record Marked (s r x : Bool) (f g : WpaEventFact) : Type 0 where
  sequence : g.event_sequence ≡ suc f.event_sequence
  started :
      g.last_scan_started_sequence
      ≡ (if s then suc f.event_sequence else f.last_scan_started_sequence)
  results :
      g.last_scan_result_sequence
      ≡ (if r then suc f.event_sequence else f.last_scan_result_sequence)
  failures :
      g.last_scan_failed_sequence
      ≡ (if x then suc f.event_sequence else f.last_scan_failed_sequence)

note_scan-Marked :
    (s r x : Bool) (e : Bytes) (f : WpaEventFact)
    → Marks s r x e
    → f.event_sequence + 1 < 2 ^ 64
    → Marked s r x f (note_scan e (bump_sequence (record f { last_event = e })))
unfolding note_scan bump_sequence
note_scan-Marked s r x e f (a, b, c) h = ground (arith, a, b, c)

update_event-Marked :
    (s r x : Bool) (e : Bytes) (f : WpaEventFact)
    → Marks s r x e
    → f.event_sequence + 1 < 2 ^ 64
    → Marked s r x f (update_event e f)
unfolding update_event
update_event-Marked s r x e f m h =
    let g = note_scan e (bump_sequence (record f { last_event = e })) in
    let k = note_scan-Marked s r x e f m h in
    let p = note_l2_lem (l2_state_for_event e) g in
    let q = note_link_lem e (note_l2 (l2_state_for_event e) g) in
    record {
      sequence = q.sequence ∙ p.sequence ∙ k.sequence;
      started = q.started ∙ p.started ∙ k.started;
      results = q.results ∙ p.results ∙ k.results;
      failures = q.failures ∙ p.failures ∙ k.failures;
    }

-- Events without a scan marker only count.
record Counted (n : ℕ) (f g : WpaEventFact) : Type 0 where
  sequence : g.event_sequence ≡ f.event_sequence + n
  started : g.last_scan_started_sequence ≡ f.last_scan_started_sequence
  results : g.last_scan_result_sequence ≡ f.last_scan_result_sequence
  failures : g.last_scan_failed_sequence ≡ f.last_scan_failed_sequence

hear-Counted :
    (es : List Bytes) (f : WpaEventFact)
    → AreOther es
    → f.event_sequence + length es < 2 ^ 64
    → Counted (length es) f (hear f es)
hear-Counted [] f o h = record {
  sequence = omega arith;
  started = refl;
  results = refl;
  failures = refl;
}
hear-Counted (e ∷ es) f (m, o) h =
    let k = update_event-Marked false false false e f m (omega (arith, h)) in
    let r = hear-Counted es (update_event e f) o (omega (arith, h, k.sequence)) in
    record {
      sequence = omega (arith, r.sequence, k.sequence);
      started = r.started ∙ k.started;
      results = r.results ∙ k.results;
      failures = r.failures ∙ k.failures;
    }

by_markers :
    (l : WifiScanLifecycle) (a : Answers) (m : WifiScanEventMarkers)
    → a.events_fn ≡ some m
    → l.baseline.sequence < m.started_sequence
    → m.started_sequence < m.completed_sequence
    → m.failed_sequence ≤ m.started_sequence
    → ReadsWell a.results_fn
    → Completed l a
unfolding events
by_markers l a m e s c x r = record {
  started_after = rw e s;
  completed_after = rw e c;
  read = r;
  not_failed = inl (rw e x);
}

-- A scan that is under way since the facts `f`, with whatever other events come before, between
-- and behind: once the supplicant has announced its start and then its results, and no failure, a
-- poll that reads the results well makes the scan ready, as long as the sequence does not wrap.
pub poll-heard :
    (l : WifiScanLifecycle) (f : WpaEventFact) (before between behind : List Bytes)
    (start results : Bytes) (a : Answers)
    → l.state ≡ scanning
    → l.baseline ≡ scan_markers f
    → IsFact f
    → f.event_sequence + (length before + (length between + (length behind + 2))) < 2 ^ 64
    → AreOther before
    → Marks true false false start
    → AreOther between
    → Marks false true false results
    → AreOther behind
    → a.events_fn
      ≡ some (
          scan_markers (
            hear (update_event results (hear (update_event start (hear f before)) between)) behind))
    → ReadsWell a.results_fn
    → (poll l a).0.state ≡ ready
poll-heard l f before between behind start results a s b v h o₁ m₁ o₂ m₂ o₃ e r =
    let f₁ = hear f before in
    let f₂ = update_event start f₁ in
    let f₃ = hear f₂ between in
    let f₄ = update_event results f₃ in
    let c₁ = hear-Counted before f o₁ (omega (arith, h)) in
    let k₁ = update_event-Marked true false false start f₁ m₁ (omega (arith, h, c₁.sequence)) in
    let c₂ = hear-Counted between f₂ o₂ (omega (arith, h, c₁.sequence, k₁.sequence)) in
    let k₂ =
      update_event-Marked false true false results f₃ m₂
        (omega (arith, h, c₁.sequence, k₁.sequence, c₂.sequence)) in
    let c₃ =
      hear-Counted behind f₄ o₃
        (omega (arith, h, c₁.sequence, k₁.sequence, c₂.sequence, k₂.sequence)) in
    let base : l.baseline.sequence ≡ f.event_sequence = ap (λ m. m.sequence) b in
    let started = c₃.started ∙ k₂.started ∙ c₂.started ∙ k₁.started in
    let completed = c₃.results ∙ k₂.results in
    let not_failed = c₃.failures ∙ k₂.failures ∙ c₂.failures ∙ k₁.failures ∙ c₁.failures in
    (poll_ready_iff l a s).1 (
      by_markers l a (scan_markers (hear f₄ behind)) e (omega (arith, base, started, c₁.sequence))
        (omega (arith, started, completed, c₁.sequence, k₁.sequence, c₂.sequence))
        (omega (arith, started, not_failed, v.failures, c₁.sequence)) r)
