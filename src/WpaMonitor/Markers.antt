-- ===== src/WpaMonitor/Markers.antt =====
-- The scan markers and the link state that the monitor keeps.
use network_service.Prelude.{
  ℕ, suc, ◌+◌, ◌^◌, ◌≤◌, ◌<◌, ◌≡◌, refl, Bool, true, false, not, List, [], ◌∷◌, Option, none, some,
  arith, length, Bytes, if◌then◌else◌,
}
use network_service.Types.{WifiL2State, unknown}
use network_service.WpaStatus.{WpaStatusFact, l2_state_for_event, normalize_event}
use network_service.WpaMonitor.{
  WpaEventFact, Monitor, Input, not_opened, quiet, lost, attached, received, bump_sequence,
  apply_status, mark_channel_unavailable, attach_without_status, attach_with, reply_status,
  note_scan, note_l2, note_link, update_event, step, run, new_monitor,
}

-- The markers are numbers that have been given; a scan that runs was started after every result and
-- failure; and what is not attached is not known.
pub record IsFact (f : WpaEventFact) : Type 0 where
  pub started : f.last_scan_started_sequence ≤ f.event_sequence
  pub results : f.last_scan_result_sequence ≤ f.event_sequence
  pub failures : f.last_scan_failed_sequence ≤ f.event_sequence
  pub running :
      f.scan_active ≡ true
      → (f.last_scan_result_sequence < f.last_scan_started_sequence)
        × (f.last_scan_failed_sequence < f.last_scan_started_sequence)
  pub detached :
      f.attached ≡ false
      → (f.l2_state ≡ unknown) × (f.scan_active ≡ false) × (f.failure_reason ≡ [])

pub record IsMonitor (m : Monitor) : Type 0 where
  pub fact : IsFact m.fact
  pub listens : m.listening ≡ m.fact.attached

abbrev Fresh : WpaEventFact → ℕ → Type 0
Fresh f n = f.event_sequence ≤ n

mark-IsFact :
    (f : WpaEventFact) (n : ℕ)
    → n + 1 < 2 ^ 64
    → Fresh f n
    → IsFact f
    → IsFact (mark_channel_unavailable f) × Fresh (mark_channel_unavailable f) (suc n)
unfolding mark_channel_unavailable bump_sequence
mark-IsFact f n b s h = ground arith

attach_without-IsFact :
    (f : WpaEventFact) (n : ℕ)
    → n + 1 < 2 ^ 64
    → Fresh f n
    → IsFact f
    → IsFact (attach_without_status f) × Fresh (attach_without_status f) (suc n)
unfolding attach_without_status bump_sequence
attach_without-IsFact f n b s h = ground arith

apply_status-IsFact :
    (t : WpaStatusFact) (f : WpaEventFact) (n : ℕ)
    → n + 1 < 2 ^ 64
    → Fresh f n
    → IsFact f
    → IsFact (apply_status t f) × Fresh (apply_status t f) (suc n)
unfolding apply_status bump_sequence
apply_status-IsFact t f n b s h = ground arith

note_scan-IsFact :
    (event : Bytes) (f : WpaEventFact) (n : ℕ)
    → n + 1 < 2 ^ 64
    → Fresh f n
    → f.attached ≡ true
    → IsFact f
    → let g = note_scan event (bump_sequence (record f { last_event = event })) in
      IsFact g × Fresh g (suc n) × (g.attached ≡ true)
unfolding note_scan bump_sequence
note_scan-IsFact event f n b s a h = ground arith

note_l2-IsFact :
    (l2 : Option WifiL2State) (f : WpaEventFact) (n : ℕ)
    → IsFact f × Fresh f n × (f.attached ≡ true)
    → let g = note_l2 l2 f in IsFact g × Fresh g n × (g.attached ≡ true)
note_l2-IsFact none f n h = h
note_l2-IsFact (some l2) f n (h, s, a) = ground (arith, h, s, a)

note_link-IsFact :
    (event : Bytes) (f : WpaEventFact) (n : ℕ)
    → IsFact f × Fresh f n × (f.attached ≡ true)
    → let g = note_link event f in IsFact g × Fresh g n × (g.attached ≡ true)
unfolding note_link
note_link-IsFact event f n (h, s, a) = ground (arith, h, s, a)

update_event-IsFact :
    (event : Bytes) (f : WpaEventFact) (n : ℕ)
    → n + 1 < 2 ^ 64
    → Fresh f n
    → f.attached ≡ true
    → IsFact f
    → let g = update_event event f in IsFact g × Fresh g (suc n) × (g.attached ≡ true)
unfolding update_event
update_event-IsFact event f n b s a h = note_link-IsFact event _ (suc n) (
    note_l2-IsFact (l2_state_for_event event)
      (note_scan event (bump_sequence (record f { last_event = event }))) (suc n)
      (note_scan-IsFact event f n b s a h))

abbrev Good : Monitor → ℕ → Type 0
Good m n = IsMonitor m × Fresh m.fact n

mark-attached : (f : WpaEventFact) → (mark_channel_unavailable f).attached ≡ false
unfolding mark_channel_unavailable bump_sequence
mark-attached f = ground arith

attach_with-Good :
    (s : WpaStatusFact × Bool) (f : WpaEventFact) (n : ℕ)
    → n + 1 < 2 ^ 64
    → Fresh f n
    → IsFact f
    → Good (record { fact = (attach_with s f).0; listening = true }) (suc n)
unfolding apply_status attach_without_status bump_sequence
attach_with-Good (s, false) f n b r h =
    let (k, q) = attach_without-IsFact f n b r h in (record { fact = k; listens = refl }, q)
attach_with-Good (s, true) f n b r h =
    let (k, q) = apply_status-IsFact s f n b r h in (record { fact = k; listens = refl }, q)

weaker : (m : Monitor) (n : ℕ) → Good m n → Good m (suc n)
weaker m n (h, s) = (h, omega (arith, s))

if-Good :
    (b : Bool) (s t : Monitor × List Bool) (n : ℕ)
    → (b ≡ true → Good s.0 n)
    → (b ≡ false → Good t.0 n)
    → Good (if b then s else t).0 n
if-Good true s t n h k = h refl
if-Good false s t n h k = k refl

step-Good :
    (i : Input) (m : Monitor) (n : ℕ) → n + 1 < 2 ^ 64 → Good m n → Good (step m i).0 (suc n)
unfolding step
step-Good quiet m n b h = weaker m n h
step-Good not_opened m n b (h, s) =
    let (k, q) = mark-IsFact m.fact n b s h.fact in
    if-Good m.listening (m, []) (record m { fact = mark_channel_unavailable m.fact }, []) (suc n)
      (λ _. weaker m n (h, s))
      (λ e. (record { fact = k; listens = ground (arith, e, mark-attached m.fact) }, q))
step-Good (attached reply) m n b (h, s) =
    let (fact, calls) = attach_with (reply_status reply) m.fact in
    if-Good m.listening (m, []) (record { fact = fact; listening = true }, calls) (suc n)
      (λ _. weaker m n (h, s)) (λ _. attach_with-Good (reply_status reply) m.fact n b s h.fact)
step-Good (received event) m n b (h, s) =
    if-Good (not m.listening) (m, []) _ (suc n) (λ _. weaker m n (h, s))
      (λ e.
        let l : m.listening ≡ true = ground (arith, e) in
        let (k, q, a) =
          update_event-IsFact (normalize_event event) m.fact n b s (ground (arith, l, h.listens))
            h.fact in
        (record { fact = k; listens = ground (arith, l, a) }, q))
step-Good lost m n b (h, s) =
    let (k, q) = mark-IsFact m.fact n b s h.fact in
    if-Good (not m.listening) (m, [])
      (record { fact = mark_channel_unavailable m.fact; listening = false }, []) (suc n)
      (λ _. weaker m n (h, s))
      (λ e. (record { fact = k; listens = ground (arith, mark-attached m.fact) }, q))

run-Good :
    (is : List Input) (m : Monitor) (n : ℕ)
    → n + length is < 2 ^ 64
    → Good m n
    → IsMonitor (run m is).0
unfolding run
run-Good [] m n b h = h.0
run-Good (i ∷ is) m n b h =
    run-Good is (step m i).0 (suc n) (omega (arith, b)) (step-Good i m n (omega (arith, b)) h)

new-IsMonitor : IsMonitor new_monitor
new-IsMonitor = record {
  fact = record {
    started = omega arith;
    results = omega arith;
    failures = omega arith;
    running = λ e. cc;
    detached = λ e. (refl, refl, refl);
  };
  listens = refl;
}

-- Over fewer than 2^64 rounds of the monitor's thread, whatever the supplicant sends and however
-- often its socket is lost: a scan marker is never ahead of the sequence, a scan that counts as
-- running was started after every result and failure that was seen, the thread listens exactly
-- while the facts say attached, and while they do not, the link is unknown, no scan runs and there
-- is no failure reason.
pub run_new-IsMonitor : (is : List Input) → length is < 2 ^ 64 → IsMonitor (run new_monitor is).0
run_new-IsMonitor is b = run-Good is new_monitor 0 (omega (arith, b)) (new-IsMonitor, omega arith)
