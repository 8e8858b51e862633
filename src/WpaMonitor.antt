-- ===== src/WpaMonitor.antt =====
-- src/platform/wpa_event_monitor.cpp and its header: what the supplicant's events and its status
-- reply make known about the Wi-Fi link and its scans. The thread's loop is a sequence of inputs,
-- one for each round, and returns the calls of the link state handler, which is set.
pub mod Markers
pub mod Scans
use network_service.Prelude.{
  ℕ, ◌+◌, ◌%◌, ◌^◌, Bool, true, false, not, ◌&&◌, ◌||◌, List, [], ◌∷◌, ◌++◌, Option, none, some,
  ◌==◌, if◌then◌else◌, is_empty, Bytes, codes, text_eq,
}
use network_service.Types.{
  WifiL2State, unknown, disabled, disconnected, associating, associated, handshake, connected,
  failed,
}
use network_service.ChangeDetector.{l2_state_eq}
use network_service.Lines.{find, contains, up_to, key_value, lines}
use network_service.WpaStatus.{
  WpaStatusFact, no_status, field_after, normalize_event, l2_state_for_event,
  failure_reason_for_event, l2_state_for_status, parse_wpa_status_reply,
}

pub record WpaEventFact : Type 0 where
  pub attached : Bool
  pub l2_state : WifiL2State
  pub scan_active : Bool
  pub failure_reason : Bytes
  pub connect_events : ℕ
  pub disconnect_events : ℕ
  pub scan_started_events : ℕ
  pub scan_result_events : ℕ
  pub scan_failed_events : ℕ
  pub event_sequence : ℕ
  pub last_scan_started_sequence : ℕ
  pub last_scan_result_sequence : ℕ
  pub last_scan_failed_sequence : ℕ
  pub last_event : Bytes
  pub last_ssid : Bytes
  pub last_bssid : Bytes

abbrev pub no_events : WpaEventFact
no_events = record {
  attached = false;
  l2_state = unknown;
  scan_active = false;
  failure_reason = [];
  connect_events = 0;
  disconnect_events = 0;
  scan_started_events = 0;
  scan_result_events = 0;
  scan_failed_events = 0;
  event_sequence = 0;
  last_scan_started_sequence = 0;
  last_scan_result_sequence = 0;
  last_scan_failed_sequence = 0;
  last_event = [];
  last_ssid = [];
  last_bssid = [];
}

-- `++event_sequence`, once more if it wrapped to 0.
unfoldable pub bump_sequence : WpaEventFact → WpaEventFact
bump_sequence f =
    let next = (f.event_sequence + 1) % 2 ^ 64 in
    record f { event_sequence = if next == 0 then (next + 1) % 2 ^ 64 else next }

unfoldable pub apply_status : WpaStatusFact → WpaEventFact → WpaEventFact
unfolding bump_sequence
apply_status s f = bump_sequence (record f {
  attached = true;
  l2_state = s.l2_state;
  failure_reason = [];
  last_ssid = if not (is_empty s.ssid) then s.ssid else f.last_ssid;
  last_bssid = if not (is_empty s.bssid) then s.bssid else f.last_bssid;
})

unfoldable pub mark_channel_unavailable : WpaEventFact → WpaEventFact
unfolding bump_sequence
mark_channel_unavailable f =
    let changed =
      f.attached
      || not (l2_state_eq f.l2_state unknown)
      || f.scan_active
      || not (is_empty f.failure_reason) in
    let g = record f {
      attached = false;
      l2_state = unknown;
      scan_active = false;
      failure_reason = [];
    } in
    if changed then bump_sequence g else g

-- The three scan markers of an event.
abbrev pub note_started : Bool → WpaEventFact → WpaEventFact
note_started seen f =
    if seen
    then record f {
      scan_active = true;
      scan_started_events = (f.scan_started_events + 1) % 2 ^ 32;
      last_scan_started_sequence = f.event_sequence;
    }
    else f

abbrev pub note_results : Bool → WpaEventFact → WpaEventFact
note_results seen f =
    if seen
    then record f {
      scan_active = false;
      scan_result_events = (f.scan_result_events + 1) % 2 ^ 32;
      last_scan_result_sequence = f.event_sequence;
    }
    else f

abbrev pub note_failed : Bool → WpaEventFact → WpaEventFact
note_failed seen f =
    if seen
    then record f {
      scan_active = false;
      scan_failed_events = (f.scan_failed_events + 1) % 2 ^ 32;
      last_scan_failed_sequence = f.event_sequence;
    }
    else f

unfoldable pub note_scan : Bytes → WpaEventFact → WpaEventFact
unfolding contains
note_scan event f = note_failed (contains (codes "CTRL-EVENT-SCAN-FAILED") event) (
    note_results (contains (codes "CTRL-EVENT-SCAN-RESULTS") event)
      (note_started (contains (codes "CTRL-EVENT-SCAN-STARTED") event) f))

abbrev pub note_l2 : Option WifiL2State → WpaEventFact → WpaEventFact
note_l2 none f = f
note_l2 (some l2) f = record f { l2_state = l2 }

unfoldable pub note_link : Bytes → WpaEventFact → WpaEventFact
unfolding field_after failure_reason_for_event contains
note_link event f =
    let id = field_after event (codes "id_str=") in
    let bssid = field_after event (codes "Connection to ") in
    if contains (codes "CTRL-EVENT-CONNECTED") event
    then record f {
      failure_reason = [];
      connect_events = (f.connect_events + 1) % 2 ^ 32;
      last_ssid = if not (is_empty id) then id else f.last_ssid;
      last_bssid = if not (is_empty bssid) then bssid else f.last_bssid;
    }
    else if contains (codes "CTRL-EVENT-DISCONNECTED") event
    then record f { disconnect_events = (f.disconnect_events + 1) % 2 ^ 32 }
    else if l2_state_eq f.l2_state failed
    then record f { failure_reason = failure_reason_for_event event }
    else f

unfoldable pub update_event : Bytes → WpaEventFact → WpaEventFact
unfolding bump_sequence note_scan note_link l2_state_for_event
update_event event f = note_link event (
    note_l2 (l2_state_for_event event)
      (note_scan event (bump_sequence (record f { last_event = event }))))

-- `run`: the control socket cannot be opened; it is attached, with the reply to STATUS if there was
-- one; an event is received; nothing comes within a second; the socket fails.
pub data Input : Type 0 where
  not_opened quiet lost : Input
  attached : Option Bytes → Input
  received : Bytes → Input

pub record Monitor : Type 0 where
  pub fact : WpaEventFact
  pub listening : Bool

-- ATTACH succeeded but there was no status.
unfoldable pub attach_without_status : WpaEventFact → WpaEventFact
unfolding bump_sequence
attach_without_status f =
    bump_sequence (record f { attached = true; l2_state = unknown; failure_reason = [] })

abbrev pub attach_with : WpaStatusFact × Bool → WpaEventFact → WpaEventFact × List Bool
attach_with (s, false) f = (attach_without_status f, [])
attach_with (s, true) f = (
  apply_status s f,
  if not (l2_state_eq s.l2_state unknown) then l2_state_eq s.l2_state connected ∷ [] else [],
)

abbrev pub reply_status : Option Bytes → WpaStatusFact × Bool
reply_status none = (no_status, false)
reply_status (some reply) = parse_wpa_status_reply reply

unfoldable pub link_calls : Bytes → List Bool
unfolding contains
link_calls event =
    if contains (codes "CTRL-EVENT-CONNECTED") event
    then true ∷ []
    else if contains (codes "CTRL-EVENT-DISCONNECTED") event
    then false ∷ []
    else []

-- One round, outside and inside the inner loop; an input that cannot come there changes nothing.
unfoldable pub step : Monitor → Input → Monitor × List Bool
unfolding parse_wpa_status_reply apply_status attach_without_status mark_channel_unavailable
    update_event link_calls normalize_event
step m not_opened =
    if m.listening then (m, []) else (record m { fact = mark_channel_unavailable m.fact }, [])
step m (attached reply) =
    let (fact, calls) = attach_with (reply_status reply) m.fact in
    if m.listening then (m, []) else (record { fact = fact; listening = true }, calls)
step m (received event) = if not m.listening then (m, []) else (
  record m { fact = update_event (normalize_event event) m.fact },
  link_calls (normalize_event event),
)
step m quiet = (m, [])
step m lost =
    if not m.listening
    then (m, [])
    else (record { fact = mark_channel_unavailable m.fact; listening = false }, [])

unfoldable pub run : Monitor → List Input → Monitor × List Bool
unfolding step
run m [] = (m, [])
run m (i ∷ is) = let (n, calls) = step m i in let (last, later) = run n is in (last, calls ++ later)

abbrev pub new_monitor : Monitor
new_monitor = record { fact = no_events; listening = false }
