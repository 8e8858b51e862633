-- ===== src/WifiScan.antt =====
-- src/service/wifi_scan_lifecycle.cpp and its header: one Wi-Fi scan at a time, driven by polling.
-- The injected functions answer at most once in a call, so a call takes their answers; `none` is an
-- empty `std::function`. Time is counted in milliseconds and does not wrap.
pub mod Lifecycle
pub mod Verdict
use network_service.Prelude.{
  ℕ, suc, ◌+◌, ◌%◌, ◌^◌, Bool, true, false, not, ◌&&◌, ◌||◌, List, [], ◌∷◌, ◌++◌, Option, none,
  some, ltb, leb, ◌==◌, if◌then◌else◌, is_empty, Bytes, codes,
}
use network_service.Prelude.Int.{ℤ, pos, negsuc}
use network_service.Types.{WifiApRecord}

pub data WifiScanState : Type 0 where
  idle scanning ready failed : WifiScanState

pub record WifiScanEventMarkers : Type 0 where
  pub sequence : ℕ
  pub started_sequence : ℕ
  pub completed_sequence : ℕ
  pub failed_sequence : ℕ

pub record WifiScanStatus : Type 0 where
  pub scan_id : ℕ
  pub state : WifiScanState
  pub error : Bytes
  pub records : List WifiApRecord

pub record WifiScanLifecycle : Type 0 where
  pub timeout : ℕ
  pub scan_id : ℕ
  pub state : WifiScanState
  pub error : Bytes
  pub records : List WifiApRecord
  pub baseline : WifiScanEventMarkers
  pub deadline : ℕ

-- What the injected functions answer during one call: `StartFn` its result and error text,
-- `ResultsFn` its records and error text, `EventsFn` the markers, and the clock the time.
pub record Answers : Type 0 where
  pub start_fn : Option (Bool × Bytes)
  pub results_fn : Option (List WifiApRecord × Bytes)
  pub events_fn : Option WifiScanEventMarkers
  pub now : ℕ

abbrev pub no_markers : WifiScanEventMarkers
no_markers = record {
  sequence = 0;
  started_sequence = 0;
  completed_sequence = 0;
  failed_sequence = 0;
}

unfoldable pub timeout_or_default : ℤ → ℕ
timeout_or_default (pos n) = if n == 0 then 5000 else n
timeout_or_default (negsuc n) = 5000

unfoldable pub new_lifecycle : ℤ → WifiScanLifecycle
unfolding timeout_or_default
new_lifecycle timeout = record {
  timeout = timeout_or_default timeout;
  scan_id = 0;
  state = idle;
  error = [];
  records = [];
  baseline = no_markers;
  deadline = 0;
}

unfoldable pub events : Answers → WifiScanEventMarkers
events a = elim a.events_fn [ none ↦ no_markers | some m ↦ m ]

unfoldable pub fail : WifiScanLifecycle → Bytes → WifiScanLifecycle
fail l error = record l {
  state = failed;
  error = if is_empty error then codes "scan_failed" else error;
  records = [];
}

unfoldable pub status : WifiScanLifecycle → WifiScanStatus
status l = record { scan_id = l.scan_id; state = l.state; error = l.error; records = l.records }

-- `++scan_id_`, once more if it wrapped to 0.
unfoldable pub next_scan_id : ℕ → ℕ
next_scan_id n = let m = (n + 1) % 2 ^ 64 in if m == 0 then (m + 1) % 2 ^ 64 else m

-- The end of `start`, on what `StartFn` answered.
unfoldable pub try_start : WifiScanLifecycle → Option (Bool × Bytes) → WifiScanLifecycle
unfolding fail
try_start l none = fail l (codes "scan_start_failed")
try_start l (some (true, error)) = l
try_start l (some (false, error)) =
    fail l (if is_empty error then codes "scan_start_failed" else error)

abbrev pub is_scanning : WifiScanState → Bool
is_scanning scanning = true
is_scanning _ = false

unfoldable pub begin_scan : WifiScanLifecycle → Answers → WifiScanLifecycle
unfolding next_scan_id events
begin_scan l a = record l {
  scan_id = next_scan_id l.scan_id;
  state = scanning;
  error = [];
  records = [];
  baseline = events a;
  deadline = a.now + l.timeout;
}

unfoldable pub start : WifiScanLifecycle → Answers → WifiScanLifecycle × WifiScanStatus
unfolding begin_scan try_start status
start l a =
    let l' = try_start (begin_scan l a) a.start_fn in
    if is_scanning l.state then (l, status l) else (l', status l')

-- The results of a completed scan, or why they cannot be had.
unfoldable pub take_results :
    WifiScanLifecycle → Option (List WifiApRecord × Bytes) → WifiScanLifecycle
unfolding fail
take_results l none = record l { records = []; state = ready; error = [] }
take_results l (some (records, error)) =
    if not (is_empty error)
    then fail l (codes "scan_results_failed: " ++ error)
    else record l { records = records; state = ready; error = [] }

unfoldable pub poll_scanning : WifiScanLifecycle → Answers → WifiScanLifecycle
unfolding fail events
poll_scanning l a =
    let current = events a in
    let current_scan_started = ltb l.baseline.sequence current.started_sequence in
    if current_scan_started
      && ltb current.started_sequence current.failed_sequence
      && ltb current.completed_sequence current.failed_sequence
    then fail l (codes "scan_failed")
    else if current_scan_started && ltb current.started_sequence current.completed_sequence
    then take_results l a.results_fn
    else if leb l.deadline a.now
    then fail l (codes "timeout")
    else l

unfoldable pub poll : WifiScanLifecycle → Answers → WifiScanLifecycle × WifiScanStatus
unfolding poll_scanning status
poll l a =
    let l' = poll_scanning l a in
    if not (is_scanning l.state) then (l, status l) else (l', status l')

unfoldable pub wifi_scan_state_name : WifiScanState → Bytes
wifi_scan_state_name idle = codes "idle"
wifi_scan_state_name scanning = codes "scanning"
wifi_scan_state_name ready = codes "ready"
wifi_scan_state_name failed = codes "failed"
