-- ===== src/WifiManager.antt =====
-- src/service/wifi_manager.cpp and its header: the DHCP client that follows the Wi-Fi link. The
-- monitor's thread calls `on_l2_connected` and `on_l2_disconnected`; the server's thread calls
-- `stop_dhcp` and `reconcile_dhcp_process`. Each section under `lock_` is one step, and so is each
-- call under `operation_lock_`, with the threads interleaved in any order. The three functions are
-- set, as the daemon sets them.
pub mod Threads
use network_service.Prelude.{
  ℕ, ◌+◌, ◌%◌, ◌^◌, Bool, true, false, not, ◌||◌, ◌&&◌, List, [], ◌∷◌, ◌++◌, if◌then◌else◌,
  is_empty, Bytes, codes,
}
use network_service.Types.{DhcpClientState, idle, starting, running, failed}
use network_service.NetworkState.{dhcp_client_active}

pub record WifiManagerState : Type 0 where
  pub l2_connected : Bool
  pub dhcp_state : DhcpClientState
  pub dhcp_requests : ℕ
  pub failure_reason : Bytes

abbrev pub new_state : WifiManagerState
new_state = record {
  l2_connected = false;
  dhcp_state = idle;
  dhcp_requests = 0;
  failure_reason = [];
}

-- The first section of `on_l2_connected`, and whether the call goes on.
unfoldable pub begin_connected : WifiManagerState → WifiManagerState × Bool
unfolding dhcp_client_active
begin_connected s =
    let linked = record s { l2_connected = true; failure_reason = [] } in
    if dhcp_client_active s.dhcp_state then (linked, false) else (
      record linked { dhcp_state = starting; dhcp_requests = (s.dhcp_requests + 1) % 2 ^ 32 },
      true,
    )

-- The last section of `on_l2_connected`, on what `dhcp_start_` answered.
unfoldable pub finish_start : Bool → Bytes → WifiManagerState → WifiManagerState
finish_start started error s =
    if not started
    then record s {
      dhcp_state = failed;
      failure_reason =
          if is_empty error
          then codes "dhcp_start_failed"
          else codes "dhcp_start_failed" ++ (codes ": " ++ error);
    }
    else record s { dhcp_state = if s.l2_connected then running else idle }

-- The first section of `stop_dhcp`, and whether the client is to be stopped.
unfoldable pub begin_stop : WifiManagerState → WifiManagerState × Bool
unfolding dhcp_client_active
begin_stop s =
    (record s { dhcp_state = idle; failure_reason = [] }, dhcp_client_active s.dhcp_state)

-- The first section of `on_l2_disconnected`.
unfoldable pub begin_disconnected : WifiManagerState → WifiManagerState × Bool
unfolding dhcp_client_active
begin_disconnected s = (
  record s { l2_connected = false; dhcp_state = idle; failure_reason = [] },
  dhcp_client_active s.dhcp_state,
)

abbrev pub is_running : DhcpClientState → Bool
is_running running = true
is_running _ = false

-- The last section of `reconcile_dhcp_process`, where the client has exited.
unfoldable pub finish_check : WifiManagerState → WifiManagerState
finish_check s =
    if is_running s.dhcp_state
    then record s { dhcp_state = failed; failure_reason = codes "dhcp_process_exited" }
    else s

-- `adopt_dhcp_running`, called before the threads start.
unfoldable pub adopt_dhcp_running : WifiManagerState → WifiManagerState
adopt_dhcp_running s = record s { dhcp_state = running; failure_reason = [] }

-- Where a thread stands: at rest; waiting for `operation_lock_`, or holding it, in one of the calls.
pub data Pc : Type 0 where
  at_rest : Pc
  reserved entered calling_start : Pc
  start_called : Bool → Bytes → Pc
  to_stop stop_held : Pc
  to_check check_held client_gone : Pc

pub data Holder : Type 0 where
  free by_monitor by_server : Holder

-- The manager with its two threads, and whether a DHCP client process is running.
pub record Machine : Type 0 where
  pub state : WifiManagerState
  pub holder : Holder
  pub monitor : Pc
  pub server : Pc
  pub client : Bool

pub data Action : Type 0 where
  connected disconnected stop check : Action
  monitor_goes server_goes : Bool → Bytes → Action
  client_exits : Action

abbrev pub is_free : Holder → Bool
is_free free = true
is_free _ = false

abbrev pub rests : Pc → Bool
rests at_rest = true
rests _ = false

abbrev pub after : Bool → Pc → Pc
after go pc = if go then pc else at_rest

-- What one step of a thread does to the state, the client and its own place; the lock is taken or
-- given back by where it goes.
pub record Turn : Type 0 where
  pub state : WifiManagerState
  pub client : Bool
  pub pc : Pc

-- `ok` and `error` are what `dhcp_start_` answers if this step calls it.
unfoldable pub turn : Bool → Bool → Bytes → WifiManagerState → Bool → Pc → Turn
unfolding finish_start finish_check
turn lock_free ok error s client at_rest = record { state = s; client = client; pc = at_rest }
turn lock_free ok error s client reserved = record {
  state = s;
  client = client;
  pc = if lock_free then entered else reserved;
}
turn lock_free ok error s client entered =
    if s.l2_connected
    then record { state = s; client = client; pc = calling_start }
    else record { state = record s { dhcp_state = idle }; client = client; pc = at_rest }
turn lock_free ok error s client calling_start = record {
  state = s;
  client = ok;
  pc = start_called ok error;
}
turn lock_free ok error s client (start_called started e) = record {
  state = finish_start started e s;
  client = client;
  pc = at_rest;
}
turn lock_free ok error s client to_stop = record {
  state = s;
  client = client;
  pc = if lock_free then stop_held else to_stop;
}
turn lock_free ok error s client stop_held = record { state = s; client = false; pc = at_rest }
turn lock_free ok error s client to_check = record {
  state = s;
  client = client;
  pc = if lock_free then check_held else to_check;
}
turn lock_free ok error s client check_held = record {
  state = s;
  client = client;
  pc = if client then at_rest else client_gone;
}
turn lock_free ok error s client client_gone = record {
  state = finish_check s;
  client = client;
  pc = at_rest;
}

-- The places where a thread holds `operation_lock_`.
abbrev pub inside : Pc → Bool
inside entered = true
inside calling_start = true
inside (start_called _ _) = true
inside stop_held = true
inside check_held = true
inside client_gone = true
inside _ = false

abbrev pub lock_after : Holder → Holder → Bool → Bool → Holder
lock_after me h before now = if now then me else if before then free else h

unfoldable pub step : Action → Machine → Machine
unfolding turn begin_connected begin_disconnected begin_stop
step connected m =
    let (s, go) = begin_connected m.state in
    if rests m.monitor then record m { state = s; monitor = after go reserved } else m
step disconnected m =
    let (s, go) = begin_disconnected m.state in
    if rests m.monitor then record m { state = s; monitor = after go to_stop } else m
step stop m =
    let (s, go) = begin_stop m.state in
    if rests m.server then record m { state = s; server = after go to_stop } else m
step check m =
    if rests m.server
    then record m { server = after (is_running m.state.dhcp_state) to_check }
    else m
step (monitor_goes ok error) m =
    let t = turn (is_free m.holder) ok error m.state m.client m.monitor in
    record m {
      state = t.state;
      client = t.client;
      monitor = t.pc;
      holder = lock_after by_monitor m.holder (inside m.monitor) (inside t.pc);
    }
step (server_goes ok error) m =
    let t = turn (is_free m.holder) ok error m.state m.client m.server in
    record m {
      state = t.state;
      client = t.client;
      server = t.pc;
      holder = lock_after by_server m.holder (inside m.server) (inside t.pc);
    }
step client_exits m = record m { client = false }

unfoldable pub run : List Action → Machine → Machine
unfolding step
run [] m = m
run (a ∷ rest) m = run rest (step a m)

-- At the start no thread has called; a client that runs has been adopted.
abbrev pub machine : Bool → Machine
machine adopted = record {
  state = if adopted then adopt_dhcp_running new_state else new_state;
  holder = free;
  monitor = at_rest;
  server = at_rest;
  client = adopted;
}
