-- ===== src/WifiManager/Threads.antt =====
-- What holds however the two threads are interleaved.
use network_service.Prelude.{
  ℕ, zero, suc, ◌+◌, ◌≡◌, ◌⊎◌, ◌≤◌, ◌<◌, inl, inr, refl, ap, ◌∙◌, Bool, true, false, ◌||◌, ◌&&◌,
  List, [], ◌∷◌, arith, Bytes, Bool-cases,
}
use native.Mathlib.Decide.{dec_lt}
use network_service.Types.{running}
use network_service.WifiManager.{
  Pc, at_rest, reserved, entered, calling_start, start_called, to_stop, stop_held, to_check,
  check_held, client_gone, Holder, by_monitor, by_server, Machine, Action, connected, disconnected,
  stop, check, monitor_goes, server_goes, client_exits, is_running, inside, rests, step, turn,
  begin_connected, begin_disconnected, begin_stop, finish_start, finish_check, run, machine,
  adopt_dhcp_running,
}

abbrev pub held_by_monitor : Holder → Bool
held_by_monitor by_monitor = true
held_by_monitor _ = false

abbrev pub held_by_server : Holder → Bool
held_by_server by_server = true
held_by_server _ = false

-- In `on_l2_connected`, behind its first section.
abbrev pub connecting : Pc → Bool
connecting reserved = true
connecting entered = true
connecting calling_start = true
connecting (start_called _ _) = true
connecting _ = false

abbrev pub checking : Pc → Bool
checking to_check = true
checking check_held = true
checking client_gone = true
checking _ = false

-- A place from which the client is going to be stopped.
abbrev pub will_stop : Pc → Bool
will_stop to_stop = true
will_stop stop_held = true
will_stop _ = false

-- A start that has succeeded and is about to be written down.
abbrev pub has_started : Pc → Bool
has_started (start_called true e) = true
has_started _ = false

abbrev pub start_failed : Pc → Bool
start_failed (start_called false e) = true
start_failed _ = false

abbrev pub found_gone : Pc → Bool
found_gone client_gone = true
found_gone _ = false

pub record IsManaged (m : Machine) : Type 0 where
  pub monitor_lock : inside m.monitor ≡ held_by_monitor m.holder
  pub server_lock : inside m.server ≡ held_by_server m.holder
  pub monitor_role : checking m.monitor ≡ false
  pub server_role : connecting m.server ≡ false
  pub linked : connecting m.monitor ≡ true → m.state.l2_connected ≡ true
  pub not_yet : connecting m.monitor ≡ true → is_running m.state.dhcp_state ≡ false
  pub no_client : (start_failed m.monitor || found_gone m.server) ≡ true → m.client ≡ false
  pub known :
      m.client ≡ true
      → (is_running m.state.dhcp_state
          || has_started m.monitor
          || will_stop m.monitor
          || will_stop m.server)
        ≡ true

machine-IsManaged : (adopted : Bool) → IsManaged (machine adopted)
unfolding adopt_dhcp_running
machine-IsManaged adopted = ground arith

connected-IsManaged : (m : Machine) → IsManaged m → IsManaged (step connected m)
unfolding step begin_connected
connected-IsManaged m v = ground arith

disconnected-IsManaged : (m : Machine) → IsManaged m → IsManaged (step disconnected m)
unfolding step begin_disconnected
disconnected-IsManaged m v = ground arith

stop-IsManaged : (m : Machine) → IsManaged m → IsManaged (step stop m)
unfolding step begin_stop
stop-IsManaged m v = ground arith

check-IsManaged : (m : Machine) → IsManaged m → IsManaged (step check m)
unfolding step
check-IsManaged m v = ground arith

monitor_goes-IsManaged :
    (ok : Bool) (e : Bytes) (m : Machine) → IsManaged m → IsManaged (step (monitor_goes ok e) m)
unfolding step turn finish_start finish_check
monitor_goes-IsManaged ok e m v = ground arith

server_goes-IsManaged :
    (ok : Bool) (e : Bytes) (m : Machine) → IsManaged m → IsManaged (step (server_goes ok e) m)
unfolding step turn finish_start finish_check
server_goes-IsManaged ok e m v = ground arith

client_exits-IsManaged : (m : Machine) → IsManaged m → IsManaged (step client_exits m)
unfolding step
client_exits-IsManaged m v = ground arith

step-IsManaged : (a : Action) (m : Machine) → IsManaged m → IsManaged (step a m)
step-IsManaged connected m v = connected-IsManaged m v
step-IsManaged disconnected m v = disconnected-IsManaged m v
step-IsManaged stop m v = stop-IsManaged m v
step-IsManaged check m v = check-IsManaged m v
step-IsManaged (monitor_goes ok e) m v = monitor_goes-IsManaged ok e m v
step-IsManaged (server_goes ok e) m v = server_goes-IsManaged ok e m v
step-IsManaged client_exits m v = client_exits-IsManaged m v

pub run-IsManaged : (acts : List Action) (m : Machine) → IsManaged m → IsManaged (run acts m)
unfolding run
run-IsManaged [] m v = v
run-IsManaged (a ∷ acts) m v = run-IsManaged acts (step a m) (step-IsManaged a m v)

-- However the threads are interleaved, they never hold the lock of the DHCP functions together;
-- and when both are at rest, a client that runs is one that the manager counts as running.
pub run-no_orphan :
    (adopted : Bool) (acts : List Action)
    → let m = run acts (machine adopted) in
      ((inside m.monitor && inside m.server) ≡ false)
      × (rests m.monitor ≡ true
          → rests m.server ≡ true
          → m.client ≡ true
          → m.state.dhcp_state ≡ running)
run-no_orphan adopted acts =
    let v = run-IsManaged acts (machine adopted) (machine-IsManaged adopted) in
    (ground (arith, v.monitor_lock, v.server_lock), λ r s c. ground (arith, v.known c))

-- The steps that a call has left at most, once it has the lock.
abbrev pub left : Pc → ℕ
left at_rest = 0
left reserved = 4
left entered = 3
left calling_start = 2
left (start_called _ _) = 1
left to_stop = 2
left stop_held = 1
left to_check = 3
left check_held = 2
left client_gone = 1

abbrev pub all_left : Machine → ℕ
all_left m = left m.monitor + left m.server

-- A round: each thread goes once.
abbrev pub round : Bool → Bytes → Machine → Machine
round ok e m = step (server_goes ok e) (step (monitor_goes ok e) m)

monitor_goes-left :
    (ok : Bool) (e : Bytes) (m : Machine)
    → IsManaged m
    → let n = step (monitor_goes ok e) m in
      (all_left n ≤ all_left m)
      × ((rests m.monitor ≡ false) → (inside m.server ≡ false) → all_left n < all_left m)
unfolding step turn
monitor_goes-left ok e m v = ground arith

server_goes-left :
    (ok : Bool) (e : Bytes) (m : Machine)
    → IsManaged m
    → let n = step (server_goes ok e) m in
      (all_left n ≤ all_left m)
      × ((rests m.server ≡ false) → (inside m.monitor ≡ false) → all_left n < all_left m)
      × (inside m.server ≡ true → all_left n < all_left m)
unfolding step turn
server_goes-left ok e m v = ground arith

monitor_goes-rests :
    (ok : Bool) (e : Bytes) (m : Machine)
    → rests m.monitor ≡ true
    → inside (step (monitor_goes ok e) m).monitor ≡ false
unfolding step turn
monitor_goes-rests ok e m h = ground arith

left-rests : (m : Machine) → 0 < all_left m → (rests m.monitor ≡ false) ⊎ (rests m.server ≡ false)
left-rests m h = ground arith

rests-left : (m : Machine) → all_left m ≤ 0 → (rests m.monitor ≡ true) × (rests m.server ≡ true)
rests-left m h = ground arith

server_stays :
    (ok : Bool) (e : Bytes) (m : Machine) → (step (monitor_goes ok e) m).server ≡ m.server
unfolding step
server_stays ok e m = refl

clash : (b : Bool) → b ≡ true → b ≡ false → ⊥
clash b h k = cc

-- No deadlock: while a call is under way, a round of the two threads brings them nearer to rest.
round-left :
    (ok : Bool) (e : Bytes) (m : Machine)
    → IsManaged m
    → 0 < all_left m
    → all_left (round ok e m) < all_left m
round-left ok e m v h =
    let n = step (monitor_goes ok e) m in
    let w = monitor_goes-IsManaged ok e m v in
    let (a, b) = monitor_goes-left ok e m v in
    let (c, d, f) = server_goes-left ok e n w in
    elim (Bool-cases (inside m.server)) [
      | inl i ↦ omega (arith, a, f (ap inside (server_stays ok e m) ∙ i))
      | inr i ↦ elim (Bool-cases (rests m.monitor)) [
        | inl r ↦ elim (left-rests m h) [
          | inl x ↦ absurd (clash _ r x)
          | inr x ↦
              omega (arith, a, d (ap rests (server_stays ok e m) ∙ x) (monitor_goes-rests ok e m r))
        ]
        | inr r ↦ omega (arith, b r i, c)
      ]
    ]

abbrev pub rounds : ℕ → Bool → Bytes → Machine → Machine
rounds zero ok e m = m
rounds (suc n) ok e m = rounds n ok e (round ok e m)

rounds-rest :
    (n : ℕ) (ok : Bool) (e : Bytes) (m : Machine)
    → IsManaged m
    → all_left m ≤ n
    → (rests (rounds n ok e m).monitor ≡ true) × (rests (rounds n ok e m).server ≡ true)
rounds-rest zero ok e m v h = rests-left m h
rounds-rest (suc n) ok e m v h =
    rounds-rest n ok e (round ok e m)
      (server_goes-IsManaged ok e (step (monitor_goes ok e) m) (monitor_goes-IsManaged ok e m v))
      (elim (dec_lt 0 (all_left m)) [
        | yes p ↦ omega (arith, round-left ok e m v p)
        | no q ↦ omega (
          arith,
          (monitor_goes-left ok e m v).0,
          (server_goes-left ok e (step (monitor_goes ok e) m) (monitor_goes-IsManaged ok e m v)).0,
        )
      ])

all_left-small : (m : Machine) → IsManaged m → all_left m ≤ 7
all_left-small m v = ground arith

-- Every call ends: wherever the two threads are, seven rounds in which each goes once bring both to
-- rest, whatever the DHCP functions answer.
pub rounds-settle :
    (adopted : Bool) (acts : List Action) (ok : Bool) (e : Bytes)
    → let m = rounds 7 ok e (run acts (machine adopted)) in
      (rests m.monitor ≡ true) × (rests m.server ≡ true)
rounds-settle adopted acts ok e =
    let v = run-IsManaged acts (machine adopted) (machine-IsManaged adopted) in
    rounds-rest 7 ok e (run acts (machine adopted)) v
      (all_left-small (run acts (machine adopted)) v)
