-- ===== src/Tests/WifiManager.antt =====
-- Two interleavings of the monitor's thread and the server's.
use network_service.Prelude.{◌≡◌, refl, true, false, List, [], ◌∷◌, ◌&&◌, codes}
use network_service.Types.{running}
use network_service.NetworkState.{dhcp_client_active}
use network_service.WifiManager.{
  Action, connected, disconnected, stop, check, monitor_goes, server_goes, run, machine, inside,
  rests, step, turn, begin_connected, begin_stop, finish_start,
}
use network_service.WifiManager.Threads.{run-no_orphan, rounds, rounds-settle}

-- A link comes up while the server asks for a stop, and the link goes down again.
abbrev up_and_down : List Action
up_and_down =
    connected
    ∷ monitor_goes true []
    ∷ stop
    ∷ server_goes true []
    ∷ monitor_goes true []
    ∷ monitor_goes true []
    ∷ monitor_goes true []
    ∷ server_goes true []
    ∷ server_goes true []
    ∷ disconnected
    ∷ monitor_goes true []
    ∷ monitor_goes true []
    ∷ []

run-no_orphan_example :
    let m = run up_and_down (machine true) in
    ((inside m.monitor && inside m.server) ≡ false)
    × (rests m.monitor ≡ true
        → rests m.server ≡ true
        → m.client ≡ true
        → m.state.dhcp_state ≡ running)
run-no_orphan_example = run-no_orphan true up_and_down

rounds-settle_example :
    let m = rounds 7 false (codes "EBUSY") (run (connected ∷ check ∷ []) (machine false)) in
    (rests m.monitor ≡ true) × (rests m.server ≡ true)
rounds-settle_example = rounds-settle false (connected ∷ check ∷ []) false (codes "EBUSY")

-- A stop that arrives while the client is being started: the start writes down that the client
-- runs, and the stop then takes the client away, so that the state names a client that is gone.
lost_stop :
    let m =
      run
        (connected
          ∷ monitor_goes true []
          ∷ monitor_goes true []
          ∷ stop
          ∷ monitor_goes true []
          ∷ monitor_goes true []
          ∷ server_goes true []
          ∷ server_goes true []
          ∷ [])
        (machine false) in
    (rests m.monitor ≡ true)
    × (rests m.server ≡ true)
    × (m.client ≡ false)
    × (m.state.dhcp_state ≡ running)
unfolding run step turn begin_connected begin_stop finish_start dhcp_client_active
lost_stop = (refl, refl, refl, refl)

-- A stop that arrives before the start has the lock: the client is started after it.
overtaken_stop :
    let m =
      run
        (connected
          ∷ stop
          ∷ server_goes true []
          ∷ server_goes true []
          ∷ monitor_goes true []
          ∷ monitor_goes true []
          ∷ monitor_goes true []
          ∷ monitor_goes true []
          ∷ [])
        (machine false) in
    (rests m.monitor ≡ true)
    × (rests m.server ≡ true)
    × (m.client ≡ true)
    × (m.state.dhcp_state ≡ running)
unfolding run step turn begin_connected begin_stop finish_start dhcp_client_active
overtaken_stop = (refl, refl, refl, refl)
