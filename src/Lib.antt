-- ===== src/Lib.antt =====
-- A model of network_service, the daemon that manages Ethernet, Wi-Fi, routes and DNS of a device
-- and answers clients on a local socket.
--
-- The parts and how they interact. A client of protocol v1 sends frames: bytes come in chunks from
-- the socket into a FrameDecoder (Codec), and each frame goes to the client's Session (Session),
-- which first wants a HELLO (Hello) and then takes REQUESTs (Request), both JSON texts read by a
-- small scanner (Json). A session answers by itself or hands the request on to the server. What
-- the server sends goes through a bounded queue and a writer with a stall timeout (Outbound);
-- events are numbered (Event), and the client's tracker accepts them in order or asks for a new
-- snapshot (Rebase). Behind the server, platform facts are normalised into one snapshot
-- (NetworkState), a detector tells which parts have changed in meaning (ChangeDetector), the
-- control plane owns default routes and the resolver file under a route policy (PlaneState,
-- ControlPlane), follows its links and their leases (PlaneLinks) and repairs what others changed
-- (PlaneRepair), and Wi-Fi is scanned (WifiScan) and its saved profiles are managed (WifiProfile),
-- all through injected functions. The Wi-Fi manager (WifiManager) runs callers and a worker on
-- shared flags, the WPA monitor (WpaMonitor) turns the supplicant's messages (WpaStatus) into
-- facts, and the Ethernet configuration is kept in a file (EthernetText) that is staged and then
-- renamed (EthernetFile), in one transaction with what the plane puts into effect
-- (EthernetTransaction). A request of a session reaches the daemon through the business dispatch
-- (BusinessReader, Business), which writes what the daemon answers as JSON (Representation).
--
-- Which file models which code:
--   Codec           src/ipc/network_ipc_v1_codec.cpp: encode_frame, decode_header and FrameDecoder
--                   (feed, parse_available, take_frame, reset)
--   Rebase          src/ipc/network_ipc_v1_rebase.cpp: RebaseTracker and encode_snapshot_response
--   Event           src/ipc/network_ipc_v1_event.cpp: EventSequencer and json_escape
--   Outbound        src/ipc/network_ipc_v1_outbound.cpp: OutboundQueue and OutboundWriter
--   Json            src/ipc/network_ipc_v1_session.cpp, up to parse_uint64
--   Hello, Request  src/ipc/network_ipc_v1_session.cpp: parse_hello_versions and parse_request
--   Session         src/ipc/network_ipc_v1_session.cpp: Session::handle_frame, handle_request and the
--                   results that they build
--   Types           include/network_service_types.h and include/network_service_contracts.h
--   NetworkState    src/service/network_state.cpp
--   ChangeDetector  src/service/network_state_change_detector.cpp
--   PlaneState      src/service/network_control_plane.cpp: the state, and the decisions on it alone
--   ControlPlane    src/service/network_control_plane.cpp: apply_routes_locked, recompute_dns_locked
--                   and set_route_policy, with the owned routes
--   PlaneLinks      src/service/network_control_plane.cpp and its reconcile file: start_dhcp, stop_dhcp,
--                   adopt_dhcp and apply_ethernet_static
--   PlaneRepair     src/service/network_control_plane_reconcile.cpp
--   WifiManager     src/service/wifi_manager.cpp
--   WifiScan        src/service/wifi_scan_lifecycle.cpp
--   WifiProfile     src/service/wifi_profile_policy.cpp
--   Representation  src/ipc/network_ipc_representation.cpp
--   BusinessReader  src/ipc/network_ipc_v1_business_dispatch.cpp: the reader of the parameters
--   Business        src/ipc/network_ipc_v1_business_dispatch.cpp: the requests and their answers
--   Lines           the parts of std::getline that the readers of files and replies use
--   WpaStatus       src/platform/wpa_event_monitor.cpp: the texts of events and of the status reply
--   WpaMonitor      src/platform/wpa_event_monitor.cpp: the facts, and the thread's loop
--   EthernetText    src/config/ethernet_config.cpp: the text of the file
--   EthernetFile    src/config/ethernet_config.cpp: staging, commit and save
--   EthernetTransaction
--                   src/service/network_daemon.cpp: apply_ethernet_transaction and the operations
--                   eth_get_config, eth_set_dhcp and eth_set_static
-- The child modules of a part hold its proofs, Prelude holds the shared vocabulary, and Tests
-- holds runs on concrete inputs.
--
-- How the code is carried over. An object is a record, and an operation returns the new record
-- beside its result. A byte or a character is a number below 256, and a text is a list of them. An
-- unsigned 64-bit counter keeps its wrap-around, and an int that is only compared is an integer. A
-- position in a text is the text from that position on. What the code gets from outside is an
-- argument: the answers of send and poll are a list of replies, one for each round; a port of the
-- profile policy or of the control plane is a function of a world; the functions injected into the
-- scan lifecycle and its clock answer once in a call, and its time does not wrap. The daemon
-- behind the business dispatch is a record of functions of a world.
--
-- The threads of the Wi-Fi manager are steps of callers and a worker, each with a place in its
-- code, and a run is any order of such steps. The monitor's thread is its reaction to a list of
-- inputs: the control socket opens, a message, a silence or the loss of the socket. For the
-- Ethernet file, the disk is a function from a path to a content, the system calls answer by an
-- argument; a number that atoi reads is not bounded. A start of the DHCP client that fails is
-- taken to leave no client, and a stop to take it away. A platform may give any answers; where a
-- theorem speaks of the resolver file, its snapshot shows that file.
--
-- Fuel. The decoder's loop takes the length of its buffer and one more, the member loops the
-- length of their text and one more, and the scanner three units for each character and three
-- more; each round takes at least one character, and between two characters at most three calls
-- follow one another. The reader of parameters takes the length of its text and one more, and
-- descends by the levels that its limit on depth leaves. The loop of flush recurs on the replies,
-- and the other loops on their lists.
--
-- What is not modelled: the sockets and threads of the server and the v0 line protocol, the
-- daemon's constructor, its event loop and its operations beside those on Ethernet, the files of
-- DHCP leases, the netlink sockets, processes and shell commands, the Wi-Fi backend with the
-- supplicant's client, and the tools and scripts. Of the tables that only turn an enumeration into
-- a text, those of the scan state, of the request errors and of the JSON representation are in,
-- the others are left out. The bytes of a text are those of its ASCII literals; isspace, isdigit
-- and isxdigit are those of the C locale. Nothing in the code tests whether a text is UTF-8, so
-- nothing here does.
pub mod Prelude
pub mod Codec
pub mod Rebase
pub mod Event
pub mod Outbound
pub mod Tests
pub mod Types
pub mod NetworkState
pub mod ChangeDetector
pub mod WifiScan
pub mod WifiProfile
pub mod WifiManager
pub mod Json
pub mod Hello
pub mod Request
pub mod Session
pub mod Representation
pub mod BusinessReader
pub mod Business
pub mod Lines
pub mod WpaStatus
pub mod WpaMonitor
pub mod EthernetText
pub mod EthernetFile
pub mod EthernetTransaction
pub mod PlaneLinks
pub mod PlaneRepair
pub mod PlaneState
pub mod ControlPlane
