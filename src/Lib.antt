-- ===== src/Lib.antt =====
-- discord-rich-presence: the core of the daemon that carries game activity to browser clients.
--
-- Game clients connect over local sockets (crates/rsrpc-transport-ipc) or WebSockets, a scanner
-- reports running games (crates/rsrpc-detect), and the bridge (crates/rsrpc-bridge) merges both into
-- cards, which it sends to its consumers and replays to late ones.
--
-- Prelude: tests, keys, lists, hash maps as association lists in iteration order, integers.
-- Types: crates/rsrpc-types. Types/Cmd and Types/Json are the command and its parts (cmd.rs),
--   Types/Fix is ActivityCmd::fix, Types/Ids the ids and the decimal socket ids (app_id.rs),
--   Types/User the identity that all transports present and its patches (user.rs).
-- Protocol: crates/rsrpc-protocol/src/commands.rs. Protocol/Flood is RecentActivities,
--   Protocol/Cached the payloads, Protocol/Replies the replies before they are serialized;
--   Protocol/Query is query.rs.
-- Bridge: crates/rsrpc-bridge/src. Bridge/Table is the bound that three tables share, and
--   Bridge/Handoff the state of handoff.rs; Bridge/Replay is replay.rs; Bridge/Shared holds the
--   shared state of bridge.rs and the fan-out of consumer.rs; Bridge/Router is router.rs; Bridge/Pump
--   has one function for each input of the pumps of bridge.rs; Bridge/Run composes these, and
--   Bridge/Invariant keeps the bounds; Bridge/Joining is how consumers connect and leave (bridge_pump,
--   origin.rs), which touches only the consumers and what they are sent, and Bridge/Control what their
--   messages do (control.rs and bridge_pump). The pumps hold each lock briefly; here an input is handled as
--   one step, so interleavings of two pumps inside one input are not modelled.
-- Ipc: crates/rsrpc-transport-ipc/src. Ipc/Frame is the packet format and what handle_stream reads of
--   one packet, Ipc/Pids the pids that a connection has published, Ipc/Session the handlers over the
--   state of ConnFacilitator (unix.rs), and Ipc/Stream the loop of handle_stream. What a connection
--   offers to the bridge's queue is kept as a log; that the queue may shed it is not modelled.
-- Ws: crates/rsrpc-transport-ws/src. Ws/Sink is the sink and the queue of staged commands, Ws/Slots what
--   a connection has published, Ws/Handlers is handlers.rs, Ws/Pump the pump with one function for
--   each event, and Ws/Drain the retries and the shutdown (all transport.rs). The channel behind the
--   sink belongs to a library: its answer to each attempt is an argument, numbered by attempts. A
--   steady sink (IsSteady) stays open, and full once it is found full; where it is not steady,
--   commands can overtake one another.
-- Detect: crates/rsrpc-detect/src. Detect/Types is types.rs, Detect/Channel the counted channel of
--   crates/rsrpc-telemetry/src/lib.rs, and Detect/Lane the scan loop and the watcher of process starts
--   (runtime.rs), from what a scan finds to the events. What the receiver takes, and when it is gone,
--   is an argument. The proofs follow a consumer that shows a card for each Detected and takes it
--   back at Removed and Cleared. Detect/Paths is the test of scan.rs whether a declared executable
--   names the path of a process (exe_names_path, names_a_bundle). Detect/Index is the sorted table of
--   bundle.rs (SortedIndex): the library's stable sort is an insertion sort and its binary search a
--   halving of the slice, on as much fuel as the slice is long. Detect/Bundle builds a generation of the
--   database (build_bundle), where an automaton is a function from a text to the numbers of the patterns
--   that it reports. Detect/Titles are the normal forms of names, Detect/Variants the spellings of a path
--   (path_variants_into), Detect/Probes the walks of the automata over them (probe_variants), Detect/Hits
--   what a match still needs (finish_direct_hit, argv_names_an_executable), Detect/Lookups the store ids
--   and names (match_steam_id, match_name_or_folder), Detect/AppIds the ids on a command line, and
--   Detect/Matching the tiers of match_process. The state of a process, its working directory, the id in
--   its environment and the Steam library of a path are fields of Readings.
-- Tests: the model at concrete inputs.
--
-- From outside come the process table, the position that a map's iteration starts at, the outboxes,
-- the clocks, the serializers and the test of UTF-8: fields of World, Probe, Codec and Answers, or
-- arguments. They may answer differently for each input.
--
-- Bounds and fuel: the loops that evict from a table (evict, prune) take the table's length as fuel,
-- and remove an entry in each round; the loop over a connection's packets takes more fuel than the
-- input has bytes. Rendering a decimal takes the 20 bytes of its buffer as fuel.
-- The loops over the occurrences of a marker or a token take as much fuel as the text is long.
-- Numbers are natural numbers; the counters that wrap are taken modulo 2^64, and lengths in packets
-- modulo 2^32.
--
-- The retries of the game transport take fuel: more than the attempts after which the clock has
-- passed every deadline, and two batches.
--
-- Not modelled: sockets and threads, logging, statistics, the reading of /proc, Steam, and the
-- state file.
pub mod Prelude
pub mod Types
pub mod Protocol
pub mod Bridge
pub mod Ipc
pub mod Ws
pub mod Detect
mod Tests
