-- ===== src/Bridge/Router.antt =====
-- crates/rsrpc-bridge/src/router.rs: what each command means, and what it does to the shared state.
pub mod Clears
pub mod Publish
use discord_rich_presence.Prelude.{
  Bytes, ℕ, ◌+◌, ◌-◌, ◌%◌, String, Bool, true, false, ◌&&◌, ◌||◌, not, Option, none, some, List, [],
  ◌∷◌, eqn, ◌==◌, string_key, nat_key, list_key, if◌then◌else◌, unwrap_or, map_some, is_some_and,
  is_none, ◌>>=◌,
}
use discord_rich_presence.Prelude.HashMap.{HashMap, get, remove}
use discord_rich_presence.Types.Ids.{AppId, SocketId, of_app, of_pid, u64_mod}
use discord_rich_presence.Types.Cmd.{Activity, ActivityCmd, ActivityCmdArgs}
use discord_rich_presence.Protocol.Flood.{Slot, should_drop}
use discord_rich_presence.Protocol.Cached.{
  Codec, CachedActivity, ProcessPayload, activity_fingerprint, cached_activity,
}
use discord_rich_presence.Bridge.Table.{track}
use discord_rich_presence.Bridge.Handoff.{
  ScannedGame, ProcInput, Probe, HandoffState, detected, removed, cleared, alive, source_as_str,
  note_publish, note_clear, note_clear_pid, resume_for,
}
use discord_rich_presence.Bridge.Replay.{Entry}
use discord_rich_presence.Bridge.Shared.{Shared, Outboxes, CmdCodec, broadcast_activity}

-- What the outside answers while one input is handled: the process table and the maps' iteration,
-- the outboxes, the clocks and the serializers.
pub record World : Type 0 where
  pub probe : Probe
  pub accepts : Outboxes
  pub instant : ℕ
  pub secs : ℕ
  pub millis : ℕ
  pub codec : Codec
  pub cmd_codec : CmdCodec

unfoldable pub table_transition : Bool → ProcInput → Option String
table_transition false (detected _) = some "game-start"
table_transition true cleared = some "game-end"
table_transition _ _ = none

abbrev pub cmd_pid : ActivityCmd → Option ℕ
cmd_pid cmd = cmd.args >>= λ args. args.pid

abbrev pub cmd_activity : ActivityCmd → Option Activity
cmd_activity cmd = cmd.args >>= λ args. args.activity

unfoldable pub is_genuine_clear : ActivityCmd → Bool
is_genuine_clear cmd =
    is_some_and (cmd_pid cmd) (λ pid. not (eqn pid 0))
    && is_some_and cmd.args (λ args. is_none args.activity)

unfoldable pub game_payload : ScannedGame → ProcessPayload
game_payload game = record {
  activity = record {
    application_id = game.id;
    name = game.name;
    timestamps = record { start = game.start };
    type = 0;
    metadata = [];
    flags = 0;
  };
  pid = game.pid;
  socket_id = of_app game.id;
}

unfoldable pub generic_payload : World → ScannedGame → Option CachedActivity
unfolding game_payload
generic_payload w game = do
  activity_json ← w.codec.process_activity_json (game_payload game).activity
  json ← w.codec.process_json (game_payload game)
  msgpack ← w.codec.process_msgpack (game_payload game)
  some (record {
    json = json;
    msgpack = msgpack;
    is_clear = false;
    activity_json = activity_json;
    provenance = some (record {
      source = source_as_str game.source;
      latency_ms = map_some (λ started. w.millis - started) game.process_start_ms;
    });
    pid = game.pid;
  })

unfoldable pub take_matching_process : HashMap AppId ℕ → AppId → ℕ → HashMap AppId ℕ × Option ℕ
take_matching_process m app_id pid =
    if is_some_and (get m app_id) (λ known. known == pid)
    then (remove m app_id, get m app_id)
    else (m, none)

-- The publisher of an activity with an application id owns that id's slot from now on.
unfoldable pub note_sdk_publish : World → ActivityCmd → Shared → Shared
note_sdk_publish w cmd s = elim (cmd_activity cmd >>= λ a. a.application_id) [
  | none ↦ s
  | some app ↦ record s { handoff = note_publish w.probe s.handoff app (unwrap_or (cmd_pid cmd) 0) }
]

abbrev pub differs : Option Entry → Option Bytes → Bool
differs none none = false
differs none (some fp) = true
differs (some e) none = not e.0.is_clear
differs (some e) (some fp) = e.0.is_clear || not (e.0.activity_json == fp)

unfoldable pub activity_changed : Shared → SocketId → Option Bytes → Bool
activity_changed s socket_id fingerprint = differs (get s.cache socket_id) fingerprint

abbrev pub count_drop : Shared → Shared
count_drop s = record s { dropped_broadcasts = (s.dropped_broadcasts + 1) % u64_mod }

unfoldable pub publish_or_count : World → Option CachedActivity → SocketId → Shared → Shared
publish_or_count w none socket_id s = count_drop s
publish_or_count w (some payload) socket_id s = broadcast_activity w.accepts payload socket_id s

unfoldable pub track_process : World → AppId → ℕ → Shared → Shared
track_process w app_id pid s = record s {
  last_process = track w.probe.start (alive w.probe) s.last_process app_id pid;
}

unfoldable pub resume_generic : World → ScannedGame → Shared → Shared
unfolding publish_or_count track_process
resume_generic w game s =
    publish_or_count w (generic_payload w game) (of_app game.id)
      (track_process w game.id game.pid s)

-- The games among the apps that the scanner still reports.
unfoldable pub games_of : HandoffState → List AppId → List ScannedGame
games_of h [] = []
games_of h (app ∷ apps) = elim (resume_for h app) [
  | none ↦ games_of h apps
  | some game ↦ game ∷ games_of h apps
]

unfoldable pub release : ActivityCmd → ℕ → HandoffState → HandoffState × List ScannedGame
unfolding games_of
release cmd pid h = elim cmd.application_id [
  | some app ↦
      let (h', released) = note_clear h app pid in
      (h', if released then games_of h' (app ∷ []) else [])
  | none ↦ let (h', apps) = note_clear_pid h pid in (h', games_of h' apps)
]

unfoldable pub resume_all : World → List ScannedGame → Shared → Shared
unfolding resume_generic
resume_all w [] s = s
resume_all w (game ∷ games) s =
    resume_all w games (if alive w.probe game.pid then resume_generic w game s else s)

unfoldable pub resume_after_clear : World → ActivityCmd → Shared → Shared
unfolding release resume_all
resume_after_clear w cmd s =
    if is_genuine_clear cmd
    then (let (h, games) = release cmd (unwrap_or (cmd_pid cmd) 0) s.handoff in
        resume_all w games (record s { handoff = h }))
    else s

abbrev pub stamp_sdk : CachedActivity → CachedActivity
stamp_sdk payload = record payload {
  provenance = some (record { source = "sdk"; latency_ms = none });
}

-- `handle_set_activity` behind the flood guard: handoff, clear, and the fan-out of a change.
unfoldable pub publish : World → ActivityCmd → ActivityCmdArgs → Option Bytes → Shared → Shared
unfolding note_sdk_publish activity_changed resume_after_clear
publish w cmd args fingerprint s =
    let socket_id = of_pid (unwrap_or args.pid 0) in
    let s' = resume_after_clear w cmd (note_sdk_publish w cmd s) in
    if activity_changed s socket_id fingerprint
    then elim (cached_activity w.codec w.secs cmd fingerprint) [
      | none ↦ s'
      | some payload ↦ broadcast_activity w.accepts (stamp_sdk payload) socket_id s'
    ]
    else s'

-- The flood guard, and what it lets through.
unfoldable pub handle_fingerprinted : World → ActivityCmd → Option Bytes → Shared → Shared
unfolding publish
handle_fingerprinted w cmd fingerprint s =
    let slot : Slot = (cmd.application_id, unwrap_or (cmd_pid cmd) 0) in
    let (recent, drops) = should_drop (w.probe.start 0) s.recent slot fingerprint w.instant in
    let s' = record s { recent = recent } in
    if drops
    then s'
    else elim cmd.args [ none ↦ s' | some args ↦ publish w cmd args fingerprint s' ]

unfoldable pub handle_set_activity : World → ActivityCmd → Shared → Shared
unfolding handle_fingerprinted
handle_set_activity w cmd s =
    let (cmd', fingerprint) = activity_fingerprint w.codec w.secs cmd in
    handle_fingerprinted w cmd' fingerprint s
