-- ===== src/Bridge/Replay.antt =====
-- crates/rsrpc-bridge/src/replay.rs: the last payload of each socket, with its sequence number.
pub mod Prune
use discord_rich_presence.Prelude.{
  ℕ, zero, suc, Bool, true, false, Option, none, some, List, [], ◌∷◌, ltb, leb, eqn, length,
  string_key, if◌then◌else◌,
}
use discord_rich_presence.Prelude.HashMap.{HashMap, remove}
use discord_rich_presence.Types.Ids.{SocketId, parse_u64}
use discord_rich_presence.Protocol.Cached.{CachedActivity}

abbrev pub Entry : Type 0
Entry = CachedActivity × ℕ

abbrev pub ReplayCache : Type 0
ReplayCache = HashMap SocketId Entry

abbrev pub max_cached_activities : ℕ
max_cached_activities = 50

abbrev pub older : SocketId × ℕ → Option (SocketId × ℕ) → SocketId × ℕ
older e none = e
older e (some f) = if leb e.1 f.1 then e else f

-- `min_by_key` on the sequence: the first of the least.
unfoldable pub oldest : ReplayCache → Option (SocketId × ℕ)
oldest [] = none
oldest ((id, (payload, seq)) ∷ m) = some (older (id, seq) (oldest m))

-- The `while` loop of `prune_cache`, on fuel.
unfoldable pub prune : ℕ → ReplayCache → ReplayCache
unfolding oldest
prune zero m = m
prune (suc fuel) m = elim (ltb max_cached_activities (length m)) [
  | false ↦ m
  | true ↦ elim (oldest m) [ none ↦ m | some victim ↦ prune fuel (remove m victim.0) ]
]

-- An entry is removed in each round, so the length is fuel enough.
unfoldable pub prune_cache : ReplayCache → ReplayCache
unfolding prune
prune_cache m = prune (length m) m

-- The pid of a numeric socket id, if it is not 0.
unfoldable pub socket_pid : Option ℕ → Option ℕ
socket_pid none = none
socket_pid (some pid) = if eqn pid 0 then none else some pid

-- The pid that the payload records, or that the socket id spells.
unfoldable pub cache_entry_pid : SocketId → CachedActivity → Option ℕ
unfolding socket_pid
cache_entry_pid socket_id payload =
    if eqn payload.pid 0 then socket_pid (parse_u64 socket_id) else some payload.pid
