-- ===== src/Bridge/Invariant/Tables.antt =====
-- The invariant of the shared state.
use discord_rich_presence.Prelude.{◌≤◌, ◌<◌, length, string_key, nat_key, option_key, pair_key}
use discord_rich_presence.Prelude.HashMap.{Distinct}
use discord_rich_presence.Bridge.Table.{max_handoff_entries}
use discord_rich_presence.Bridge.Handoff.Owners.{IsBounded}
use discord_rich_presence.Bridge.Replay.{max_cached_activities}
use discord_rich_presence.Bridge.Shared.{Shared}

-- The replay cache holds at most 50 payloads, each handoff table and the table of generic cards at most
-- 64 slots, and the flood guard no more than its cap. None of these tables holds a key twice.
pub record IsValid (s : Shared) : Type 0 where
  pub cached : length s.cache ≤ max_cached_activities
  pub cache_distinct : Distinct s.cache
  pub handoff : IsBounded s.handoff
  pub generic : length s.last_process ≤ max_handoff_entries
  pub generic_distinct : Distinct s.last_process
  pub guard_cap : 0 < s.recent.cap
  pub guard : length s.recent.entries ≤ s.recent.cap
  pub guard_distinct : Distinct s.recent.entries
