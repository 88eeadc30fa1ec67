-- ===== src/Protocol/Flood.antt =====
-- crates/rsrpc-protocol/src/commands.rs: `RecentActivities`, which recognises a publish that repeats
-- the last one of its connection within a short window. Times are nanoseconds of a monotonic clock.
pub mod Guard
pub mod History
use discord_rich_presence.Prelude.{
  Bytes, ℕ, ◌-◌, ◌*◌, Bool, true, false, ◌&&◌, not, Option, none, some, List, ltb, leb, ◌==◌,
  length, nat_key, string_key, option_key, list_key, pair_key, if◌then◌else◌, is_some_and,
}
use discord_rich_presence.Prelude.HashMap.{
  HashMap, get, contains_key, insert, remove, retain, next_key,
}
use discord_rich_presence.Types.Ids.{AppId}

-- The application id and the pid of a connection.
abbrev pub Slot : Type 0
Slot = Option AppId × ℕ

pub record RecentActivities : Type 0 where
  pub window : ℕ
  pub cap : ℕ
  pub entries : HashMap Slot (Bytes × ℕ)

abbrev pub default_window : ℕ
default_window = 5 * 1000000000

abbrev pub default_cap : ℕ
default_cap = 128

abbrev pub new : ℕ → ℕ → RecentActivities
new window cap = record { window = window; cap = cap; entries = List.[] }

-- `recorded`
unfoldable pub recorded : RecentActivities → Slot → Option Bytes
recorded r slot = elim (get r.entries slot) [ none ↦ none | some e ↦ some e.0 ]

-- `duration_since` is zero for a time that is not in the past.
abbrev pub is_fresh : RecentActivities → ℕ → Bytes × ℕ → Bool
is_fresh r now e = ltb (now - e.1) r.window

unfoldable pub repeats : RecentActivities → Slot → Bytes → ℕ → Bool
repeats r slot bytes now = is_some_and (get r.entries slot) (λ e. e.0 == bytes && is_fresh r now e)

unfoldable pub evict_one : ℕ → HashMap Slot (Bytes × ℕ) → HashMap Slot (Bytes × ℕ)
evict_one start m = elim (next_key start m) [ none ↦ m | some victim ↦ remove m victim ]

-- Room for a new slot: expired slots go first, then one arbitrary slot.
unfoldable pub make_room : ℕ → RecentActivities → Slot → ℕ → HashMap Slot (Bytes × ℕ)
unfolding evict_one
make_room start r slot now =
    if leb r.cap (length r.entries) && not (contains_key r.entries slot)
    then (let live = retain (is_fresh r now) r.entries in
        if leb r.cap (length live) then evict_one start live else live)
    else r.entries

-- The new state, and whether the publish is dropped.
unfoldable pub should_drop :
    ℕ → RecentActivities → Slot → Option Bytes → ℕ → RecentActivities × Bool
unfolding repeats make_room
should_drop start r slot none now = (record r { entries = remove r.entries slot }, false)
should_drop start r slot (some bytes) now =
    if repeats r slot bytes now
    then (r, true)
    else (record r { entries = insert (make_room start r slot now) slot (bytes, now) }, false)
