-- ===== src/Bridge/Handoff/Owners.antt =====
-- Who owns a slot, and the bounds of the tables.
use discord_rich_presence.Prelude.{
  ℕ, ◌≤◌, ◌<◌, ◌≡◌, ◌⊎◌, ◌↔◌, inl, inr, true, Option, none, some, ◌==◌, ◌&&◌, nat_key, string_key,
  string_iff, arith, length, if◌then◌else◌, is_some_and, not,
}
use discord_rich_presence.Prelude.HashMap.{
  Distinct, retain, get-remove, get-retain, length-remove-le, length-retain-le,
}
use discord_rich_presence.Prelude.HashMap.Keeps.{remove-Distinct, retain-Distinct}
use discord_rich_presence.Types.Ids.{AppId}
use discord_rich_presence.Bridge.Table.{max_handoff_entries}
use discord_rich_presence.Bridge.Table.Bound.{length-track-le, track-Distinct, track_live}
use discord_rich_presence.Bridge.Handoff.{
  ScannedGame, HandoffState, Probe, alive, note_publish, note_clear, note_remove, note_scan,
  note_clear_pid, owner_of,
}

-- The tables are maps of at most 64 entries.
pub record IsBounded (h : HandoffState) : Type 0 where
  pub owners : length h.live_ipc ≤ max_handoff_entries
  pub scans : length h.last_scans ≤ max_handoff_entries
  pub owners_distinct : Distinct h.live_ipc
  pub scans_distinct : Distinct h.last_scans

module _ {h : HandoffState} (v : IsBounded h) where
  pub note_publish-IsBounded :
      (probe : Probe) (app : AppId) (pid : ℕ) → IsBounded (note_publish probe h app pid)
  unfolding note_publish
  note_publish-IsBounded probe app pid = record {
    owners = length-track-le probe.start (alive probe) h.live_ipc app pid;
    scans = v.scans;
    owners_distinct = track-Distinct probe.start (alive probe) h.live_ipc app pid v.owners_distinct;
    scans_distinct = v.scans_distinct;
  }

  pub note_clear-IsBounded : (app : AppId) (pid : ℕ) → IsBounded (note_clear h app pid).0
  unfolding note_clear
  note_clear-IsBounded app pid = record {
    owners = ground (arith, v.owners, length-remove-le h.live_ipc app);
    scans = ground (arith, v.scans);
    owners_distinct =
        ground (arith, v.owners_distinct, remove-Distinct h.live_ipc app v.owners_distinct);
    scans_distinct = ground (arith, v.scans_distinct);
  }

  pub note_remove-IsBounded : (app : AppId) (pid : ℕ) → IsBounded (note_remove h app pid).0
  unfolding note_remove
  note_remove-IsBounded app pid = record {
    owners = ground (arith, v.owners);
    scans = ground (arith, v.scans, length-remove-le h.last_scans app);
    owners_distinct = ground (arith, v.owners_distinct);
    scans_distinct =
        ground (arith, v.scans_distinct, remove-Distinct h.last_scans app v.scans_distinct);
  }

  pub note_scan-IsBounded :
      (probe : Probe) (o : Option ScannedGame) → IsBounded (note_scan probe h o)
  unfolding note_scan
  note_scan-IsBounded probe none = record {
    owners = v.owners;
    scans = omega arith;
    owners_distinct = v.owners_distinct;
    scans_distinct = tt;
  }
  note_scan-IsBounded probe (some game) = record {
    owners = v.owners;
    scans = length-track-le probe.start (λ known. alive probe known.pid) h.last_scans game.id game;
    owners_distinct = v.owners_distinct;
    scans_distinct =
        track-Distinct probe.start (λ known. alive probe known.pid) h.last_scans game.id game
          v.scans_distinct;
  }

  pub note_clear_pid-IsBounded : (pid : ℕ) → IsBounded (note_clear_pid h pid).0
  unfolding note_clear_pid
  note_clear_pid-IsBounded pid = record {
    owners = omega (arith, v.owners, length-retain-le (λ owner. not (owner == pid)) h.live_ipc);
    scans = v.scans;
    owners_distinct = retain-Distinct (λ owner. not (owner == pid)) h.live_ipc v.owners_distinct;
    scans_distinct = v.scans_distinct;
  }

  -- A clear releases a slot exactly when it comes from the slot's owner. Then the slot has no
  -- owner any more; otherwise nothing changes. No other slot's owner changes either way.
  pub note_clear_owner :
      (app : AppId) (pid : ℕ)
      → (((note_clear h app pid).1 ≡ true) ↔ (owner_of h app ≡ some pid))
        × ((other : AppId)
            → owner_of (note_clear h app pid).0 other
              ≡ (if (note_clear h app pid).1 && app == other then none else owner_of h other))
  unfolding note_clear
  note_clear_owner app pid = (
    (λ e. ground (arith), λ e. ground (arith)),
    λ other. ground (arith, get-remove h.live_ipc app other, string_iff app other),
  )

  -- An abrupt close of `pid` takes every slot that it owned, and no other.
  pub note_clear_pid_owner :
      (pid : ℕ) (app : AppId)
      → owner_of (note_clear_pid h pid).0 app
        ≡ (if is_some_and (owner_of h app) (λ owner. owner == pid) then none else owner_of h app)
  unfolding note_clear_pid
  note_clear_pid_owner pid app =
      ground (arith, get-retain (λ owner. not (owner == pid)) h.live_ipc app v.owners_distinct)

  -- The publisher owns the slot afterwards, and a slot that a live process owned keeps its owner, as
  -- long as fewer than 64 slots have a live owner. (A slot whose owner is dead may be dropped.)
  pub note_publish_owner :
      (probe : Probe) (app : AppId) (pid : ℕ) (other : AppId)
      → length (retain (alive probe) h.live_ipc) < max_handoff_entries
      → (app ≡ other) ⊎ (is_some_and (owner_of h other) (alive probe) ≡ true)
      → owner_of (note_publish probe h app pid) other
        ≡ (if app == other then some pid else owner_of h other)
  unfolding note_publish
  note_publish_owner probe app pid other room (inl same) =
      track_live probe.start (alive probe) h.live_ipc app pid other v.owners_distinct room
        (inl ((string_iff app other).1 same))
  note_publish_owner probe app pid other room (inr lives) =
      track_live probe.start (alive probe) h.live_ipc app pid other v.owners_distinct room
        (inr lives)
