-- ===== src/Bridge/Invariant/Steps.antt =====
-- The parts of the steps keep the invariant.
use discord_rich_presence.Prelude.{
  ℕ, ◌≤◌, ◌≡◌, Bool, true, false, Option, none, some, List, [], ◌∷◌, length, arith, string_key,
  nat_key, Option-cases, inl, inr, if◌then◌else◌, unwrap_or, ◌>>=◌, refl,
}
use discord_rich_presence.Prelude.HashMap.{HashMap, Distinct, insert, remove, length-remove-le}
use discord_rich_presence.Prelude.HashMap.Keeps.{insert-Distinct, remove-Distinct}
use discord_rich_presence.Types.Ids.{AppId, SocketId}
use discord_rich_presence.Types.Cmd.{ActivityCmd}
use discord_rich_presence.Protocol.Cached.{CachedActivity}
use discord_rich_presence.Bridge.Table.{max_handoff_entries, track}
use discord_rich_presence.Bridge.Table.Bound.{length-track-le, track-Distinct}
use discord_rich_presence.Bridge.Handoff.{ScannedGame, HandoffState, alive}
use discord_rich_presence.Bridge.Handoff.Owners.{
  IsBounded, note_clear_pid-IsBounded, note_clear-IsBounded, note_publish-IsBounded,
}
use discord_rich_presence.Bridge.Replay.{ReplayCache, max_cached_activities, prune_cache}
use discord_rich_presence.Bridge.Replay.Prune.{length-prune_cache-le, prune_cache-Distinct}
use discord_rich_presence.Bridge.Shared.{
  Shared, Outboxes, next_seq, cache_payload, broadcast_activity,
}
use discord_rich_presence.Bridge.Shared.Fanout.{broadcast_activity_tables}
use discord_rich_presence.Bridge.Router.{
  World, cmd_pid, cmd_activity, publish_or_count, track_process, resume_generic, resume_all,
  release, resume_after_clear, note_sdk_publish,
}
use discord_rich_presence.Bridge.Invariant.Tables.{IsValid}

pub IsValid-if : (b : Bool) (s t : Shared) → IsValid s → IsValid t → IsValid (if b then s else t)
IsValid-if true s t v w = v
IsValid-if false s t v w = w

pub with_cache :
    (s : Shared) (m : ReplayCache) (seq : ℕ)
    → length m ≤ max_cached_activities
    → Distinct m
    → IsValid s
    → IsValid (record s { cache = m; activity_seq = seq })
with_cache s m seq h d v = record {
  cached = h;
  cache_distinct = d;
  handoff = v.handoff;
  generic = v.generic;
  generic_distinct = v.generic_distinct;
  guard_cap = v.guard_cap;
  guard = v.guard;
  guard_distinct = v.guard_distinct;
}

pub with_handoff :
    (s : Shared) (h : HandoffState) → IsBounded h → IsValid s → IsValid (record s { handoff = h })
with_handoff s h b v = record {
  cached = v.cached;
  cache_distinct = v.cache_distinct;
  handoff = b;
  generic = v.generic;
  generic_distinct = v.generic_distinct;
  guard_cap = v.guard_cap;
  guard = v.guard;
  guard_distinct = v.guard_distinct;
}

pub with_generic :
    (s : Shared) (m : HashMap AppId ℕ)
    → length m ≤ max_handoff_entries
    → Distinct m
    → IsValid s
    → IsValid (record s { last_process = m })
with_generic s m h d v = record {
  cached = v.cached;
  cache_distinct = v.cache_distinct;
  handoff = v.handoff;
  generic = h;
  generic_distinct = d;
  guard_cap = v.guard_cap;
  guard = v.guard;
  guard_distinct = v.guard_distinct;
}

pub cache_payload-IsValid :
    (payload : CachedActivity) (id : SocketId) (s : Shared)
    → IsValid s
    → IsValid (cache_payload payload id s)
unfolding cache_payload
cache_payload-IsValid payload id s v =
    let e : CachedActivity × ℕ = (payload, next_seq s.activity_seq) in
    let grown = insert s.cache id e in
    let d = insert-Distinct s.cache id e v.cache_distinct in
    IsValid-if payload.is_clear _ _
      (with_cache s (remove s.cache id) s.activity_seq
        (omega (arith, v.cached, length-remove-le s.cache id))
        (remove-Distinct s.cache id v.cache_distinct) v)
      (with_cache s (prune_cache grown) (next_seq s.activity_seq) (length-prune_cache-le grown d)
        (prune_cache-Distinct grown d) v)

-- The invariant speaks of four tables.
pub same_tables :
    (s t : Shared)
    → (t.cache ≡ s.cache)
      × (t.last_process ≡ s.last_process)
      × (t.handoff ≡ s.handoff)
      × (t.recent ≡ s.recent)
    → IsValid s
    → IsValid t
same_tables s t e v = record {
  cached = rw e.0 v.cached;
  cache_distinct = rw e.0 v.cache_distinct;
  handoff = rw e.2 v.handoff;
  generic = rw e.1 v.generic;
  generic_distinct = rw e.1 v.generic_distinct;
  guard_cap = rw e.3 v.guard_cap;
  guard = rw e.3 v.guard;
  guard_distinct = rw e.3 v.guard_distinct;
}

pub broadcast_activity-IsValid :
    (accepts : Outboxes) (payload : CachedActivity) (id : SocketId) (s : Shared)
    → IsValid s
    → IsValid (broadcast_activity accepts payload id s)
broadcast_activity-IsValid accepts payload id s v =
    let t = broadcast_activity_tables accepts payload id s in
    let c = cache_payload-IsValid payload id s v in
    record {
      cached = rw t.0 c.cached;
      cache_distinct = rw t.0 c.cache_distinct;
      handoff = rw t.2 v.handoff;
      generic = rw t.1 v.generic;
      generic_distinct = rw t.1 v.generic_distinct;
      guard_cap = rw t.3 v.guard_cap;
      guard = rw t.3 v.guard;
      guard_distinct = rw t.3 v.guard_distinct;
    }

module _ (w : World) where
  pub publish_or_count-IsValid :
      (o : Option CachedActivity) (id : SocketId) (s : Shared)
      → IsValid s
      → IsValid (publish_or_count w o id s)
  unfolding publish_or_count
  publish_or_count-IsValid none id s v = same_tables s _ (refl, refl, refl, refl) v
  publish_or_count-IsValid (some payload) id s v =
      broadcast_activity-IsValid w.accepts payload id s v

  pub track_process-IsValid :
      (app : AppId) (pid : ℕ) (s : Shared) → IsValid s → IsValid (track_process w app pid s)
  unfolding track_process
  track_process-IsValid app pid s v =
      with_generic s (track w.probe.start (alive w.probe) s.last_process app pid)
        (length-track-le w.probe.start (alive w.probe) s.last_process app pid)
        (track-Distinct w.probe.start (alive w.probe) s.last_process app pid v.generic_distinct) v

  resume_generic-IsValid :
      (game : ScannedGame) (s : Shared) → IsValid s → IsValid (resume_generic w game s)
  unfolding resume_generic
  resume_generic-IsValid game s v =
      publish_or_count-IsValid _ _ _ (track_process-IsValid game.id game.pid s v)

  resume_all-IsValid :
      (games : List ScannedGame) (s : Shared) → IsValid s → IsValid (resume_all w games s)
  unfolding resume_all
  resume_all-IsValid [] s v = v
  resume_all-IsValid (game ∷ games) s v =
      resume_all-IsValid games _ (IsValid-if _ _ _ (resume_generic-IsValid game s v) v)

  release-IsBounded :
      (cmd : ActivityCmd) (pid : ℕ) (h : HandoffState)
      → IsBounded h
      → IsBounded (release cmd pid h).0
  unfolding release
  release-IsBounded cmd pid h b = go cmd.application_id
    where
      go : (o : Option AppId) → IsBounded (release (record cmd { application_id = o }) pid h).0
      go none = note_clear_pid-IsBounded b pid
      go (some app) = note_clear-IsBounded b app pid

  pub resume_after_clear-IsValid :
      (cmd : ActivityCmd) (s : Shared) → IsValid s → IsValid (resume_after_clear w cmd s)
  unfolding resume_after_clear
  resume_after_clear-IsValid cmd s v =
      let pid = unwrap_or (cmd_pid cmd) 0 in
      IsValid-if _ _ _
        (resume_all-IsValid (release cmd pid s.handoff).1 _ (
          with_handoff s (release cmd pid s.handoff).0
            (release-IsBounded cmd pid s.handoff v.handoff) v))
        v

  pub note_sdk_publish-IsValid :
      (cmd : ActivityCmd) (s : Shared) → IsValid s → IsValid (note_sdk_publish w cmd s)
  unfolding note_sdk_publish
  note_sdk_publish-IsValid cmd s v =
      elim (Option-cases (cmd_activity cmd >>= λ a. a.application_id)) [
        | inl e ↦ rw (e, note_sdk_publish) v
        | inr (app, e) ↦
            rw (e, note_sdk_publish)
              (with_handoff s _
                (note_publish-IsBounded v.handoff w.probe app (unwrap_or (cmd_pid cmd) 0)) v)
      ]
