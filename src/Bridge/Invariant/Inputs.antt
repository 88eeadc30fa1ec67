-- ===== src/Bridge/Invariant/Inputs.antt =====
-- Every input keeps the invariant.
use discord_rich_presence.Prelude.{
  Bytes, ℕ, ◌≤◌, refl, Option, none, some, List, [], ◌∷◌, arith, string_key, nat_key, length,
  if◌then◌else◌, ◌==◌, unwrap_or, map,
}
use discord_rich_presence.Prelude.HashMap.{
  HashMap, Distinct, get, remove, contains_key, length-remove-le,
}
use discord_rich_presence.Prelude.HashMap.Keeps.{remove-Distinct}
use discord_rich_presence.Types.Ids.{AppId, SocketId, of_app, of_pid}
use discord_rich_presence.Types.Cmd.{ActivityCmd, ActivityCmdArgs}
use discord_rich_presence.Protocol.Flood.{Slot, should_drop}
use discord_rich_presence.Protocol.Flood.Guard.{
  should_drop-Distinct, length-should_drop-le, cap-should_drop,
}
use discord_rich_presence.Protocol.Cached.{
  CachedActivity, activity_fingerprint, cached_activity, empty_cached,
}
use discord_rich_presence.Bridge.Table.{max_handoff_entries}
use discord_rich_presence.Bridge.Handoff.{
  ScannedGame, ProcInput, detected, removed, cleared, note_scan, owner_of,
}
use discord_rich_presence.Bridge.Handoff.Owners.{note_scan-IsBounded, note_remove-IsBounded}
use discord_rich_presence.Bridge.Replay.{ReplayCache}
use discord_rich_presence.Bridge.Shared.{
  Shared, ConsumerMap, broadcast_activity, send_to_all, broadcast_raw,
}
use discord_rich_presence.Bridge.Shared.Fanout.{send_to_all_only}
use discord_rich_presence.Bridge.Router.{
  World, cmd_pid, generic_payload, take_matching_process, stamp_sdk, publish, handle_set_activity,
}
use discord_rich_presence.Bridge.Pump.{
  command_step, clear_card, clear_cards, outstanding, ghosts, withdraw_all, on_cleared, yield_slot,
  show_generic, on_detected, on_removed, proc_step, resend, refresh_once,
}
use discord_rich_presence.Bridge.Invariant.Tables.{IsValid}
use discord_rich_presence.Bridge.Invariant.Steps.{
  IsValid-if, with_handoff, with_generic, broadcast_activity-IsValid, same_tables,
  publish_or_count-IsValid, track_process-IsValid, resume_after_clear-IsValid,
  note_sdk_publish-IsValid,
}

take_matching :
    (m : HashMap AppId ℕ) (app : AppId) (pid : ℕ)
    → length m ≤ max_handoff_entries
    → Distinct m
    → (length (take_matching_process m app pid).0 ≤ max_handoff_entries)
      × Distinct (take_matching_process m app pid).0
unfolding take_matching_process
take_matching m app pid h d =
    (ground (arith, length-remove-le m app), ground (arith, d, remove-Distinct m app d))

module _ (w : World) where
  publish-IsValid :
      (cmd : ActivityCmd) (args : ActivityCmdArgs) (fp : Option Bytes) (s : Shared)
      → IsValid s
      → IsValid (publish w cmd args fp s)
  unfolding publish
  publish-IsValid cmd args fp s v =
      let v' = resume_after_clear-IsValid w cmd _ (note_sdk_publish-IsValid w cmd s v) in
      IsValid-if _ _ _
        (sent (cached_activity w.codec w.secs cmd fp) (of_pid (unwrap_or args.pid 0)) v') v'
    where
      sent :
          (o : Option CachedActivity) (id : SocketId) {t : Shared}
          → IsValid t
          → IsValid (elim o [
            | none ↦ t
            | some payload ↦ broadcast_activity w.accepts (stamp_sdk payload) id t
          ])
      sent none id v' = v'
      sent (some payload) id v' = broadcast_activity-IsValid w.accepts (stamp_sdk payload) id _ v'

  guarded :
      (s : Shared) (slot : Slot) (fp : Option Bytes)
      → IsValid s
      → IsValid (record s { recent = (should_drop (w.probe.start 0) s.recent slot fp w.instant).0 })
  guarded s slot fp v =
      let capped = cap-should_drop (w.probe.start 0) s.recent slot fp w.instant in
      record {
        cached = v.cached;
        cache_distinct = v.cache_distinct;
        handoff = v.handoff;
        generic = v.generic;
        generic_distinct = v.generic_distinct;
        guard_cap = rw capped v.guard_cap;
        guard = rw capped (
            length-should_drop-le (w.probe.start 0) s.recent slot fp w.instant v.guard_cap v.guard);
        guard_distinct =
            should_drop-Distinct (w.probe.start 0) s.recent slot fp w.instant v.guard_distinct;
      }

  handle_set_activity-IsValid :
      (cmd : ActivityCmd) (s : Shared) → IsValid s → IsValid (handle_set_activity w cmd s)
  unfolding handle_set_activity
  handle_set_activity-IsValid cmd s v =
      let (cmd', fp) = activity_fingerprint w.codec w.secs cmd in
      let slot : Slot = (cmd'.application_id, unwrap_or (cmd_pid cmd') 0) in
      let v' = guarded s slot fp v in IsValid-if _ _ _ v' (handled cmd' fp cmd'.args v')
    where
      handled :
          (cmd' : ActivityCmd) (fp : Option Bytes) (o : Option ActivityCmdArgs) {t : Shared}
          → IsValid t
          → IsValid (elim o [ none ↦ t | some args ↦ publish w cmd' args fp t ])
      handled cmd' fp none v' = v'
      handled cmd' fp (some args) v' = publish-IsValid cmd' args fp _ v'

  clear_card-IsValid :
      (pid : ℕ) (id : SocketId) (s : Shared) → IsValid s → IsValid (clear_card w pid id s)
  unfolding clear_card
  clear_card-IsValid pid id s v = publish_or_count-IsValid w (empty_cached w.codec pid id) id s v

  clear_cards-IsValid :
      (cards : List (ℕ × SocketId)) (s : Shared) → IsValid s → IsValid (clear_cards w cards s)
  unfolding clear_cards
  clear_cards-IsValid [] s v = v
  clear_cards-IsValid ((pid, id) ∷ cards) s v =
      clear_cards-IsValid cards (clear_card w pid id s) (clear_card-IsValid pid id s v)

  abbrev cards : Shared → List (ℕ × SocketId)
  cards s = map (λ (c : ℕ × AppId). (c.0, of_app c.1)) (outstanding s.last_process)

  on_cleared-IsValid : (s : Shared) → IsValid s → IsValid (on_cleared w s)
  unfolding on_cleared withdraw_all
  on_cleared-IsValid s v =
      let v' =
        with_generic (record s { handoff = note_scan w.probe s.handoff none }) [] (omega arith) tt
          (with_handoff s _ (note_scan-IsBounded v.handoff w.probe none) v) in
      let forgotten = record s { handoff = note_scan w.probe s.handoff none; last_process = [] } in
      clear_cards-IsValid (ghosts w (withdraw_all w s).cache) (withdraw_all w s)
        (clear_cards-IsValid (cards s) forgotten v')

  without :
      (app : AppId) (s : Shared)
      → IsValid s
      → IsValid (record s { last_process = remove s.last_process app })
  without app s v =
      with_generic s (remove s.last_process app)
        (omega (arith, v.generic, length-remove-le s.last_process app))
        (remove-Distinct s.last_process app v.generic_distinct) v

  yield_slot-IsValid : (game : ScannedGame) (s : Shared) → IsValid s → IsValid (yield_slot w game s)
  unfolding yield_slot
  yield_slot-IsValid game s v = go (get s.last_process game.id)
    where
      shorter : Shared
      shorter = record s { last_process = remove s.last_process game.id }

      go :
          (o : Option ℕ)
          → IsValid
              (elim o [ none ↦ shorter | some pid ↦ clear_card w pid (of_app game.id) shorter ])
      go none = without game.id s v
      go (some pid) = clear_card-IsValid pid (of_app game.id) shorter (without game.id s v)

  show_generic-IsValid :
      (game : ScannedGame) (s : Shared) → IsValid s → IsValid (show_generic w game s)
  unfolding show_generic
  show_generic-IsValid game s v =
      publish_or_count-IsValid w (generic_payload w game) (of_app game.id) _
        (track_process-IsValid w game.id game.pid s v)

  on_detected-IsValid :
      (game : ScannedGame) (s : Shared) → IsValid s → IsValid (on_detected w game s)
  unfolding on_detected
  on_detected-IsValid game s v =
      let v' = with_handoff s _ (note_scan-IsBounded v.handoff w.probe (some game)) v in
      go (owner_of (note_scan w.probe s.handoff (some game)) game.id) v'
    where
      go :
          (o : Option ℕ) {t : Shared}
          → IsValid t
          → IsValid (elim o [
            | some owner ↦ yield_slot w game t
            | none ↦ if contains_key t.last_process game.id then t else show_generic w game t
          ])
      go (some owner) v' = yield_slot-IsValid game _ v'
      go none v' = IsValid-if _ _ _ v' (show_generic-IsValid game _ v')

  on_removed-IsValid :
      (app : AppId) (pid : ℕ) (s : Shared) → IsValid s → IsValid (on_removed w app pid s)
  unfolding on_removed
  on_removed-IsValid app pid s v =
      let kept = with_handoff s _ (note_remove-IsBounded v.handoff app pid) v in
      let (short, apart) = taken in
      go (take_matching_process s.last_process app pid).1 (with_generic _ _ short apart kept)
    where
      taken :
          (length (take_matching_process s.last_process app pid).0 ≤ max_handoff_entries)
          × Distinct (take_matching_process s.last_process app pid).0
      taken = take_matching s.last_process app pid v.generic v.generic_distinct

      go :
          (o : Option ℕ) {t : Shared}
          → IsValid t
          → IsValid (elim o [ none ↦ t | some pid' ↦ clear_card w pid' (of_app app) t ])
      go none v' = v'
      go (some pid') v' = clear_card-IsValid pid' (of_app app) _ v'

  -- A scanner report keeps the invariant.
  pub proc_step-IsValid :
      (input : ProcInput) (s : Shared) → IsValid s → IsValid (proc_step w input s)
  unfolding proc_step
  proc_step-IsValid (detected game) s v = on_detected-IsValid game s v
  proc_step-IsValid (removed app pid) s v = on_removed-IsValid app pid s v
  proc_step-IsValid cleared s v = on_cleared-IsValid s v

  broadcast_raw-IsValid :
      (cmd : ActivityCmd) (s : Shared)
      → IsValid s
      → IsValid (broadcast_raw w.accepts w.cmd_codec cmd s)
  unfolding broadcast_raw
  broadcast_raw-IsValid cmd s v =
      same_tables s (broadcast_raw w.accepts w.cmd_codec cmd s) (refl, refl, refl, refl) v

  -- So does a command.
  pub command_step-IsValid :
      (cmd : ActivityCmd) (s : Shared) → IsValid s → IsValid (command_step w cmd s)
  unfolding command_step
  command_step-IsValid cmd s v =
      IsValid-if (cmd.cmd == "SET_ACTIVITY") _ _ (handle_set_activity-IsValid cmd s v)
        (broadcast_raw-IsValid cmd s v)

  resend-IsValid : (m : ReplayCache) (s : Shared) → IsValid s → IsValid (resend w m s)
  unfolding resend
  resend-IsValid [] s v = v
  resend-IsValid ((id, (payload, seq)) ∷ m) s v =
      let o = send_to_all_only w.accepts payload s in
      resend-IsValid m (send_to_all w.accepts payload s)
        (same_tables s _ (o.cache, o.last_process, o.handoff, o.recent) v)

  refreshed :
      (s : Shared) (cs : ConsumerMap)
      → IsValid s
      → IsValid (refresh_once w (record s { consumers = cs }))
  unfolding refresh_once
  refreshed s [] v = same_tables s _ (refl, refl, refl, refl) v
  refreshed s (c ∷ cs) v =
      let t = record s { consumers = c ∷ cs } in
      same_tables (resend w s.cache t) _ (refl, refl, refl, refl)
        (resend-IsValid s.cache t (same_tables s t (refl, refl, refl, refl) v))

  -- And so does the periodic refresh.
  pub refresh_once-IsValid : (s : Shared) → IsValid s → IsValid (refresh_once w s)
  refresh_once-IsValid s v = refreshed s s.consumers v
