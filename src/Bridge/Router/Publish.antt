-- ===== src/Bridge/Router/Publish.antt =====
-- What a publish changes.
use mathlib.Core.Path.{subst}
use discord_rich_presence.Prelude.{
  Bytes, ◌+◌, ◌≤◌, ◌<◌, ◌≡◌, ◌∙◌, ap, sym, refl, Bool, true, false, Option, none, some, string_key,
  string_iff, nat_key, list_key, list_eq_iff, option_key, pair_key, if◌then◌else◌, arith, unwrap_or,
  ◌>>=◌,
}
use discord_rich_presence.Prelude.HashMap.{HashMap, Distinct, get, insert, get-insert, get-remove}
use discord_rich_presence.Prelude.HashMap.Keeps.{insert-Distinct}
use discord_rich_presence.Types.Ids.{SocketId, of_pid, u64_mod}
use discord_rich_presence.Types.Cmd.{ActivityCmd, ActivityCmdArgs}
use discord_rich_presence.Protocol.Flood.{Slot, should_drop}
use discord_rich_presence.Protocol.Flood.Guard.{WasRecorded, should_drop_iff}
use discord_rich_presence.Protocol.Cached.{CachedActivity, activity_fingerprint}
use discord_rich_presence.Bridge.Replay.{Entry}
use discord_rich_presence.Bridge.Replay.Prune.{IsNewest, prune_cache-newest}
use discord_rich_presence.Bridge.Shared.{
  Shared, Outboxes, next_seq, cache_payload, broadcast_activity,
}
use discord_rich_presence.Bridge.Shared.Fanout.{broadcast_activity_tables}
use discord_rich_presence.Bridge.Router.{
  World, cmd_pid, is_genuine_clear, activity_changed, note_sdk_publish, resume_after_clear, publish,
  handle_fingerprinted, handle_set_activity,
}

-- No cached entry is newer than the counter, and the counter has not reached its last value.
pub record IsStamped (s : Shared) : Type 0 where
  pub apart : Distinct s.cache
  pub stamped : (j : SocketId) (e : Entry) → get s.cache j ≡ some e → e.1 ≤ s.activity_seq
  pub room : s.activity_seq + 1 < u64_mod

IsNewest-inserted :
    (payload : CachedActivity) (id : SocketId) (s : Shared)
    → IsStamped s
    → IsNewest
        (insert s.cache id (payload, next_seq s.activity_seq))
        id
        (payload, next_seq s.activity_seq)
IsNewest-inserted payload id s v =
    let e : Entry = (payload, next_seq s.activity_seq) in
    record {
      found = ground (arith, get-insert s.cache id id e, string_iff id id);
      newest = λ j f g ne.
          let old : get s.cache j ≡ some f =
            ground (arith, get-insert s.cache id j e, string_iff id j) in
          omega (arith, v.stamped j f old, v.room);
    }

-- After a broadcast late joiners find what was sent: a clear leaves no card under its socket id, and
-- any other payload stands in the replay cache with the next sequence number, also when the cache
-- was full. (No entry is newer than the counter, and the counter is below its last value.)
pub broadcast_activity_cached :
    (accepts : Outboxes) (payload : CachedActivity) (id : SocketId) (s : Shared)
    → IsStamped s
    → get (broadcast_activity accepts payload id s).cache id
      ≡ (if payload.is_clear then none else some (payload, s.activity_seq + 1))
unfolding cache_payload
broadcast_activity_cached accepts payload id s v =
    let e : Entry = (payload, next_seq s.activity_seq) in
    let grown = insert s.cache id e in
    let kept =
      prune_cache-newest grown (insert-Distinct s.cache id e v.apart) id e
        (IsNewest-inserted payload id s v) in
    let seq : next_seq s.activity_seq ≡ s.activity_seq + 1 = omega (arith, v.room) in
    ap (λ (m : HashMap SocketId Entry). get m id) (broadcast_activity_tables accepts payload id s).0
    ∙ ground (arith, kept, seq, get-remove s.cache id id, string_iff id id)

-- A command with a fingerprint carries an activity, and is no clear.
fingerprint_not_clear :
    (w : World) (cmd : ActivityCmd) (fp : Bytes)
    → (activity_fingerprint w.codec w.secs cmd).1 ≡ some fp
    → is_genuine_clear (activity_fingerprint w.codec w.secs cmd).0 ≡ false
unfolding activity_fingerprint is_genuine_clear
fingerprint_not_clear w cmd fp h = ground arith

module _ (w : World) where
  guard_drops :
      (cmd : ActivityCmd) (fp : Bytes) (s : Shared)
      → WasRecorded s.recent (cmd.application_id, unwrap_or (cmd_pid cmd) 0) fp w.instant
      → handle_fingerprinted w cmd (some fp) s ≡ s
  unfolding handle_fingerprinted should_drop
  guard_drops cmd fp s seen =
      let slot : Slot = (cmd.application_id, unwrap_or (cmd_pid cmd) 0) in
      ground (arith, (should_drop_iff (w.probe.start 0) s.recent slot fp w.instant).1 seen)

  note_sdk_publish_quiet :
      (cmd : ActivityCmd) (s : Shared)
      → ((note_sdk_publish w cmd s).cache ≡ s.cache)
        × ((note_sdk_publish w cmd s).sent ≡ s.sent)
        × ((note_sdk_publish w cmd s).last_process ≡ s.last_process)
  unfolding note_sdk_publish
  note_sdk_publish_quiet cmd s = (ground arith, ground arith, ground arith)

  publish_quiet :
      (cmd : ActivityCmd) (args : ActivityCmdArgs) (fp : Bytes) (s : Shared) (e : Entry)
      → is_genuine_clear cmd ≡ false
      → get s.cache (of_pid (unwrap_or args.pid 0)) ≡ some e
      → e.0.is_clear ≡ false
      → e.0.activity_json ≡ fp
      → publish w cmd args (some fp) s ≡ note_sdk_publish w cmd s
  unfolding publish activity_changed resume_after_clear
  publish_quiet cmd args fp s e card cached shown same =
      ground (arith, card, cached, shown, list_eq_iff e.0.activity_json fp)

  IsQuiet : Shared → Shared → Type 0
  IsQuiet s t = (t.cache ≡ s.cache) × (t.sent ≡ s.sent) × (t.last_process ≡ s.last_process)

  IsQuiet-if :
      (b : Bool) (s t u : Shared) → IsQuiet s t → IsQuiet s u → IsQuiet s (if b then t else u)
  IsQuiet-if true s t u h k = h
  IsQuiet-if false s t u h k = k

  guarded-IsQuiet :
      (cmd : ActivityCmd) (fp : Bytes) (s : Shared) (e : Entry)
      → is_genuine_clear cmd ≡ false
      → get s.cache (of_pid (unwrap_or (cmd_pid cmd) 0)) ≡ some e
      → e.0.is_clear ≡ false
      → e.0.activity_json ≡ fp
      → IsQuiet s (handle_fingerprinted w cmd (some fp) s)
  unfolding handle_fingerprinted IsQuiet
  guarded-IsQuiet cmd fp s e card cached shown same =
      IsQuiet-if _ s _ _ (refl, refl, refl) (go cmd.args refl)
    where
      s' : Shared
      s' = record s {
        recent =
            (should_drop (w.probe.start 0) s.recent (cmd.application_id, unwrap_or (cmd_pid cmd) 0)
              (some fp) w.instant).0;
      }

      go :
          (o : Option ActivityCmdArgs)
          → cmd.args ≡ o
          → IsQuiet s (elim o [ none ↦ s' | some args ↦ publish w cmd args (some fp) s' ])
      go none q = (refl, refl, refl)
      go (some args) q =
          let found : get s.cache (of_pid (unwrap_or args.pid 0)) ≡ some e =
            sym (
              ap
                (λ (o : Option ActivityCmdArgs).
                  get s.cache (of_pid (unwrap_or (o >>= λ a. a.pid) 0)))
                q)
            ∙ cached in
          subst (IsQuiet s) (sym (publish_quiet cmd args fp s' e card found shown same))
            (note_sdk_publish_quiet cmd s')

  module _ (cmd : ActivityCmd) (fp : Bytes) (s : Shared)
      (print : (activity_fingerprint w.codec w.secs cmd).1 ≡ some fp) where
    abbrev sent_cmd : ActivityCmd
    sent_cmd = (activity_fingerprint w.codec w.secs cmd).0

    -- A publish that repeats the last one of its connection within the window changes nothing at
    -- all.
    pub handle_set_activity_repeat :
        WasRecorded s.recent (sent_cmd.application_id, unwrap_or (cmd_pid sent_cmd) 0) fp w.instant
        → handle_set_activity w cmd s ≡ s
    unfolding handle_set_activity
    handle_set_activity_repeat seen =
        ap (λ (o : Option Bytes). handle_fingerprinted w sent_cmd o s) print
        ∙ guard_drops sent_cmd fp s seen

    -- A publish of the bytes that the replay cache already holds for its pid, at any time later,
    -- sends nothing and leaves the cache and the generic cards as they are.
    pub handle_set_activity_identical :
        (e : Entry)
        → get s.cache (of_pid (unwrap_or (cmd_pid sent_cmd) 0)) ≡ some e
        → e.0.is_clear ≡ false
        → e.0.activity_json ≡ fp
        → ((handle_set_activity w cmd s).cache ≡ s.cache)
          × ((handle_set_activity w cmd s).sent ≡ s.sent)
          × ((handle_set_activity w cmd s).last_process ≡ s.last_process)
    unfolding handle_set_activity IsQuiet
    handle_set_activity_identical e cached shown same =
        subst (λ (o : Option Bytes). IsQuiet s (handle_fingerprinted w sent_cmd o s)) (sym print)
          (guarded-IsQuiet sent_cmd fp s e (fingerprint_not_clear w cmd fp print) cached shown same)
