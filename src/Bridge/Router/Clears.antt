-- ===== src/Bridge/Router/Clears.antt =====
-- A clear hands the slot back to generic detection.
use discord_rich_presence.Prelude.{
  ℕ, ◌<◌, ◌≡◌, ◌≢◌, ◌∙◌, ap, refl, inl, true, Option, none, some, string_key, string_iff, nat_key,
  eqn_iff, arith, length,
}
use discord_rich_presence.Prelude.HashMap.{HashMap, Distinct, get, retain, remove, get-remove}
use discord_rich_presence.Types.Ids.{AppId, SocketId, of_app}
use discord_rich_presence.Types.Cmd.{ActivityCmd}
use discord_rich_presence.Protocol.Cached.{CachedActivity}
use discord_rich_presence.Bridge.Table.{max_handoff_entries}
use discord_rich_presence.Bridge.Table.Bound.{track_live}
use discord_rich_presence.Bridge.Handoff.{
  ScannedGame, HandoffState, alive, owner_of, resume_for, note_clear,
}
use discord_rich_presence.Bridge.Shared.{Shared}
use discord_rich_presence.Bridge.Shared.Fanout.{broadcast_activity_tables}
use discord_rich_presence.Bridge.Router.{
  World, cmd_pid, is_genuine_clear, publish_or_count, track_process, resume_generic,
  generic_payload, resume_after_clear,
}

module _ (w : World) where
  -- A broadcast or a counted drop leaves the handoff and the table of generic cards alone.
  pub publish_or_count_tables :
      (o : Option CachedActivity) (id : SocketId) (s : Shared)
      → ((publish_or_count w o id s).last_process ≡ s.last_process)
        × ((publish_or_count w o id s).handoff ≡ s.handoff)
  unfolding publish_or_count
  publish_or_count_tables none id s = (refl, refl)
  publish_or_count_tables (some payload) id s =
      let t = broadcast_activity_tables w.accepts payload id s in (t.1, t.2)

  module _ (cmd : ActivityCmd) (s : Shared) (app : AppId) (pid : ℕ)
      (clear : is_genuine_clear cmd ≡ true) (names : cmd.application_id ≡ some app)
      (from : cmd_pid cmd ≡ some pid) where
    released_state : Shared
    released_state = record s {
      handoff = record s.handoff { live_ipc = remove s.handoff.live_ipc app };
    }

    resume_one :
        (game : ScannedGame)
        → owner_of s.handoff app ≡ some pid
        → resume_for s.handoff app ≡ some game
        → alive w.probe game.pid ≡ true
        → resume_after_clear w cmd s ≡ resume_generic w game released_state
    unfolding resume_after_clear note_clear released_state
    resume_one game owned scanned lives = ground (arith, owned, scanned, lives, eqn_iff pid pid)

    -- A clear by the owner of a slot releases it and tracks the generic card of the game that the
    -- scanner still reports there, where the process of that game is alive, fewer than 64 tracked cards
    -- have a live process, and no card is tracked twice.
    pub resume_after_clear_owner :
        (game : ScannedGame)
        → owner_of s.handoff app ≡ some pid
        → resume_for s.handoff app ≡ some game
        → alive w.probe game.pid ≡ true
        → Distinct s.last_process
        → length (retain (alive w.probe) s.last_process) < max_handoff_entries
        → (owner_of (resume_after_clear w cmd s).handoff app ≡ none)
          × (get (resume_after_clear w cmd s).last_process game.id ≡ some game.pid)
    unfolding resume_generic released_state track_process
    resume_after_clear_owner game owned scanned lives apart room =
        let tracked = track_process w game.id game.pid released_state in
        let t = publish_or_count_tables (generic_payload w game) (of_app game.id) tracked in
        let same = (string_iff game.id game.id).1 refl in
        let app_same = (string_iff app app).1 refl in
        let e = resume_one game owned scanned lives in
        let live =
          track_live w.probe.start (alive w.probe) s.last_process game.id game.pid game.id apart
            room (inl same) in
        (
          ap (λ (x : Shared). owner_of x.handoff app) e
              ∙ ap (λ (h : HandoffState). owner_of h app) t.1
              ∙ get-remove s.handoff.live_ipc app app
              ∙ rw app_same,
          ap (λ (x : Shared). get x.last_process game.id) e
              ∙ ap (λ (m : HashMap AppId ℕ). get m game.id) t.0
              ∙ live
              ∙ rw same,
        )

    -- A clear by anybody else than the owner changes nothing.
    pub resume_after_clear_stranger :
        owner_of s.handoff app ≢ some pid → resume_after_clear w cmd s ≡ s
    unfolding resume_after_clear note_clear
    resume_after_clear_stranger foreign = ground (arith, foreign)
