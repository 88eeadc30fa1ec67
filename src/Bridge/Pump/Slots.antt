-- ===== src/Bridge/Pump/Slots.antt =====
-- What a report on one slot leaves visible.
use discord_rich_presence.Prelude.{
  ℕ, ◌<◌, ◌∙◌, refl, length, string_iff, ◌≡◌, ◌≢◌, ap, none, some, string_key, nat_key, ◌==◌,
  if◌then◌else◌, arith, Option-cases, inl, inr,
}
use discord_rich_presence.Prelude.HashMap.{Distinct, retain, HashMap, get, remove, get-remove}
use discord_rich_presence.Types.Ids.{AppId, SocketId, of_app}
use discord_rich_presence.Bridge.Handoff.{alive, ScannedGame, note_scan, note_remove, owner_of}
use discord_rich_presence.Bridge.Replay.{ReplayCache}
use discord_rich_presence.Bridge.Shared.{Shared}
use discord_rich_presence.Bridge.Router.{
  World, generic_payload, track_process, take_matching_process,
}
use discord_rich_presence.Bridge.Pump.{show_generic, yield_slot, on_detected, on_removed}
use discord_rich_presence.Bridge.Pump.Cards.{EncodesClears, clear_card_lem}
use discord_rich_presence.Bridge.Table.{max_handoff_entries}
use discord_rich_presence.Bridge.Table.Bound.{track_live}
use discord_rich_presence.Bridge.Router.Clears.{publish_or_count_tables}

module _ (w : World) (enc : EncodesClears w.codec) where
  abbrev yielded : ScannedGame → Shared → Shared
  yielded game s = record s {
    handoff = note_scan w.probe s.handoff (some game);
    last_process = remove s.last_process game.id;
  }

  -- A report on a slot that a live game owns leaves no generic card tracked for it; no other slot's
  -- card is lost or added. (The serializers encode clears.)
  pub on_detected_yields :
      (game : ScannedGame) (s : Shared) (owner : ℕ) (other : AppId)
      → owner_of s.handoff game.id ≡ some owner
      → get (on_detected w game s).last_process other
        ≡ (if game.id == other then none else get s.last_process other)
  unfolding on_detected yield_slot note_scan
  on_detected_yields game s owner other h = elim (Option-cases (get s.last_process game.id)) [
    | inl hidden ↦ ground (arith, h, hidden, get-remove s.last_process game.id other)
    | inr (pid, shown) ↦
        let c = clear_card_lem w enc pid (of_app game.id) (yielded game s) in
        ground (
          arith,
          h,
          shown,
          ap (λ (m : HashMap AppId ℕ). get m other) c.1,
          get-remove s.last_process game.id other,
        )
  ]

  -- If a generic card was shown for the slot that a live game owns, the next report on the slot
  -- withdraws it from the replay cache, and no other card. (The serializers encode clears.)
  pub on_detected_withdraws :
      (game : ScannedGame) (s : Shared) (owner pid : ℕ) (id : SocketId)
      → owner_of s.handoff game.id ≡ some owner
      → get s.last_process game.id ≡ some pid
      → get (on_detected w game s).cache id
        ≡ (if of_app game.id == id then none else get s.cache id)
  unfolding on_detected yield_slot note_scan
  on_detected_withdraws game s owner pid id h shown =
      let c = clear_card_lem w enc pid (of_app game.id) (yielded game s) in
      ground
        (arith, h, shown, ap (λ (m : ReplayCache). get m id) c.0, get-remove s.cache game.id id)

  -- A removal by the pid whose generic card is tracked withdraws that card: it is neither tracked
  -- nor replayed any more, and every other card stays. (The serializers encode clears.)
  pub on_removed_matching :
      (app : AppId) (pid : ℕ) (s : Shared) (other : AppId)
      → get s.last_process app ≡ some pid
      → (get (on_removed w app pid s).last_process other
          ≡ (if app == other then none else get s.last_process other))
        × (get (on_removed w app pid s).cache (of_app other)
            ≡ (if app == other then none else get s.cache (of_app other)))
  unfolding on_removed take_matching_process
  on_removed_matching app pid s other h =
      let t : Shared = record s {
        handoff = (note_remove s.handoff app pid).0;
        last_process = remove s.last_process app;
      } in
      let c = clear_card_lem w enc pid (of_app app) t in
      (
        ground (
          arith,
          h,
          ap (λ (m : HashMap AppId ℕ). get m other) c.1,
          get-remove s.last_process app other,
        ),
        ground (arith, h, ap (λ (m : ReplayCache). get m other) c.0, get-remove s.cache app other),
      )

-- A removal whose pid is not the one of the tracked generic card sends nothing and withdraws no card.
on_removed_stale :
    (w : World) (app : AppId) (pid : ℕ) (s : Shared)
    → get s.last_process app ≢ some pid
    → on_removed w app pid s ≡ record s { handoff = (note_remove s.handoff app pid).0 }
unfolding on_removed take_matching_process note_remove
on_removed_stale w app pid s h = ground (arith, h)

module _ (w : World) (game : ScannedGame) (s : Shared) where
  abbrev reported : Shared
  reported = record s { handoff = note_scan w.probe s.handoff (some game) }

  -- The report of a game on a slot without an owner and without a card.
  on_detected_shows :
      owner_of s.handoff game.id ≡ none
      → get s.last_process game.id ≡ none
      → on_detected w game s ≡ show_generic w game reported
  unfolding on_detected note_scan
  on_detected_shows unowned hidden = ground (arith, unowned, hidden)

  on_detected_tracks :
      owner_of s.handoff game.id ≡ none
      → get s.last_process game.id ≡ none
      → Distinct s.last_process
      → length (retain (alive w.probe) s.last_process) < max_handoff_entries
      → get (on_detected w game s).last_process game.id ≡ some game.pid
  unfolding show_generic track_process
  on_detected_tracks unowned hidden apart room =
      let same = (string_iff game.id game.id).1 refl in
      ap (λ (t : Shared). get t.last_process game.id) (on_detected_shows unowned hidden)
      ∙ ap (λ (m : HashMap AppId ℕ). get m game.id)
          (publish_or_count_tables w (generic_payload w game) (of_app game.id)
            (track_process w game.id game.pid reported)).0
      ∙ track_live w.probe.start (alive w.probe) s.last_process game.id game.pid game.id apart room
          (inl same)
      ∙ rw same refl

  -- A game that is reported on a slot without an owner and without a card keeps its card when the
  -- removal of an older process on the slot comes late: it stays tracked, the replay cache stays as it
  -- is and nothing is sent. The removal of the game's own pid then withdraws the card, which is neither
  -- tracked nor replayed any more. (Fewer than 64 tracked cards have a live process, no card is tracked
  -- twice, and the serializers encode clears.)
  pub on_removed_restart :
      (old : ℕ)
      → EncodesClears w.codec
      → owner_of s.handoff game.id ≡ none
      → get s.last_process game.id ≡ none
      → Distinct s.last_process
      → length (retain (alive w.probe) s.last_process) < max_handoff_entries
      → game.pid ≢ old
      → let shown = on_detected w game s in
        let kept = on_removed w game.id old shown in
        let gone = on_removed w game.id game.pid kept in
        (get kept.last_process game.id ≡ some game.pid)
        × (kept.cache ≡ shown.cache)
        × (kept.sent ≡ shown.sent)
        × (get gone.last_process game.id ≡ none)
        × (get gone.cache (of_app game.id) ≡ none)
  on_removed_restart old enc unowned hidden apart room other =
      let shown = on_detected w game s in
      let kept = on_removed w game.id old shown in
      let tracked = on_detected_tracks unowned hidden apart room in
      let stale = on_removed_stale w game.id old shown (λ h. other (ground (arith, tracked, h))) in
      let still : get kept.last_process game.id ≡ some game.pid =
        ap (λ (t : Shared). get t.last_process game.id) stale ∙ tracked in
      let (untracked, evicted) = on_removed_matching w enc game.id game.pid kept game.id still in
      let same = (string_iff game.id game.id).1 refl in
      (
        still,
        ap (λ (t : Shared). t.cache) stale,
        ap (λ (t : Shared). t.sent) stale,
        untracked ∙ rw same refl,
        evicted ∙ rw same refl,
      )
