-- ===== src/Tests/Pumps.antt =====
-- The scanner's reports and the clears, at a small state.
use discord_rich_presence.Prelude.{
  ℕ, ◌<◌, ◌≡◌, ◌≢◌, ◌⊎◌, refl, true, none, some, [], ◌∷◌, ◌==◌, string_key, nat_key, if◌then◌else◌,
  arith, length,
}
use discord_rich_presence.Prelude.HashMap.{get, retain, remove, Distinct}
use discord_rich_presence.Types.Ids.{of_app}
use discord_rich_presence.Protocol.Cached.{empty_cached}
use discord_rich_presence.Bridge.Handoff.{detected, cleared, alive, owner_of, resume_for}
use discord_rich_presence.Bridge.Table.{is_process_alive}
use discord_rich_presence.Bridge.Shared.{Shared, broadcast_activity}
use discord_rich_presence.Bridge.Replay.{cache_entry_pid}
use discord_rich_presence.Bridge.Router.{resume_after_clear, is_genuine_clear}
use discord_rich_presence.Bridge.Router.Clears.{resume_after_clear_owner}
use discord_rich_presence.Bridge.Pump.{clear_card, on_cleared, on_detected, on_removed}
use discord_rich_presence.Bridge.Pump.Cards.{EncodesClears}
use discord_rich_presence.Bridge.Pump.Cleared.{on_cleared-alive}
use discord_rich_presence.Bridge.Pump.Slots.{
  on_detected_withdraws, on_removed_matching, on_removed_restart,
}
use discord_rich_presence.Bridge.Invariant.Tables.{IsValid}
use discord_rich_presence.Bridge.Run.{
  command, report, refresh, initial, run, run-IsValid, initial-IsValid,
}
use discord_rich_presence.Tests.Fixtures.{
  small_codec, small_world, chess, publication, retraction, card, shown, owned,
}

encodes : EncodesClears small_codec
unfolding empty_cached
encodes = record { clear = λ pid id h. ground (arith, h) }

run-IsValid_example : IsValid (
    run
      ((small_world, report (detected chess))
        ∷ (small_world, command publication)
        ∷ (small_world, refresh)
        ∷ (small_world, report cleared)
        ∷ [])
      initial)
run-IsValid_example =
    run-IsValid
      ((small_world, report (detected chess))
        ∷ (small_world, command publication)
        ∷ (small_world, refresh)
        ∷ (small_world, report cleared)
        ∷ [])
      initial initial-IsValid

tracked : get shown.last_process "7" ≡ some 70
unfolding get
tracked = refl

tracked_some : get shown.last_process "7" ≢ none
unfolding get
tracked_some h = cc

owned_by_42 : owner_of owned.handoff "7" ≡ some 42
unfolding get
owned_by_42 = refl

on_detected_withdraws_example :
    get (on_detected small_world chess owned).cache "7"
    ≡ (if of_app chess.id == "7" then none else get owned.cache "7")
on_detected_withdraws_example =
    on_detected_withdraws small_world encodes chess owned 42 70 "7" owned_by_42 tracked

on_removed_matching_example :
    (get (on_removed small_world chess.id 70 shown).last_process "7"
      ≡ (if chess.id == "7" then none else get shown.last_process "7"))
    × (get (on_removed small_world chess.id 70 shown).cache (of_app "7")
        ≡ (if chess.id == "7" then none else get shown.cache (of_app "7")))
on_removed_matching_example = on_removed_matching small_world encodes chess.id 70 shown "7" tracked

-- No card is shown yet.
abbrev quiet : Shared
quiet = record shown { last_process = [] }

nobody_owns : owner_of quiet.handoff chess.id ≡ none
unfolding get
nobody_owns = refl

nothing_shown : get quiet.last_process chess.id ≡ none
unfolding get
nothing_shown = refl

few_shown : length (retain (alive small_world.probe) quiet.last_process) < 64
unfolding retain
few_shown = omega arith

another_pid : chess.pid ≢ 71
another_pid h = omega (arith, h)

on_removed_restart_example :
    (get (on_removed small_world "7" 71 (on_detected small_world chess quiet)).last_process "7"
      ≡ some 70)
    × ((on_removed small_world "7" 71 (on_detected small_world chess quiet)).cache
        ≡ (on_detected small_world chess quiet).cache)
    × ((on_removed small_world "7" 71 (on_detected small_world chess quiet)).sent
        ≡ (on_detected small_world chess quiet).sent)
    × (get
          (on_removed small_world "7" 70
            (on_removed small_world "7" 71 (on_detected small_world chess quiet))).last_process
          "7"
        ≡ none)
    × (get
          (on_removed small_world "7" 70
            (on_removed small_world "7" 71 (on_detected small_world chess quiet))).cache
          (of_app "7")
        ≡ none)
on_removed_restart_example =
    on_removed_restart small_world chess quiet 71 encodes nobody_owns nothing_shown tt few_shown
      another_pid

-- A card of a live process, which no report of the scanner tracks.
abbrev living : Shared
living = record shown { last_process = [] }

ghost_free : get (on_cleared small_world living).cache "7" ≡ some (card 70, 1)
unfolding on_cleared get empty_cached cache_entry_pid is_process_alive clear_card broadcast_activity
    remove
ghost_free = refl

on_cleared-alive_example :
    (get living.cache "7" ≡ some (card 70, 1))
    × ((cache_entry_pid "7" (card 70) ≡ none)
        ⊎ ((pid : ℕ) × (cache_entry_pid "7" (card 70) ≡ some pid)
            × (alive small_world.probe pid ≡ true)))
on_cleared-alive_example = on_cleared-alive small_world encodes living "7" (card 70) 1 ghost_free

rescanned : resume_for owned.handoff "7" ≡ some chess
unfolding get
rescanned = refl

lives : alive small_world.probe 70 ≡ true
unfolding is_process_alive
lives = refl

apart : Distinct owned.last_process
unfolding get
apart = (refl, tt)

unowned : owner_of shown.handoff "7" ≢ some 42
unfolding get
unowned h = cc

genuine : is_genuine_clear retraction ≡ true
unfolding is_genuine_clear
genuine = refl

few : length (retain (alive small_world.probe) owned.last_process) < 64
unfolding retain is_process_alive
few = omega arith

resume_after_clear_owner_example :
    (owner_of (resume_after_clear small_world retraction owned).handoff "7" ≡ none)
    × (get (resume_after_clear small_world retraction owned).last_process "7" ≡ some 70)
resume_after_clear_owner_example =
    resume_after_clear_owner small_world retraction owned "7" 42 genuine refl refl chess owned_by_42
      rescanned lives apart few
