-- ===== src/Tests/Scanning.antt =====
-- The scan lane, with one game recorded.
use discord_rich_presence.Prelude.{
  codes, ℕ, ◌≡◌, refl, ◌↔◌, List, String, true, false, some, [], ◌∷◌, pair_key, nat_key, string_key,
  list_eq, pair_eq, arith,
}
use discord_rich_presence.Bridge.Handoff.{automaton}
use discord_rich_presence.Detect.Types.{ScannedEntry, ScannedHit, found}
use discord_rich_presence.Detect.Channel.{Receiver}
use discord_rich_presence.Detect.Lane.{
  Lane, complete, snapshot_of, scan_tick, apply_ignore_list, exec_hit_ignored, scan_loop, on_exec,
}
use discord_rich_presence.Detect.Lane.Follows.{holds}
use discord_rich_presence.Detect.Lane.Ticks.{Agrees, table, scan_tick_refines}
use discord_rich_presence.Detect.Index.{
  IndexEntry, get_index, build_index, sort_entries, insert_entry, dedup_entries, dedup_from,
  text_cmp,
}
use discord_rich_presence.Detect.Index.Firsts.{first_value}
use discord_rich_presence.Detect.Index.Finds.{get_index-build_index}
use discord_rich_presence.Detect.Paths.{
  is_empty, exe_names_path, names_tail, names_a_bundle, any_window, names_window, same_folded,
  equal_ignoring_case, starts_with_bundle_interior, ends_at_component,
}
use discord_rich_presence.Detect.Paths.Names.{Names, exe_names_path_iff}
use discord_rich_presence.Detect.Lane.Ghosts.{IsGhost, scan_loop-IsGhost, on_exec_ghost}

abbrev entry : String → ScannedEntry
entry id = record { id = id; name = "Game"; executables = []; steam_ids = []; aliases = [] }

abbrev hit : String → ℕ → ScannedHit
hit id pid = record { entry = entry id; pid = pid; start = 0; source = automaton }

abbrev idle_receiver : Receiver
idle_receiver = record { takes = λ n. 0; gone = λ n. false }

-- Game 7 runs as process 70, and the consumer holds its card.
abbrev one_game : Lane
one_game = record {
  last_emitted = ("7", 70) ∷ [];
  scan_dirty = false;
  detected_pids = 70 ∷ [];
  idle_ticks = 0;
  events = record { depth = 0; dropped = 0; accepted = found (hit "7" 70) ∷ []; tried = 1 };
}

one_game-Agrees : Agrees one_game
one_game-Agrees p = ground arith

tick_complete : (scan_tick idle_receiver [] (hit "9" 90 ∷ []) one_game).0 ≡ complete
unfolding scan_tick list_eq pair_eq
tick_complete = refl

scan_tick_refines_example :
    Agrees (scan_tick idle_receiver [] (hit "9" 90 ∷ []) one_game).1
    × ((scan_tick idle_receiver [] (hit "9" 90 ∷ []) one_game).1.last_emitted
        ≡ table [] (hit "9" 90 ∷ []))
scan_tick_refines_example =
    scan_tick_refines idle_receiver [] (hit "9" 90 ∷ []) one_game one_game-Agrees tick_complete

-- The backlog is full after one more event, so that the second game of a scan is shed.
abbrev crowded : Lane
crowded = record one_game {
  events = record { depth = 127; dropped = 0; accepted = found (hit "7" 70) ∷ []; tried = 1 };
}

abbrev after_shed : Lane
after_shed = (scan_tick idle_receiver [] (hit "5" 50 ∷ hit "7" 70 ∷ []) crowded).1

after_shed-IsGhost : IsGhost idle_receiver ("5", 50) after_shed
unfolding scan_tick list_eq pair_eq
after_shed-IsGhost = (refl, refl)

on_exec_ghost_example :
    holds
      (scan_loop idle_receiver []
        ((some (hit "7" 70 ∷ []), false) ∷ [])
        (on_exec idle_receiver [] (hit "9" 90) one_game).1).events
      ("9", 90)
    ≡ true
unfolding snapshot_of pair_eq apply_ignore_list exec_hit_ignored
on_exec_ghost_example =
    on_exec_ghost idle_receiver [] (hit "9" 90) one_game refl (omega arith) refl refl
      ((some (hit "7" 70 ∷ []), false) ∷ []) (refl, refl, tt)

exe_names_path_iff_example :
    (exe_names_path (codes "/games/HL2.exe") (codes ">hl2.exe") ≡ true)
    ↔ ((is_empty (codes "hl2.exe") ≡ false) × Names (codes "/games/HL2.exe") (codes "hl2.exe"))
exe_names_path_iff_example = exe_names_path_iff (codes "/games/HL2.exe") (codes ">hl2.exe")

names_bundle :
    exe_names_path (codes "/Factorio.app/Contents/MacOS/factorio") (codes "factorio.app") ≡ true
unfolding exe_names_path names_tail names_a_bundle any_window names_window same_folded
    equal_ignoring_case starts_with_bundle_interior ends_at_component
names_bundle = refl

names_middle : exe_names_path (codes "/hl2.exe.txt") (codes "hl2.exe") ≡ false
unfolding exe_names_path names_tail names_a_bundle any_window names_window same_folded
    equal_ignoring_case starts_with_bundle_interior ends_at_component
names_middle = refl

-- Two games are called halo: the first one keeps the key.
abbrev named : List IndexEntry
named = (codes "halo", 1) ∷ (codes "doom", 2) ∷ (codes "halo", 3) ∷ []

get_index-build_index_example : get_index (build_index named) (codes "halo") ≡ some 1
unfolding first_value list_eq
get_index-build_index_example = get_index-build_index named (codes "halo")

named_index : build_index named ≡ (codes "doom", 2) ∷ (codes "halo", 1) ∷ []
unfolding list_eq build_index sort_entries insert_entry dedup_entries dedup_from text_cmp
named_index = refl

scan_loop-IsGhost_example :
    IsGhost idle_receiver
      ("5", 50)
      (scan_loop idle_receiver [] ((some (hit "7" 70 ∷ []), false) ∷ []) after_shed)
unfolding snapshot_of pair_eq apply_ignore_list exec_hit_ignored
scan_loop-IsGhost_example =
    scan_loop-IsGhost idle_receiver ("5", 50) [] ((some (hit "7" 70 ∷ []), false) ∷ []) after_shed
      (refl, refl, tt) after_shed-IsGhost
