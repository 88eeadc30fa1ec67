-- ===== src/Tests/Matching.antt =====
-- The matchers, over a database of one game and a search that reports each pattern of a text.
use discord_rich_presence.Prelude.{
  ℕ, suc, get_elem?, arith, ◌≡◌, refl, String, true, false, Option, none, some, List, [], ◌∷◌, map,
  lower, list_eq, unwrap_or, if◌then◌else◌, Bytes, codes,
}
use discord_rich_presence.Bridge.Handoff.{automaton}
use discord_rich_presence.Detect.Types.{ScannedEntry, OsName, os_as_str, Exec}
use discord_rich_presence.Detect.Paths.{
  exe_names_path, names_tail, names_a_bundle, any_window, names_window, same_folded,
  equal_ignoring_case, ends_at_component,
}
use discord_rich_presence.Detect.Index.{build_index}
use discord_rich_presence.Detect.Titles.{
  normalize_name, normalize_lowered_dedotted_into, dedot, split_where, components,
}
use discord_rich_presence.Detect.Titles.Folders.{normalize_lowered_dedotted_into-dedot}
use discord_rich_presence.Detect.Variants.{
  find, starts_with, contains_text, remove_marker_into, remove_rounds, add_variant,
  path_variants_into,
}
use discord_rich_presence.Detect.Variants.Erased.{erase, remove_marker_into-erase}
use discord_rich_presence.Detect.Variants.Distinct.{
  IsVariant, IsFilled, path_variants_into-IsFilled,
}
use discord_rich_presence.Detect.Bundle.{
  DetectablesBundle, Automaton, linux_os, build_bundle, collect_split_patterns, walk_entries,
  walk_executables, add_pattern, normalize_exe_pattern, pattern_index, os_matches, build_aux_maps,
  undotted_names, any_os, no_patterns, PatternIndex,
}
use discord_rich_presence.Detect.Bundle.Tables.{StandsFor, walk_entries-StandsFor}
use discord_rich_presence.Detect.Hits.{
  Readings, is_excluded, finish_direct_hit, live_or_none, is_suspended, parse_stat_state,
}
use discord_rich_presence.Detect.Hits.Each.{Each}
use discord_rich_presence.Detect.Probes.{
  refused, first_hit, names_it, main_probe, probe_pass, passes, probe_variants,
}
use discord_rich_presence.Detect.Probes.{probes_of}
use discord_rich_presence.Detect.Probes.Corroborates.{Ends, Held, probe_variants-Ends}
use discord_rich_presence.Detect.Lookups.{match_name_or_folder}
use discord_rich_presence.Detect.Lookups.Named.{Carries, match_name_or_folder-Carries}
use discord_rich_presence.Detect.AppIds.{
  is_steam_sidecar, matches_sidecar_family, app_id_from_args, app_id_rounds, is_shortcut_id,
  parse_u32,
}
use discord_rich_presence.Detect.Matching.{classify, path_of, basename_of, match_process}
use discord_rich_presence.Detect.Matching.Warranted.{Warrant, match_process-Warranted}
use discord_rich_presence.Detect.Matching.Refusals.{IsNamed, classify_refused}

abbrev portal : ScannedEntry
portal = record {
  id = "620";
  name = "Portal 2";
  executables =
      (record { name = "portal2_linux"; os = OsName.linux; is_launcher = false; arguments = none })
      ∷ [];
  steam_ids = "620" ∷ [];
  aliases = [];
}

-- The numbers of the patterns that a text holds.
abbrev occurring : List Bytes → ℕ → Automaton
occurring [] number text = []
occurring (pattern ∷ patterns) number text =
    if contains_text text pattern
    then number ∷ occurring patterns (suc number) text
    else occurring patterns (suc number) text

abbrev searching : List Bytes → Option Automaton
searching patterns = some (occurring patterns 0)

abbrev no_games : DetectablesBundle
no_games = record {
  list = [];
  ac = λ text. [];
  indexes = [];
  proton_ac = none;
  proton_indexes = [];
  steam_map = [];
  name_map = [];
  name_map_nodot = [];
  custom = [];
  custom_ac = none;
  custom_indexes = [];
}

abbrev games : DetectablesBundle
games = unwrap_or (build_bundle linux_os searching (portal ∷ []) []) no_games

abbrev readings : Readings
readings = record {
  stat = λ pid. some (codes "70 (portal2 (x)) S 1");
  cwd = λ pid. none;
  app_id = λ pid. none;
  match_prefix = λ path. none;
  exclusions = record {
    executables = codes "setup.exe" ∷ [];
    no_patterns = true;
    is_match = λ name. false;
  };
  now = 5;
}

abbrev process : String → Exec
process path = record { pid = 70; path = path; arguments = none }

native_hit :
    (match_process readings games (process "/games/portal2_linux") false).1
    ≡ some (record { entry = portal; pid = 70; start = 5; source = automaton })
unfolding build_bundle collect_split_patterns walk_entries walk_executables add_pattern
    normalize_exe_pattern pattern_index os_matches os_as_str list_eq build_aux_maps build_index
    undotted_names match_process basename_of components split_where is_excluded is_steam_sidecar
    matches_sidecar_family starts_with classify probe_variants passes probe_pass first_hit names_it
    main_probe exe_names_path names_tail same_folded ends_at_component path_variants_into
    add_variant find finish_direct_hit live_or_none is_suspended parse_stat_state
native_hit = refl

-- The executable's name stands in the path, and something follows it.
backup_refused : probe_variants games false (codes "/opt/Portal 2/portal2_linux.txt") ≡ refused
unfolding build_bundle collect_split_patterns walk_entries walk_executables add_pattern
    normalize_exe_pattern pattern_index os_matches os_as_str list_eq build_aux_maps build_index
    undotted_names starts_with probe_variants passes probe_pass first_hit names_it main_probe
    exe_names_path names_tail names_a_bundle any_window names_window equal_ignoring_case same_folded
    ends_at_component path_variants_into add_variant find
backup_refused = refl

classify_refused_example : Each IsNamed (
    classify readings games
      (process "/opt/Portal 2/portal2_linux.txt")
      (codes "/opt/Portal 2/portal2_linux.txt"))
classify_refused_example =
    classify_refused readings games (process "/opt/Portal 2/portal2_linux.txt")
      (codes "/opt/Portal 2/portal2_linux.txt") backup_refused

games_built : build_bundle linux_os searching (portal ∷ []) [] ≡ some games
unfolding build_bundle collect_split_patterns walk_entries walk_executables add_pattern
games_built = refl

match_name_or_folder-Carries_example :
    Each
      (λ hit.
        Carries linux_os searching
          (portal ∷ [])
          []
          games
          games_built
          (codes "/opt/portal 2/bin/game")
          hit.entry)
      (match_name_or_folder readings games (codes "/opt/portal 2/bin/game") 70)
match_name_or_folder-Carries_example =
    match_name_or_folder-Carries linux_os searching (portal ∷ []) [] games games_built readings
      (codes "/opt/portal 2/bin/game") 70

normalize_lowered_dedotted_into-dedot_example :
    normalize_lowered_dedotted_into (map lower (codes "R.E.P.O. Haul")) ≡ codes "r e p o haul"
unfolding normalize_name dedot split_where
normalize_lowered_dedotted_into-dedot_example =
    normalize_lowered_dedotted_into-dedot (codes "R.E.P.O. Haul")

path_variants_into-IsFilled_example :
    IsFilled (codes "/lib64/wow_64.exe") (path_variants_into (codes "/lib64/wow_64.exe"))
path_variants_into-IsFilled_example = path_variants_into-IsFilled (codes "/lib64/wow_64.exe")

five_spellings :
    path_variants_into (codes "/lib64/wow_64.exe")
    ≡ codes "/lib64/wow_64.exe" ∷ codes "/lib/wow_.exe" ∷ codes "/lib64/wow.exe" ∷ []
unfolding path_variants_into add_variant find starts_with remove_marker_into remove_rounds list_eq
five_spellings = refl

remove_marker_into-erase_example : remove_marker_into (codes "a6644b64") (codes "64") ≡ codes "a64b"
unfolding erase starts_with
remove_marker_into-erase_example = remove_marker_into-erase b'6' (b'4' ∷ []) (codes "a6644b64")

launcher_id :
    app_id_from_args (some (codes "reaper XAppId=3 AppId=4508340 --")) ≡ some (codes "4508340")
unfolding app_id_from_args app_id_rounds find starts_with
launcher_id = refl

shortcut_ids : (is_shortcut_id (codes "2532755798") ≡ true) × (is_shortcut_id (codes "620") ≡ false)
unfolding is_shortcut_id parse_u32
shortcut_ids = (refl, refl)

probe_variants-Ends_example :
    Ends
      (probes_of games false)
      (path_variants_into (codes "/games/portal2_linux"))
      (IsVariant (codes "/games/portal2_linux"))
      (Held games)
      (probe_variants games false (codes "/games/portal2_linux"))
probe_variants-Ends_example = probe_variants-Ends games false (codes "/games/portal2_linux")

portal_pattern :
    get_elem? (walk_entries any_os 0 (portal ∷ []) no_patterns).patterns 0
    ≡ some (codes "xunil_2latrop/")
unfolding walk_entries walk_executables add_pattern normalize_exe_pattern pattern_index list_eq
portal_pattern = refl

walk_entries-StandsFor_example :
    (index : PatternIndex) × (get_elem? (walk_entries any_os 0 (portal ∷ []) no_patterns).indexes 0
      ≡ some index)
    × StandsFor any_os (portal ∷ []) (codes "xunil_2latrop/") index
walk_entries-StandsFor_example =
    walk_entries-StandsFor any_os (portal ∷ []) 0 (codes "xunil_2latrop/")
      (omega arith, (omega arith, tt)) portal_pattern

match_process-Warranted_example :
    Each
      (λ hit.
        (is_excluded readings.exclusions (basename_of (path_of (process "/games/portal2_linux")))
          ≡ false)
        × (is_steam_sidecar (basename_of (path_of (process "/games/portal2_linux"))) ≡ false)
        × Warrant linux_os searching
            (portal ∷ [])
            []
            games
            games_built
            readings
            (process "/games/portal2_linux")
            (path_of (process "/games/portal2_linux"))
            hit)
      (match_process readings games (process "/games/portal2_linux") false).1
match_process-Warranted_example =
    match_process-Warranted linux_os searching (portal ∷ []) [] games games_built readings
      (process "/games/portal2_linux") false
