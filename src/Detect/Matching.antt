-- ===== src/Detect/Matching.antt =====
-- crates/rsrpc-detect/src/scan.rs: which game a process is.
pub mod Evidence
pub mod Refusals
pub mod Warranted
use discord_rich_presence.Prelude.{
  ℕ, zero, suc, ◌+◌, ◌-◌, ◌*◌, ◌/◌, ◌%◌, ◌^◌, take, Bool, true, false, not, ◌&&◌, ◌||◌, List, [],
  ◌∷◌, ◌++◌, map, Option, none, some, ◌>>=◌, map_some, is_some_and, is_none, unwrap_or, get_elem?,
  length, ltb, leb, eqn, drop, String, Bytes, codes, lower, is_whitespace, contains, ◌==◌, list_key,
  nat_key, string_key, if◌then◌else◌,
}
use discord_rich_presence.Bridge.Handoff.{
  DetectSource, automaton, cwd_joined, proton_automaton, steam_app_id, steam_library,
  exe_stem as by_stem, folder,
}
use discord_rich_presence.Detect.Types.{ScannedExe, ScannedEntry, ScannedHit, Exec}
use discord_rich_presence.Detect.Paths.{exe_names_path, is_empty}
use discord_rich_presence.Detect.Index.{IndexEntry, get_index}
use discord_rich_presence.Detect.Titles.{
  exe_stem, name_matchable, components, first_component, skip_first, normalize_lowered_into,
  normalize_lowered_dedotted_into, words,
}
use discord_rich_presence.Detect.Variants.{
  starts_with, contains_text, find, path_variants_into, bare_exe,
}
use discord_rich_presence.Detect.Bundle.{
  DetectablesBundle, Automaton, PatternIndex, reversed, slashed,
}
use discord_rich_presence.Detect.Hits.{
  Readings, live_or_none, finish_direct_hit, argv_names_an_executable,
}
use discord_rich_presence.Detect.Probes.{
  MatchOutcome, corroborated, refused, no_match, take_hit, is_refused, probe_variants,
}
use discord_rich_presence.Detect.Hits.{is_excluded}
use discord_rich_presence.Detect.Lookups.{match_steam_id, match_name_or_folder}
use discord_rich_presence.Detect.AppIds.{app_id_from_args, is_shortcut_id, is_steam_sidecar}

-- The tiers of match_process, from the last to the first. A refusal that came before is passed down.
unfoldable pub last_tiers : Readings → DetectablesBundle → ℕ → Bytes → Bool → Option ScannedHit
unfolding match_steam_id match_name_or_folder
last_tiers w b pid lowered non_steam =
    elim (w.match_prefix lowered
      >>= (λ id. match_steam_id w b pid (some id) lowered steam_library)) [
        | some hit ↦ some hit
        | none ↦ if non_steam then none else match_name_or_folder w b lowered pid
      ]

unfoldable pub proton_tier :
    Readings → DetectablesBundle → Exec → Bytes → Bytes → Bool → Bool → Option ScannedHit
unfolding probe_variants finish_direct_hit last_tiers
proton_tier w b process lowered proton_path non_steam was_refused =
    let proton = probe_variants b true proton_path in
    elim (take_hit proton) [
      | some (entry, exe_index) ↦ finish_direct_hit w entry exe_index process proton_automaton
      | none ↦
          if was_refused || is_refused proton
          then none
          else last_tiers w b process.pid lowered non_steam
    ]

-- A shortcut's own name comes before the library that it lies in.
unfoldable pub shortcut_tier :
    Readings → DetectablesBundle → Exec → Bytes → Bytes → Bool → Bool → Option ScannedHit
unfolding match_name_or_folder proton_tier
shortcut_tier w b process lowered proton_path non_steam was_refused =
    elim (if not was_refused && non_steam
      then match_name_or_folder w b lowered process.pid
      else none) [
        | some hit ↦ some hit
        | none ↦ proton_tier w b process lowered proton_path non_steam was_refused
      ]

unfoldable pub id_of_process : Readings → Exec → Option Bytes
unfolding app_id_from_args
id_of_process w process = elim (w.app_id process.pid) [
  | some id ↦ some id
  | none ↦ app_id_from_args (map_some codes process.arguments)
]

unfoldable pub after_automata :
    Readings → DetectablesBundle → Exec → Bytes → Bytes → Bool → Option ScannedHit
unfolding id_of_process match_steam_id is_shortcut_id shortcut_tier
after_automata w b process path proton_path was_refused =
    let lowered = map lower path in
    let app_id = id_of_process w process in
    elim (match_steam_id w b process.pid app_id lowered steam_app_id) [
      | some hit ↦ some hit
      | none ↦
          shortcut_tier w b process lowered proton_path (is_some_and app_id is_shortcut_id)
            was_refused
    ]

-- The working directory, with the bare name of the executable behind it.
unfoldable pub joined_path : Readings → ℕ → Bytes → Option Bytes
unfolding bare_exe
joined_path w pid path = do
  exe ← bare_exe path
  cwd ← w.cwd pid
  some (map lower cwd ++ (b'/' ∷ exe))

unfoldable pub cwd_tier : Readings → DetectablesBundle → Exec → Bytes → Bool → Option ScannedHit
unfolding joined_path probe_variants finish_direct_hit after_automata
cwd_tier w b process path was_refused = elim (joined_path w process.pid path) [
  | none ↦ after_automata w b process path path was_refused
  | some candidate ↦
      let found = probe_variants b false candidate in
      elim (take_hit found) [
        | some (entry, exe_index) ↦ finish_direct_hit w entry exe_index process cwd_joined
        | none ↦ after_automata w b process path candidate (was_refused || is_refused found)
      ]
]

unfoldable pub classify : Readings → DetectablesBundle → Exec → Bytes → Option ScannedHit
unfolding probe_variants finish_direct_hit cwd_tier
classify w b process path =
    let found = probe_variants b false path in
    elim (take_hit found) [
      | some (entry, exe_index) ↦ finish_direct_hit w entry exe_index process automaton
      | none ↦ cwd_tier w b process path (is_refused found)
    ]

abbrev pub with_leading_slash : Bytes → Bytes
with_leading_slash [] = b'/' ∷ []
with_leading_slash (c ∷ path) = if eqn c b'/' then c ∷ path else b'/' ∷ (c ∷ path)

abbrev pub path_of : Exec → Bytes
path_of process = with_leading_slash (map slashed (codes process.path))

unfoldable pub basename_of : Bytes → Bytes
unfolding components
basename_of path = map lower (first_component (components path) path)

-- The flag that an OBS process runs, and the hit.
unfoldable pub match_process : Readings → DetectablesBundle → Exec → Bool → Bool × Option ScannedHit
unfolding basename_of is_excluded is_steam_sidecar classify
match_process w b process obs_open =
    let path = path_of process in
    if is_excluded w.exclusions (basename_of path) || is_steam_sidecar (basename_of path)
    then (obs_open, none)
    else (
      obs_open || contains_text path (codes "obs64") || contains_text path (codes "streamlabs"),
      classify w b process path,
    )
