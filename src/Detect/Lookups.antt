-- ===== src/Detect/Lookups.antt =====
-- crates/rsrpc-detect/src/scan.rs: the lookups by store id and by name.
pub mod Each
pub mod Named
use discord_rich_presence.Prelude.{
  ℕ, zero, suc, ◌+◌, ◌-◌, ◌*◌, ◌/◌, ◌%◌, ◌^◌, take, Bool, true, false, not, ◌&&◌, ◌||◌, List, [],
  ◌∷◌, ◌++◌, map, Option, none, some, ◌>>=◌, map_some, is_some_and, is_none, unwrap_or, get_elem?,
  length, ltb, leb, eqn, drop, String, Bytes, codes, lower, is_whitespace, contains, ◌==◌, list_key,
  nat_key, string_key, if◌then◌else◌,
}
use discord_rich_presence.Bridge.Handoff.{
  DetectSource, automaton, cwd_joined, proton_automaton, steam_app_id, steam_library,
  exe_stem as by_stem, folder,
}
use discord_rich_presence.Detect.Types.{ScannedExe, ScannedEntry, ScannedHit, Exec}
use discord_rich_presence.Detect.Paths.{exe_names_path, is_empty}
use discord_rich_presence.Detect.Index.{IndexEntry, get_index}
use discord_rich_presence.Detect.Titles.{
  exe_stem, name_matchable, components, first_component, skip_first, normalize_lowered_into,
  normalize_lowered_dedotted_into, words,
}
use discord_rich_presence.Detect.Variants.{
  starts_with, contains_text, find, path_variants_into, bare_exe,
}
use discord_rich_presence.Detect.Bundle.{
  DetectablesBundle, Automaton, PatternIndex, reversed, slashed,
}
use discord_rich_presence.Detect.Hits.{
  Readings, live_or_none, finish_direct_hit, argv_names_an_executable,
}

-- A custom entry with the store id that the process can be.
unfoldable pub match_custom :
    Readings → ℕ → Bytes → Bytes → DetectSource → List ScannedEntry → Option ScannedHit
unfolding argv_names_an_executable live_or_none
match_custom w pid app_id path source [] = none
match_custom w pid app_id path source (entry ∷ custom) =
    if contains (map codes entry.steam_ids) app_id && argv_names_an_executable path entry
    then live_or_none w entry pid source
    else match_custom w pid app_id path source custom

-- What the index answers: the entry that it points at, or else a custom one.
unfoldable pub match_indexed :
    Readings → DetectablesBundle → ℕ → Bytes → Bytes → DetectSource → Option ℕ → Option ScannedHit
unfolding match_custom
match_indexed w b pid id path source none = match_custom w pid id path source b.custom
match_indexed w b pid id path source (some index) = do
  entry ← get_elem? b.list index
  if argv_names_an_executable path entry then live_or_none w entry pid source else none

unfoldable pub match_steam_id :
    Readings → DetectablesBundle → ℕ → Option Bytes → Bytes → DetectSource → Option ScannedHit
unfolding match_indexed
match_steam_id w b pid app_id path source =
    app_id >>= (λ id. match_indexed w b pid id path source (get_index b.steam_map id))

-- The entry of a matchable name.
unfoldable pub named_entry : List IndexEntry → List ScannedEntry → Bytes → Option ScannedEntry
unfolding name_matchable get_index
named_entry names entries key =
    if name_matchable key then get_index names key >>= (λ index. get_elem? entries index) else none

-- A walk over the folders above the process, the nearest first.
unfoldable pub match_folder :
    (Bytes → Bool) → (Bytes → Option ScannedEntry) → List Bytes → Option ScannedEntry
match_folder skips look [] = none
match_folder skips look (component ∷ rest) =
    let further = match_folder skips look rest in
    if skips component
    then further
    else elim (look component) [ some entry ↦ some entry | none ↦ further ]

abbrev pub has_dot : Bytes → Bool
has_dot component = contains component b'.'

-- The folders that carry a dotted title come last.
unfoldable pub match_dotted_folder :
    Readings → DetectablesBundle → List Bytes → ℕ → Option ScannedHit
unfolding named_entry match_folder live_or_none
match_dotted_folder w b folders pid =
    match_folder (λ c. not (has_dot c))
      (λ c. named_entry b.name_map_nodot b.list (normalize_lowered_dedotted_into c)) folders
    >>= (λ entry. live_or_none w entry pid folder)

unfoldable pub match_any_folder : Readings → DetectablesBundle → List Bytes → ℕ → Option ScannedHit
unfolding named_entry match_folder live_or_none match_dotted_folder
match_any_folder w b folders pid =
    elim (match_folder has_dot (λ c. named_entry b.name_map b.list (normalize_lowered_into c))
      folders) [
        | some entry ↦ live_or_none w entry pid folder
        | none ↦ match_dotted_folder w b folders pid
      ]

unfoldable pub match_name_or_folder : Readings → DetectablesBundle → Bytes → ℕ → Option ScannedHit
unfolding named_entry exe_stem components live_or_none match_any_folder
match_name_or_folder w b path pid = elim (named_entry b.name_map b.list (exe_stem path)) [
  | some entry ↦ live_or_none w entry pid by_stem
  | none ↦ match_any_folder w b (skip_first (components path)) pid
]
