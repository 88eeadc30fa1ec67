-- ===== src/Detect/Hits.antt =====
-- crates/rsrpc-detect/src/scan.rs: what a match still needs to be a hit. What the operating system
-- answers (the state of a process, its working directory, its application id) and the Steam libraries
-- are arguments.
pub mod Each
use discord_rich_presence.Prelude.{
  ℕ, zero, suc, ◌+◌, ◌-◌, ◌*◌, ◌/◌, ◌%◌, ◌^◌, take, Bool, true, false, not, ◌&&◌, ◌||◌, List, [],
  ◌∷◌, ◌++◌, map, Option, none, some, ◌>>=◌, map_some, is_some_and, is_none, unwrap_or, get_elem?,
  length, ltb, leb, eqn, drop, String, Bytes, codes, lower, is_whitespace, contains, ◌==◌, list_key,
  nat_key, string_key, if◌then◌else◌,
}
use discord_rich_presence.Bridge.Handoff.{
  DetectSource, automaton, cwd_joined, proton_automaton, steam_app_id, steam_library,
  exe_stem as by_stem, folder,
}
use discord_rich_presence.Detect.Types.{ScannedExe, ScannedEntry, ScannedHit, Exec}
use discord_rich_presence.Detect.Paths.{exe_names_path, is_empty}
use discord_rich_presence.Detect.Index.{IndexEntry, get_index}
use discord_rich_presence.Detect.Titles.{
  exe_stem, name_matchable, components, first_component, skip_first, normalize_lowered_into,
  normalize_lowered_dedotted_into, words,
}
use discord_rich_presence.Detect.Variants.{
  starts_with, contains_text, find, path_variants_into, bare_exe,
}
use discord_rich_presence.Detect.Bundle.{
  DetectablesBundle, Automaton, PatternIndex, reversed, slashed,
}

-- The executables that stay invisible; the patterns are compiled by a library.
pub record Exclusions : Type 0 where
  pub executables : List Bytes
  pub no_patterns : Bool
  pub is_match : Bytes → Bool

abbrev pub no_text : List Bytes → Bool
no_text [] = true
no_text (text ∷ l) = false

unfoldable pub is_excluded : Exclusions → Bytes → Bool
is_excluded e basename =
    if no_text e.executables && e.no_patterns
    then false
    else contains e.executables basename || e.is_match basename

-- What a scan reads besides the process itself.
pub record Readings : Type 0 where
  -- `/proc/<pid>/stat`, and where `/proc/<pid>/cwd` leads, if they can be read.
  pub stat : ℕ → Option Bytes
  pub cwd : ℕ → Option Bytes
  -- The application id in the environment of the process.
  pub app_id : ℕ → Option Bytes
  -- The Steam library that a path lies in.
  pub match_prefix : Bytes → Option Bytes
  pub exclusions : Exclusions
  pub now : ℕ

-- What stands behind the last `)`.
abbrev pub behind_paren : Bytes → Option Bytes
behind_paren [] = none
behind_paren (c ∷ s) = elim (behind_paren s) [
  | some rest ↦ some rest
  | none ↦ if eqn c b')' then some s else none
]

abbrev pub first_of {ℓ} : {A : Type ℓ} → List A → Option A
first_of [] = none
first_of (a ∷ l) = some a

unfoldable pub parse_stat_state : Bytes → Option ℕ
parse_stat_state stat = do
  rest ← behind_paren stat
  state ← first_of (words is_whitespace rest)
  first_of state

unfoldable pub is_suspended : Readings → ℕ → Bool
unfolding parse_stat_state
is_suspended w pid =
    is_some_and (w.stat pid >>= parse_stat_state) (λ state. eqn state b'T' || eqn state b't')

abbrev pub stamp : Readings → ScannedEntry → ℕ → DetectSource → ScannedHit
stamp w entry pid source = record { entry = entry; pid = pid; start = w.now; source = source }

unfoldable pub live_or_none : Readings → ScannedEntry → ℕ → DetectSource → Option ScannedHit
unfolding is_suspended
live_or_none w entry pid source =
    if is_suspended w pid then none else some (stamp w entry pid source)

abbrev pub has_arguments : Option String → String → Bool
has_arguments none wanted = false
has_arguments (some args) wanted = contains_text (codes args) (codes wanted)

-- Arguments that the database declares must stand on the command line.
abbrev pub arguments_fit : ScannedExe → Exec → Bool
arguments_fit exe process = elim exe.arguments [
  | none ↦ true
  | some wanted ↦ has_arguments process.arguments wanted
]

unfoldable pub finish_direct_hit :
    Readings → ScannedEntry → ℕ → Exec → DetectSource → Option ScannedHit
unfolding live_or_none
finish_direct_hit w entry exe_index process source = do
  executable ← get_elem? entry.executables exe_index
  if arguments_fit executable process then live_or_none w entry process.pid source else none

-- An executable that is no launcher and names the path.
abbrev pub names_one : Bytes → List ScannedExe → Bool
names_one path [] = false
names_one path (exe ∷ exes) =
    not exe.is_launcher && exe_names_path path (codes exe.name) || names_one path exes

unfoldable pub argv_names_an_executable : Bytes → ScannedEntry → Bool
argv_names_an_executable path entry = elim entry.executables [
  | [] ↦ true
  | exe ∷ exes ↦ names_one path (exe ∷ exes)
]
