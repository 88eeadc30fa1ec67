-- ===== src/Detect/Probes.antt =====
-- crates/rsrpc-detect/src/scan.rs: the walks of the automata over the spellings of a path.
pub mod Corroborates
use discord_rich_presence.Prelude.{
  ℕ, zero, suc, ◌+◌, ◌-◌, ◌*◌, ◌/◌, ◌%◌, ◌^◌, take, Bool, true, false, not, ◌&&◌, ◌||◌, List, [],
  ◌∷◌, ◌++◌, map, Option, none, some, ◌>>=◌, map_some, is_some_and, is_none, unwrap_or, get_elem?,
  length, ltb, leb, eqn, drop, String, Bytes, codes, lower, is_whitespace, contains, ◌==◌, list_key,
  nat_key, string_key, if◌then◌else◌,
}
use discord_rich_presence.Bridge.Handoff.{
  DetectSource, automaton, cwd_joined, proton_automaton, steam_app_id, steam_library,
  exe_stem as by_stem, folder,
}
use discord_rich_presence.Detect.Types.{ScannedExe, ScannedEntry, ScannedHit, Exec}
use discord_rich_presence.Detect.Paths.{exe_names_path, is_empty}
use discord_rich_presence.Detect.Index.{IndexEntry, get_index}
use discord_rich_presence.Detect.Titles.{
  exe_stem, name_matchable, components, first_component, skip_first, normalize_lowered_into,
  normalize_lowered_dedotted_into, words,
}
use discord_rich_presence.Detect.Variants.{
  starts_with, contains_text, find, path_variants_into, bare_exe,
}
use discord_rich_presence.Detect.Bundle.{
  DetectablesBundle, Automaton, PatternIndex, reversed, slashed,
}
use discord_rich_presence.Detect.Hits.{Readings}

pub data MatchOutcome : Type 0 where
  corroborated : ScannedEntry → ℕ → MatchOutcome
  refused : MatchOutcome
  no_match : MatchOutcome

abbrev pub take_hit : MatchOutcome → Option (ScannedEntry × ℕ)
take_hit (corroborated entry exe_index) = some (entry, exe_index)
take_hit refused = none
take_hit no_match = none

abbrev pub is_refused : MatchOutcome → Bool
is_refused (corroborated entry exe_index) = false
is_refused refused = true
is_refused no_match = false

abbrev pub without_hit : Bool → MatchOutcome
without_hit any_match = if any_match then refused else no_match

-- Whether the executable of a match names the text that was probed.
unfoldable pub names_it : Bytes → ScannedEntry → ℕ → Bool
names_it variant entry exe_index =
    is_some_and (get_elem? entry.executables exe_index)
      (λ exe. exe_names_path variant (codes exe.name))

unfoldable pub first_hit : Bool → List (ScannedEntry × ℕ) → Bytes → MatchOutcome
unfolding names_it
first_hit any_match [] variant = without_hit any_match
first_hit any_match ((entry, exe_index) ∷ probe) variant =
    if names_it variant entry exe_index
    then corroborated entry exe_index
    else first_hit true probe variant

abbrev pub first_hit_naming_path : List (ScannedEntry × ℕ) → Bytes → MatchOutcome
first_hit_naming_path = first_hit false

-- What a number of the automaton stands for, if both tables hold it.
abbrev pub resolve : List PatternIndex → List ScannedEntry → ℕ → Option (ScannedEntry × ℕ)
resolve indexes entries pattern = do
  pair ← get_elem? indexes pattern
  entry ← get_elem? entries pair.0
  some (entry, pair.1)

abbrev pub cons_some {ℓ} : {A : Type ℓ} → Option A → List A → List A
cons_some none l = l
cons_some (some a) l = a ∷ l

-- `filter_map` of the matches.
abbrev pub resolved : List PatternIndex → List ScannedEntry → List ℕ → List (ScannedEntry × ℕ)
resolved indexes entries [] = []
resolved indexes entries (pattern ∷ found) =
    cons_some (resolve indexes entries pattern) (resolved indexes entries found)

abbrev pub optional : Option Automaton → Automaton
optional none reversed_path = []
optional (some ac) reversed_path = ac reversed_path

unfoldable pub main_probe : DetectablesBundle → Bytes → List (ScannedEntry × ℕ)
main_probe b reversed_path = resolved b.indexes b.list (b.ac reversed_path)

unfoldable pub custom_probe : DetectablesBundle → Bytes → List (ScannedEntry × ℕ)
custom_probe b reversed_path =
    resolved b.custom_indexes b.custom (optional b.custom_ac reversed_path)

unfoldable pub proton_probe : DetectablesBundle → Bytes → List (ScannedEntry × ℕ)
proton_probe b reversed_path = resolved b.proton_indexes b.list (optional b.proton_ac reversed_path)

-- One automaton over all variants: the flag, and the hit that ends the walk.
unfoldable pub probe_pass :
    (Bytes → List (ScannedEntry × ℕ)) → List Bytes → Bool → Bool × Option (ScannedEntry × ℕ)
unfolding first_hit
probe_pass probe [] flag = (flag, none)
probe_pass probe (variant ∷ variants) flag =
    let outcome = first_hit_naming_path (probe (reversed variant)) variant in
    elim (take_hit outcome) [
      | some hit ↦ (flag || is_refused outcome, some hit)
      | none ↦ probe_pass probe variants (flag || is_refused outcome)
    ]

unfoldable pub passes : List (Bytes → List (ScannedEntry × ℕ)) → List Bytes → Bool → MatchOutcome
unfolding probe_pass
passes [] variants flag = without_hit flag
passes (probe ∷ probes) variants flag =
    let (flag', hit) = probe_pass probe variants flag in
    let further = passes probes variants flag' in
    elim hit [ some (entry, exe_index) ↦ corroborated entry exe_index | none ↦ further ]

abbrev pub probes_of : DetectablesBundle → Bool → List (Bytes → List (ScannedEntry × ℕ))
probes_of b proton =
    if proton
    then proton_probe b ∷ []
    else if is_none b.custom_ac
    then main_probe b ∷ []
    else main_probe b ∷ custom_probe b ∷ []

unfoldable pub probe_variants : DetectablesBundle → Bool → Bytes → MatchOutcome
unfolding passes path_variants_into main_probe custom_probe proton_probe
probe_variants b proton path = passes (probes_of b proton) (path_variants_into path) false
