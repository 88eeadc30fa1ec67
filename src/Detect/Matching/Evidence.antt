-- ===== src/Detect/Matching/Evidence.antt =====
-- What a hit of match_process stands on.
use discord_rich_presence.Prelude.{
  ℕ, ◌≡◌, refl, ◌∙◌, inl, inr, ◌⊎◌, Bool, true, false, not, ◌&&◌, ◌||◌, map, Option, none, some,
  ◌>>=◌, get_elem?, Option-cases, Bool-cases, is_some_and, if◌then◌else◌, Bytes, codes, lower,
  both_branches,
}
use discord_rich_presence.Bridge.Handoff.{
  DetectSource, automaton, cwd_joined, proton_automaton, steam_app_id, steam_library,
  exe_stem as by_stem, folder,
}
use discord_rich_presence.Detect.Types.{ScannedExe, ScannedEntry, ScannedHit, Exec}
use discord_rich_presence.Detect.Paths.{exe_names_path}
use discord_rich_presence.Detect.Bundle.{DetectablesBundle}
use discord_rich_presence.Detect.Titles.{exe_stem}
use discord_rich_presence.Detect.Variants.Distinct.{IsVariant}
use discord_rich_presence.Detect.Hits.{
  Readings, is_suspended, arguments_fit, argv_names_an_executable, finish_direct_hit, is_excluded,
}
use discord_rich_presence.Detect.Hits.Each.{Each, Each-and, Each-or_else, finish_direct_hit-Each}
use discord_rich_presence.Detect.Probes.{
  MatchOutcome, corroborated, refused, no_match, take_hit, is_refused, names_it, probe_variants,
}
use discord_rich_presence.Detect.Probes.Corroborates.{Held, corroborated_names}
use discord_rich_presence.Detect.Lookups.{named_entry, match_steam_id, match_name_or_folder}
use discord_rich_presence.Detect.Lookups.Each.{
  IdOf, InFolder, match_steam_id-Each, match_name_or_folder-Each,
}
use discord_rich_presence.Detect.AppIds.{is_shortcut_id, is_steam_sidecar}
use discord_rich_presence.Detect.Matching.{
  last_tiers, proton_tier, shortcut_tier, id_of_process, after_automata, joined_path, cwd_tier,
  classify, path_of, basename_of, match_process,
}

-- A hit of an automaton names a spelling of the path, and the arguments that it declares are there.
abbrev pub Direct : DetectablesBundle → Exec → Bytes → ScannedEntry → Type 0
Direct b process path entry =
    (variant : Bytes) × IsVariant path variant
    × ((exe_index : ℕ) × (exe : ScannedExe) × (get_elem? entry.executables exe_index ≡ some exe)
        × (exe_names_path variant (codes exe.name) ≡ true)
        × (arguments_fit exe process ≡ true)
        × Held b (entry, exe_index))

-- A store id stands for the entry, which declares no executables or one that names the path.
abbrev pub Stored : DetectablesBundle → Bytes → Bytes → ScannedEntry → Type 0
Stored b id lowered entry = IdOf b id entry × (argv_names_an_executable lowered entry ≡ true)

module _ (w : Readings) (b : DetectablesBundle) (process : Exec) (path : Bytes) where
  -- The path, or the working directory with the bare name behind it.
  abbrev pub IsProbed : Bytes → Type 0
  IsProbed candidate = (candidate ≡ path) ⊎ (joined_path w process.pid path ≡ some candidate)

  abbrev pub BySource : DetectSource → ScannedEntry → Type 0
  BySource automaton entry = Direct b process path entry
  BySource cwd_joined entry =
      (candidate : Bytes) × (joined_path w process.pid path ≡ some candidate)
      × Direct b process candidate entry
  BySource proton_automaton entry =
      (candidate : Bytes) × IsProbed candidate × Direct b process candidate entry
  BySource steam_app_id entry =
      (id : Bytes) × (id_of_process w process ≡ some id) × Stored b id (map lower path) entry
  BySource steam_library entry =
      (id : Bytes) × (w.match_prefix (map lower path) ≡ some id)
      × Stored b id (map lower path) entry
  BySource by_stem entry = named_entry b.name_map b.list (exe_stem (map lower path)) ≡ some entry
  BySource folder entry = InFolder b (map lower path) entry

  abbrev pub Evidence : ScannedHit → Type 0
  Evidence hit =
      (hit.pid ≡ process.pid) × (is_suspended w process.pid ≡ false) × BySource hit.source hit.entry

  -- What the outcome of a walk leaves to be shown.
  pub outcome-Each :
      (P : ScannedHit → Type 0) (o : MatchOutcome) (finish : ScannedEntry → ℕ → Option ScannedHit)
      (further : Option ScannedHit)
      → ((entry : ScannedEntry) (exe_index : ℕ)
          → o ≡ corroborated entry exe_index
          → Each P (finish entry exe_index))
      → Each P further
      → Each P
          (elim (take_hit o) [ some (entry, exe_index) ↦ finish entry exe_index | none ↦ further ])
  outcome-Each P (corroborated entry exe_index) finish further f g = f entry exe_index refl
  outcome-Each P refused finish further f g = g
  outcome-Each P no_match finish further f g = g

  Direct-found :
      (proton : Bool) (candidate : Bytes) (entry : ScannedEntry) (exe_index : ℕ) (exe : ScannedExe)
      → probe_variants b proton candidate ≡ corroborated entry exe_index
      → get_elem? entry.executables exe_index ≡ some exe
      → arguments_fit exe process ≡ true
      → Direct b process candidate entry
  unfolding names_it
  Direct-found proton candidate entry exe_index exe found there fits =
      let (variant, spelled, names, held) =
        corroborated_names b proton candidate entry exe_index found in
      (variant, spelled, (exe_index, exe, there, rw there at names, fits, held))

  match_name_or_folder-Evidence :
      Each Evidence (match_name_or_folder w b (map lower path) process.pid)
  match_name_or_folder-Evidence =
      match_name_or_folder-Each w b Evidence (map lower path) process.pid
        (λ entry named live. (refl, live, named)) (λ entry named live. (refl, live, named))

  in_library : Each Evidence (
      w.match_prefix (map lower path)
      >>= (λ id. match_steam_id w b process.pid (some id) (map lower path) steam_library))
  in_library = elim (Option-cases (w.match_prefix (map lower path))) [
    | inl outside ↦ rw outside tt
    | inr (id, inside) ↦ rw inside (
        match_steam_id-Each w b Evidence process.pid (some id) (map lower path) steam_library
          (λ i entry same sold names live. (refl, live, (i, inside ∙ same, (sold, names)))))
  ]

  last_tiers-Evidence :
      (non_steam : Bool) → Each Evidence (last_tiers w b process.pid (map lower path) non_steam)
  unfolding last_tiers
  last_tiers-Evidence non_steam =
      Each-or_else Evidence
        (w.match_prefix (map lower path)
          >>= (λ id. match_steam_id w b process.pid (some id) (map lower path) steam_library))
        (if non_steam then none else match_name_or_folder w b (map lower path) process.pid)
        in_library
        (both_branches (Each Evidence) non_steam none
          (match_name_or_folder w b (map lower path) process.pid) tt match_name_or_folder-Evidence)

  -- The rest of the match, given what the walk on `candidate` was for.
  module _ (candidate : Bytes) (probed : IsProbed candidate) (non_steam was_refused : Bool) where
    proton_tier-Evidence :
        Each Evidence (proton_tier w b process (map lower path) candidate non_steam was_refused)
    unfolding proton_tier
    proton_tier-Evidence =
        outcome-Each Evidence (probe_variants b true candidate)
          (λ entry exe_index. finish_direct_hit w entry exe_index process proton_automaton)
          (if was_refused || is_refused (probe_variants b true candidate)
            then none
            else last_tiers w b process.pid (map lower path) non_steam)
          (λ entry exe_index found.
            finish_direct_hit-Each Evidence w entry exe_index process proton_automaton
              (λ exe there fits live. (
                refl,
                live,
                (
                  candidate,
                  probed,
                  Direct-found true candidate entry exe_index exe found there fits,
                ),
              )))
          (both_branches (Each Evidence)
            (was_refused || is_refused (probe_variants b true candidate)) none
            (last_tiers w b process.pid (map lower path) non_steam) tt
            (last_tiers-Evidence non_steam))

    shortcut_tier-Evidence :
        Each Evidence (shortcut_tier w b process (map lower path) candidate non_steam was_refused)
    unfolding shortcut_tier
    shortcut_tier-Evidence =
        Each-or_else Evidence
          (if not was_refused && non_steam
            then match_name_or_folder w b (map lower path) process.pid
            else none)
          (proton_tier w b process (map lower path) candidate non_steam was_refused)
          (both_branches (Each Evidence) (not was_refused && non_steam)
            (match_name_or_folder w b (map lower path) process.pid) none
            match_name_or_folder-Evidence tt)
          proton_tier-Evidence

  after_automata-Evidence :
      (candidate : Bytes) (was_refused : Bool)
      → IsProbed candidate
      → Each Evidence (after_automata w b process path candidate was_refused)
  unfolding after_automata
  after_automata-Evidence candidate was_refused probed =
      let app_id = id_of_process w process in
      let non_steam = is_some_and app_id is_shortcut_id in
      Each-or_else Evidence (match_steam_id w b process.pid app_id (map lower path) steam_app_id)
        (shortcut_tier w b process (map lower path) candidate non_steam was_refused)
        (match_steam_id-Each w b Evidence process.pid app_id (map lower path) steam_app_id
          (λ id entry known sold names live. (refl, live, (id, known, (sold, names)))))
        (shortcut_tier-Evidence candidate probed non_steam was_refused)

  cwd_tier-Evidence : (was_refused : Bool) → Each Evidence (cwd_tier w b process path was_refused)
  unfolding cwd_tier
  cwd_tier-Evidence was_refused = elim (Option-cases (joined_path w process.pid path)) [
    | inl not_bare ↦ rw (not_bare, Each) (after_automata-Evidence path was_refused (inl refl))
    | inr (candidate, joined) ↦
        rw (joined, Each)
          (outcome-Each Evidence (probe_variants b false candidate)
            (λ entry exe_index. finish_direct_hit w entry exe_index process cwd_joined)
            (after_automata w b process path candidate
              (was_refused || is_refused (probe_variants b false candidate)))
            (λ entry exe_index found.
              finish_direct_hit-Each Evidence w entry exe_index process cwd_joined
                (λ exe there fits live. (
                  refl,
                  live,
                  (
                    candidate,
                    joined,
                    Direct-found false candidate entry exe_index exe found there fits,
                  ),
                )))
            (after_automata-Evidence candidate
              (was_refused || is_refused (probe_variants b false candidate)) (inr joined)))
  ]

  -- Whatever tier a hit comes from, the process is not read as suspended, and the entry is what the
  -- tier's source says: an executable of it names a spelling of the path that was probed and its
  -- arguments are there, or the tables answer it for the store id and it declares no executable or one
  -- that names the path, or the tables answer it for the stem or for a folder of the path.
  pub classify-Evidence : Each Evidence (classify w b process path)
  unfolding classify
  classify-Evidence =
      outcome-Each Evidence (probe_variants b false path)
        (λ entry exe_index. finish_direct_hit w entry exe_index process automaton)
        (cwd_tier w b process path (is_refused (probe_variants b false path)))
        (λ entry exe_index found.
          finish_direct_hit-Each Evidence w entry exe_index process automaton
            (λ exe there fits live.
              (refl, live, Direct-found false path entry exe_index exe found there fits)))
        (cwd_tier-Evidence (is_refused (probe_variants b false path)))

neither : (a b : Bool) → (a || b) ≡ false → (a ≡ false) × (b ≡ false)
neither true b h = absurd (cc)
neither false b h = (refl, h)

-- A hit of a process stands on the evidence of its source, and neither the exclusions nor the list of
-- Steam's own helpers hold the name of the process.
pub match_process-Evidence :
    (w : Readings) (b : DetectablesBundle) (process : Exec) (obs_open : Bool)
    → Each
        (λ hit.
          (is_excluded w.exclusions (basename_of (path_of process)) ≡ false)
          × (is_steam_sidecar (basename_of (path_of process)) ≡ false)
          × Evidence w b process (path_of process) hit)
        (match_process w b process obs_open).1
unfolding match_process
match_process-Evidence w b process obs_open =
    elim (Bool-cases (
      is_excluded w.exclusions (basename_of (path_of process))
      || is_steam_sidecar (basename_of (path_of process)))) [
        | inl unseen ↦ rw unseen tt
        | inr seen ↦
            rw (seen, Each)
              (Each-and (is_excluded w.exclusions (basename_of (path_of process)) ≡ false)
                (is_steam_sidecar (basename_of (path_of process)) ≡ false)
                (Evidence w b process (path_of process)) (classify w b process (path_of process))
                (neither (is_excluded w.exclusions (basename_of (path_of process)))
                  (is_steam_sidecar (basename_of (path_of process))) seen).0
                (neither (is_excluded w.exclusions (basename_of (path_of process)))
                  (is_steam_sidecar (basename_of (path_of process))) seen).1
                (classify-Evidence w b process (path_of process)))
      ]
