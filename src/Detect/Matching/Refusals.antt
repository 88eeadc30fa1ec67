-- ===== src/Detect/Matching/Refusals.antt =====
-- A refusal silences the tiers that guess from names and places.
use mathlib.Core.Path.{subst}
use discord_rich_presence.Prelude.{
  ℕ, ◌≡◌, refl, sym, ◌∙◌, inl, inr, Bool, true, false, map, none, Option-cases, is_some_and, Bytes,
  lower,
}
use discord_rich_presence.Bridge.Handoff.{
  DetectSource, automaton, cwd_joined, proton_automaton, steam_app_id, steam_library, exe_stem,
  folder,
}
use discord_rich_presence.Detect.Types.{ScannedEntry, ScannedHit, Exec}
use discord_rich_presence.Detect.Bundle.{DetectablesBundle}
use discord_rich_presence.Detect.Hits.{Readings, finish_direct_hit}
use discord_rich_presence.Detect.Hits.Each.{Each, Each-or_else, finish_direct_hit-Each}
use discord_rich_presence.Detect.Probes.{
  MatchOutcome, corroborated, refused, is_refused, probe_variants,
}
use discord_rich_presence.Detect.Lookups.{match_steam_id}
use discord_rich_presence.Detect.Lookups.Each.{match_steam_id-Each}
use discord_rich_presence.Detect.AppIds.{is_shortcut_id}
use discord_rich_presence.Detect.Matching.{
  proton_tier, shortcut_tier, id_of_process, after_automata, joined_path, cwd_tier, classify,
}
use discord_rich_presence.Detect.Matching.Evidence.{outcome-Each}

-- The sources that go by the name or the place of a process alone.
abbrev pub guesses : DetectSource → Bool
guesses steam_library = true
guesses exe_stem = true
guesses folder = true
guesses automaton = false
guesses cwd_joined = false
guesses proton_automaton = false
guesses steam_app_id = false

abbrev pub IsNamed : ScannedHit → Type 0
IsNamed hit = guesses hit.source ≡ false

module _ (w : Readings) (b : DetectablesBundle) (process : Exec) (path : Bytes) where
  proton_tier_refused :
      (candidate : Bytes) (non_steam : Bool)
      → Each IsNamed (proton_tier w b process (map lower path) candidate non_steam true)
  unfolding proton_tier
  proton_tier_refused candidate non_steam =
      outcome-Each w b process path IsNamed (probe_variants b true candidate)
        (λ entry exe_index. finish_direct_hit w entry exe_index process proton_automaton) none
        (λ entry exe_index found.
          finish_direct_hit-Each IsNamed w entry exe_index process proton_automaton
            (λ exe there fits live. refl))
        tt

  after_automata_refused :
      (candidate : Bytes) → Each IsNamed (after_automata w b process path candidate true)
  unfolding after_automata shortcut_tier
  after_automata_refused candidate =
      let app_id = id_of_process w process in
      let non_steam = is_some_and app_id is_shortcut_id in
      Each-or_else IsNamed (match_steam_id w b process.pid app_id (map lower path) steam_app_id)
        (shortcut_tier w b process (map lower path) candidate non_steam true)
        (match_steam_id-Each w b IsNamed process.pid app_id (map lower path) steam_app_id
          (λ id entry known sold names live. refl))
        (proton_tier_refused candidate non_steam)

  cwd_tier_refused : Each IsNamed (cwd_tier w b process path true)
  unfolding cwd_tier
  cwd_tier_refused = elim (Option-cases (joined_path w process.pid path)) [
    | inl not_bare ↦ rw (not_bare, Each) (after_automata_refused path)
    | inr (candidate, joined) ↦
        rw (joined, Each)
          (outcome-Each w b process path IsNamed (probe_variants b false candidate)
            (λ entry exe_index. finish_direct_hit w entry exe_index process cwd_joined)
            (after_automata w b process path candidate true)
            (λ entry exe_index found.
              finish_direct_hit-Each IsNamed w entry exe_index process cwd_joined
                (λ exe there fits live. refl))
            (after_automata_refused candidate))
  ]

  -- When a declared executable has been seen in the path and none names it, neither the library that
  -- the process lies in nor its name or folders make it a game.
  pub classify_refused :
      probe_variants b false path ≡ refused → Each IsNamed (classify w b process path)
  unfolding classify
  classify_refused seen =
      outcome-Each w b process path IsNamed (probe_variants b false path)
        (λ entry exe_index. finish_direct_hit w entry exe_index process automaton)
        (cwd_tier w b process path (is_refused (probe_variants b false path)))
        (λ entry exe_index found. absurd (refused_apart entry exe_index (sym seen ∙ found)))
        (subst (λ (o : MatchOutcome). Each IsNamed (cwd_tier w b process path (is_refused o)))
          (sym seen) cwd_tier_refused)
    where
      refused_apart :
          (entry : ScannedEntry) (exe_index : ℕ) → refused ≡ corroborated entry exe_index → ⊥
      refused_apart entry exe_index h = cc
