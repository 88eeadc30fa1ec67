-- ===== src/Detect/Probes/Corroborates.antt =====
-- What a walk over the spellings of a path says: the hit that it ends with names a spelling, and a walk
-- without a hit has seen no match that does.
use mathlib.Core.Path.{subst}
use discord_rich_presence.Prelude.{
  ℕ, ◌≡◌, inl, inr, ◌⊎◌, Bool, true, false, ◌||◌, List, [], ◌∷◌, Option, none, some, get_elem?, All,
  Option-cases, Bool-cases, Bytes, is_none, both_branches,
}
use discord_rich_presence.Detect.Types.{ScannedEntry}
use discord_rich_presence.Detect.Bundle.{DetectablesBundle, PatternIndex, reversed}
use discord_rich_presence.Detect.Variants.{path_variants_into}
use discord_rich_presence.Detect.Variants.Distinct.{IsVariant, path_variants_into-IsFilled}
use discord_rich_presence.Detect.Probes.{
  MatchOutcome, corroborated, refused, no_match, take_hit, is_refused, without_hit, names_it,
  first_hit, resolved, main_probe, custom_probe, proton_probe, probe_pass, passes, probes_of,
  probe_variants, optional,
}

abbrev pub Probe : Type 0
Probe = Bytes → List (ScannedEntry × ℕ)

abbrev Unnamed : Bytes → List (ScannedEntry × ℕ) → Type 0
Unnamed variant = All (λ p. names_it variant p.0 p.1 ≡ false)

-- What the outcome of one walk says of the matches.
abbrev Says : Bytes → List (ScannedEntry × ℕ) → (ScannedEntry × ℕ → Type 0) → MatchOutcome → Type 0
Says variant probe P (corroborated entry exe_index) =
    (names_it variant entry exe_index ≡ true) × P (entry, exe_index)
Says variant probe P refused = Unnamed variant probe
Says variant probe P no_match = Unnamed variant probe

without_hit-Says :
    (variant : Bytes) (probe : List (ScannedEntry × ℕ)) (P : ScannedEntry × ℕ → Type 0)
    (flag : Bool)
    → Unnamed variant probe
    → Says variant probe P (without_hit flag)
without_hit-Says variant probe P true u = u
without_hit-Says variant probe P false u = u

Says-later :
    (variant : Bytes) (m : ScannedEntry × ℕ) (probe : List (ScannedEntry × ℕ))
    (P : ScannedEntry × ℕ → Type 0) (o : MatchOutcome)
    → names_it variant m.0 m.1 ≡ false
    → Says variant probe P o
    → Says variant (m ∷ probe) P o
Says-later variant m probe P (corroborated entry exe_index) h s = s
Says-later variant m probe P refused h s = (h, s)
Says-later variant m probe P no_match h s = (h, s)

first_hit-Says :
    (variant : Bytes) (P : ScannedEntry × ℕ → Type 0) (flag : Bool)
    (probe : List (ScannedEntry × ℕ))
    → All P probe
    → Says variant probe P (first_hit flag probe variant)
unfolding first_hit
first_hit-Says variant P flag [] all = without_hit-Says variant [] P flag tt
first_hit-Says variant P flag ((entry, exe_index) ∷ probe) (p, all) =
    elim (Bool-cases (names_it variant entry exe_index)) [
      | inl names ↦ rw names (names, p)
      | inr on ↦ rw on (
          Says-later variant (entry, exe_index) probe P (first_hit true probe variant) on
            (first_hit-Says variant P true probe all))
    ]

-- What one automaton's walk over the spellings says.
abbrev Walked :
    Probe
    → List Bytes
    → (Bytes → Type 0)
    → (ScannedEntry × ℕ → Type 0)
    → Option (ScannedEntry × ℕ)
    → Type 0
Walked probe variants V P none =
    All (λ variant. Unnamed variant (probe (reversed variant))) variants
Walked probe variants V P (some hit) =
    (variant : Bytes) × V variant × (names_it variant hit.0 hit.1 ≡ true) × P hit

module _ (probe : Probe) (V : Bytes → Type 0) (P : ScannedEntry × ℕ → Type 0)
    (held : (path : Bytes) → All P (probe path)) where
  Walked-later :
      (variant : Bytes) (variants : List Bytes) (r : Option (ScannedEntry × ℕ))
      → Unnamed variant (probe (reversed variant))
      → Walked probe variants V P r
      → Walked probe (variant ∷ variants) V P r
  Walked-later variant variants none u walked = (u, walked)
  Walked-later variant variants (some hit) u walked = walked

  walk_on :
      (variant : Bytes) (variants : List Bytes) (flag : Bool) (o : MatchOutcome)
      → V variant
      → Says variant (probe (reversed variant)) P o
      → ((f : Bool) → Walked probe variants V P (probe_pass probe variants f).1)
      → Walked probe
          (variant ∷ variants)
          V
          P
          (elim (take_hit o) as (λ h. Bool × Option (ScannedEntry × ℕ)) [
            | some hit ↦ (flag || is_refused o, some hit)
            | none ↦ probe_pass probe variants (flag || is_refused o)
          ]).1
  walk_on variant variants flag (corroborated entry exe_index) v (names, p) further =
      (variant, v, names, p)
  walk_on variant variants flag refused v u further =
      Walked-later variant variants (probe_pass probe variants (flag || true)).1 u
        (further (flag || true))
  walk_on variant variants flag no_match v u further =
      Walked-later variant variants (probe_pass probe variants (flag || false)).1 u
        (further (flag || false))

  probe_pass-Walked :
      (variants : List Bytes) (flag : Bool)
      → All V variants
      → Walked probe variants V P (probe_pass probe variants flag).1
  unfolding probe_pass
  probe_pass-Walked [] flag all = tt
  probe_pass-Walked (variant ∷ variants) flag (v, all) =
      walk_on variant variants flag (first_hit false (probe (reversed variant)) variant) v
        (first_hit-Says variant P false (probe (reversed variant)) (held (reversed variant)))
        (λ f. probe_pass-Walked variants f all)

-- What all automata together say: a hit names a spelling, and without one no match of any automaton
-- names any.
abbrev pub Ends :
    List Probe → List Bytes → (Bytes → Type 0) → (ScannedEntry × ℕ → Type 0) → MatchOutcome → Type 0
Ends probes variants V P (corroborated entry exe_index) =
    (variant : Bytes) × V variant × (names_it variant entry exe_index ≡ true) × P (entry, exe_index)
Ends probes variants V P refused =
    All (λ (probe : Probe). All (λ variant. Unnamed variant (probe (reversed variant))) variants)
      probes
Ends probes variants V P no_match =
    All (λ (probe : Probe). All (λ variant. Unnamed variant (probe (reversed variant))) variants)
      probes

module _ (variants : List Bytes) (V : Bytes → Type 0) (P : ScannedEntry × ℕ → Type 0)
    (all : All V variants) where
  without_hit-Ends : (flag : Bool) → Ends [] variants V P (without_hit flag)
  without_hit-Ends true = tt
  without_hit-Ends false = tt

  Ends-later :
      (probe : Probe) (probes : List Probe) (o : MatchOutcome)
      → All (λ variant. Unnamed variant (probe (reversed variant))) variants
      → Ends probes variants V P o
      → Ends (probe ∷ probes) variants V P o
  Ends-later probe probes (corroborated entry exe_index) u ends = ends
  Ends-later probe probes refused u ends = (u, ends)
  Ends-later probe probes no_match u ends = (u, ends)

  pass_on :
      (probe : Probe) (probes : List Probe) (hit : Option (ScannedEntry × ℕ))
      (further : MatchOutcome)
      → Walked probe variants V P hit
      → Ends probes variants V P further
      → Ends
          (probe ∷ probes)
          variants
          V
          P
          (elim hit [ some (entry, exe_index) ↦ corroborated entry exe_index | none ↦ further ])
  pass_on probe probes none further walked ends = Ends-later probe probes further walked ends
  pass_on probe probes (some (entry, exe_index)) further walked ends = walked

  passes-Ends :
      (probes : List Probe) (flag : Bool)
      → All (λ (probe : Probe). (path : Bytes) → All P (probe path)) probes
      → Ends probes variants V P (passes probes variants flag)
  unfolding passes
  passes-Ends [] flag held = without_hit-Ends flag
  passes-Ends (probe ∷ probes) flag (h, held) =
      pass_on probe probes (probe_pass probe variants flag).1
        (passes probes variants (probe_pass probe variants flag).0)
        (probe_pass-Walked probe V P h variants flag all)
        (passes-Ends probes (probe_pass probe variants flag).0 held)

-- An entry of the generation.
abbrev pub Held : DetectablesBundle → ScannedEntry × ℕ → Type 0
Held b hit =
    (index : ℕ) × ((get_elem? b.list index ≡ some hit.0) ⊎ (get_elem? b.custom index ≡ some hit.0))

resolved-All :
    (P : ScannedEntry × ℕ → Type 0) (indexes : List PatternIndex) (entries : List ScannedEntry)
    → ((index exe : ℕ) (entry : ScannedEntry)
        → get_elem? entries index ≡ some entry
        → P (entry, exe))
    → (found : List ℕ) → All P (resolved indexes entries found)
resolved-All P indexes entries p [] = tt
resolved-All P indexes entries p (pattern ∷ found) =
    elim (Option-cases (get_elem? indexes pattern)) [
      | inl none_there ↦ rw none_there (resolved-All P indexes entries p found)
      | inr ((index, exe), there) ↦ elim (Option-cases (get_elem? entries index)) [
        | inl gone ↦ rw (there, gone) (resolved-All P indexes entries p found)
        | inr (entry, held) ↦
            rw (there, held) (p index exe entry held, resolved-All P indexes entries p found)
      ]
    ]

module _ (b : DetectablesBundle) where
  in_list :
      (indexes : List PatternIndex) (found : List ℕ) → All (Held b) (resolved indexes b.list found)
  in_list indexes found =
      resolved-All (Held b) indexes b.list (λ index exe entry e. (index, inl e)) found

  in_custom : (found : List ℕ) → All (Held b) (resolved b.custom_indexes b.custom found)
  in_custom found =
      resolved-All (Held b) b.custom_indexes b.custom (λ index exe entry e. (index, inr e)) found

  probes_of-Held :
      (proton : Bool)
      → All (λ (probe : Probe). (path : Bytes) → All (Held b) (probe path)) (probes_of b proton)
  unfolding main_probe custom_probe proton_probe
  probes_of-Held true = (λ path. in_list b.proton_indexes (optional b.proton_ac path), tt)
  probes_of-Held false =
      both_branches (All (λ (probe : Probe). (path : Bytes) → All (Held b) (probe path)))
        (is_none b.custom_ac) (main_probe b ∷ []) (main_probe b ∷ custom_probe b ∷ [])
        (λ path. in_list b.indexes (b.ac path), tt)
        (λ path. in_list b.indexes (b.ac path), (λ path. in_custom (optional b.custom_ac path), tt))

  -- The walk over the spellings of a path ends with an executable of an entry of the generation that
  -- names one of them; without a hit, no match of any automaton that is asked names any of them.
  pub probe_variants-Ends :
      (proton : Bool) (path : Bytes)
      → Ends
          (probes_of b proton)
          (path_variants_into path)
          (IsVariant path)
          (Held b)
          (probe_variants b proton path)
  unfolding probe_variants
  probe_variants-Ends proton path =
      passes-Ends (path_variants_into path) (IsVariant path) (Held b)
        (path_variants_into-IsFilled path).variants (probes_of b proton) false
        (probes_of-Held proton)

  pub corroborated_names :
      (proton : Bool) (path : Bytes) (entry : ScannedEntry) (exe_index : ℕ)
      → probe_variants b proton path ≡ corroborated entry exe_index
      → (variant : Bytes) × IsVariant path variant
        × (names_it variant entry exe_index ≡ true)
        × Held b (entry, exe_index)
  corroborated_names proton path entry exe_index found =
      subst (Ends (probes_of b proton) (path_variants_into path) (IsVariant path) (Held b)) found
        (probe_variants-Ends proton path)
