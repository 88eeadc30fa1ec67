-- ===== src/Detect/Bundle/Tables.antt =====
-- The numbers of an automaton stand for the executables that its patterns come from.
use mathlib.Core.Path.{subst}
use discord_rich_presence.Prelude.{
  ℕ, zero, suc, ◌+◌, ◌≤◌, ◌≡◌, refl, sym, inl, inr, Bool, true, false, not, ◌||◌, List, [], ◌∷◌,
  ◌++◌, some, All, get_elem?, length, Bool-cases, Bytes, codes, ◌==◌, list_key, nat_key, arith,
}
use discord_rich_presence.Detect.Types.{ScannedExe, ScannedEntry}
use discord_rich_presence.Detect.Bundle.{
  PatternIndex, u32_max, saturated, pattern_index, Patterns, no_patterns, Eligible,
  normalize_exe_pattern, add_pattern, walk_executables, walk_entries,
}

-- The database is not too large for the halves of an index.
abbrev pub Fits : List ScannedEntry → Type 0
Fits entries =
    (length entries ≤ u32_max) × All (λ entry. length entry.executables ≤ u32_max) entries

saturated_same : (n : ℕ) → n ≤ u32_max → saturated n ≡ n
saturated_same n h = ground arith

-- A statement about one number is one about an equal number.
moved : (P : ℕ → Type 0) (m n : ℕ) → m ≡ n → P m → P n
moved P m n e h = subst P e h

taken : (a b c : Bool) → (a || not b || c) ≡ false → (a ≡ false) × (b ≡ true)
taken a b c h = ground arith

module _ (eligible : Eligible) (whole : List ScannedEntry) where
  -- The executable that a pattern comes from.
  abbrev pub StandsFor : Bytes → PatternIndex → Type 0
  StandsFor pattern index =
      (entry : ScannedEntry) × (exe : ScannedExe) × (get_elem? whole index.0 ≡ some entry)
      × (get_elem? entry.executables index.1 ≡ some exe)
      × (exe.is_launcher ≡ false)
      × (eligible exe ≡ true)
      × (normalize_exe_pattern (codes exe.name) ≡ pattern)

  abbrev pub Paired : List Bytes → List PatternIndex → Type 0
  Paired [] [] = Unit
  Paired (pattern ∷ patterns) (index ∷ indexes) = StandsFor pattern index × Paired patterns indexes
  Paired [] (index ∷ indexes) = ⊥
  Paired (pattern ∷ patterns) [] = ⊥

  abbrev IsPaired : Patterns → Type 0
  IsPaired p = Paired p.patterns p.indexes

  Paired-append :
      (patterns : List Bytes) (indexes : List PatternIndex) (pattern : Bytes) (index : PatternIndex)
      → Paired patterns indexes
      → StandsFor pattern index
      → Paired (patterns ++ (pattern ∷ [])) (indexes ++ (index ∷ []))
  Paired-append [] [] pattern index paired s = (s, tt)
  Paired-append (p ∷ patterns) (i ∷ indexes) pattern index (q, paired) s =
      (q, Paired-append patterns indexes pattern index paired s)
  Paired-append [] (i ∷ indexes) pattern index paired s = absurd paired
  Paired-append (p ∷ patterns) [] pattern index paired s = absurd paired

  Paired-get :
      (patterns : List Bytes) (indexes : List PatternIndex) (number : ℕ) (pattern : Bytes)
      → Paired patterns indexes
      → get_elem? patterns number ≡ some pattern
      → (index : PatternIndex) × (get_elem? indexes number ≡ some index) × StandsFor pattern index
  Paired-get [] indexes number pattern paired h = absurd (cc)
  Paired-get (p ∷ patterns) [] number pattern paired h = absurd paired
  Paired-get (p ∷ patterns) (i ∷ indexes) zero pattern (s, paired) h =
      (i, refl, subst (λ (t : Bytes). StandsFor t i) (ground arith) s)
  Paired-get (p ∷ patterns) (i ∷ indexes) (suc number) pattern (s, paired) h =
      Paired-get patterns indexes number pattern paired h

  module _ (activity : ℕ) (entry : ScannedEntry) (here : get_elem? whole activity ≡ some entry)
      (small : activity ≤ u32_max) where
    add_pattern-Paired :
        (exe_index : ℕ) (exe : ScannedExe) (p : Patterns)
        → get_elem? entry.executables exe_index ≡ some exe
        → exe_index ≤ u32_max
        → Paired p.patterns p.indexes
        → IsPaired (add_pattern eligible activity exe_index exe p)
    unfolding add_pattern pattern_index
    add_pattern-Paired exe_index exe p there few paired =
        let pattern = normalize_exe_pattern (codes exe.name) in
        elim (Bool-cases (exe.is_launcher || not (eligible exe) || pattern == (b'/' ∷ []))) [
          | inl dropped ↦ rw dropped paired
          | inr kept ↦
              let (game, fits) =
                taken exe.is_launcher (eligible exe) (pattern == (b'/' ∷ [])) kept in
              rw kept (
                Paired-append p.patterns p.indexes pattern (saturated activity, saturated exe_index)
                  paired
                  (
                    entry,
                    exe,
                    subst (λ (a : ℕ). get_elem? whole a ≡ some entry)
                        (sym (saturated_same activity small)) here,
                    subst (λ (i : ℕ). get_elem? entry.executables i ≡ some exe)
                        (sym (saturated_same exe_index few)) there,
                    game,
                    fits,
                    refl,
                  ))
        ]

    walk_executables-Paired :
        (exe_index : ℕ) (exes : List ScannedExe) (p : Patterns)
        → ((i : ℕ) (exe : ScannedExe)
            → get_elem? exes i ≡ some exe
            → get_elem? entry.executables (exe_index + i) ≡ some exe)
        → exe_index + length exes ≤ u32_max
        → IsPaired p
        → IsPaired (walk_executables eligible activity exe_index exes p)
    unfolding walk_executables
    walk_executables-Paired exe_index [] p rest few paired = paired
    walk_executables-Paired exe_index (exe ∷ exes) p rest few paired =
        walk_executables-Paired (exe_index + 1) exes (add_pattern eligible activity exe_index exe p)
          (λ i e there.
            moved (λ (n : ℕ). get_elem? entry.executables n ≡ some e) (exe_index + suc i)
              (exe_index + 1 + i) (omega arith) (rest (suc i) e there))
          (omega arith)
          (add_pattern-Paired exe_index exe p
            (moved (λ (n : ℕ). get_elem? entry.executables n ≡ some exe) (exe_index + 0) exe_index
              (omega arith) (rest 0 exe refl))
            (omega arith) paired)

  walk_entries-Paired :
      (activity : ℕ) (entries : List ScannedEntry) (p : Patterns)
      → ((i : ℕ) (entry : ScannedEntry)
          → get_elem? entries i ≡ some entry
          → get_elem? whole (activity + i) ≡ some entry)
      → activity + length entries ≤ u32_max
      → All (λ entry. length entry.executables ≤ u32_max) entries
      → IsPaired p
      → IsPaired (walk_entries eligible activity entries p)
  unfolding walk_entries
  walk_entries-Paired activity [] p rest few sizes paired = paired
  walk_entries-Paired activity (entry ∷ entries) p rest few (size, sizes) paired =
      walk_entries-Paired (activity + 1) entries
        (walk_executables eligible activity 0 entry.executables p)
        (λ i e there.
          moved (λ (n : ℕ). get_elem? whole n ≡ some e) (activity + suc i) (activity + 1 + i)
            (omega arith) (rest (suc i) e there))
        (omega arith) sizes
        (walk_executables-Paired activity entry
          (moved (λ (n : ℕ). get_elem? whole n ≡ some entry) (activity + 0) activity (omega arith)
            (rest 0 entry refl))
          (omega arith) 0 entry.executables p
          (λ i e there.
            moved (λ (n : ℕ). get_elem? entry.executables n ≡ some e) i (0 + i) (omega arith) there)
          (omega arith) paired)

  -- A number that an automaton can report stands for the executable that the pattern comes from: no
  -- launcher, and eligible for the table.
  pub walk_entries-StandsFor :
      (number : ℕ) (pattern : Bytes)
      → Fits whole
      → get_elem? (walk_entries eligible 0 whole no_patterns).patterns number ≡ some pattern
      → (index : PatternIndex) × (get_elem?
            (walk_entries eligible 0 whole no_patterns).indexes
            number
          ≡ some index)
        × StandsFor pattern index
  walk_entries-StandsFor number pattern (few, sizes) h =
      let p = walk_entries eligible 0 whole no_patterns in
      Paired-get p.patterns p.indexes number pattern
        (walk_entries-Paired 0 whole no_patterns
          (λ i e there. moved (λ (n : ℕ). get_elem? whole n ≡ some e) i (0 + i) (omega arith) there)
          (omega arith) sizes tt)
        h
