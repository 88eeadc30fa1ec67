-- ===== src/Detect/Titles/Trimmed.antt =====
-- White space at the ends of a name makes no words.
use discord_rich_presence.Prelude.{
  ℕ, Bool, true, not, ◌&&◌, List, [], ◌∷◌, map, select, ◌≡◌, refl, sym, ap, ◌∙◌, inl, inr,
  Bool-cases, Bytes, is_whitespace, arith,
}
use discord_rich_presence.Detect.Paths.{is_empty}
use discord_rich_presence.Detect.Titles.{
  split_where, words, trim, trim_start, trim_end, first_component, skip_first,
}

abbrev pub non_empty : List Bytes → List Bytes
non_empty l = select (λ w. not (is_empty w)) l

-- The same first piece, and the same words behind it.
abbrev Alike : List Bytes → List Bytes → Type 0
Alike l m =
    (first_component l [] ≡ first_component m [])
    × (non_empty (skip_first l) ≡ non_empty (skip_first m))

pub split_where-cons :
    (p : ℕ → Bool) (s : Bytes)
    → split_where p s ≡ first_component (split_where p s) [] ∷ skip_first (split_where p s)
unfolding split_where
split_where-cons p [] = refl
split_where-cons p (c ∷ s) = elim (Bool-cases (p c)) [
  | inl b ↦ rw b refl
  | inr b ↦ rw b (rw (split_where-cons p s) refl)
]

Alike-words :
    (p : ℕ → Bool) (s t : Bytes) → Alike (split_where p s) (split_where p t) → words p s ≡ words p t
Alike-words p s t (first, rest) =
    ap non_empty (split_where-cons p s)
    ∙ rw first (rw rest refl)
    ∙ ap non_empty (sym (split_where-cons p t))

Alike-cons :
    (p : ℕ → Bool) (c : ℕ) (s t : Bytes)
    → Alike (split_where p s) (split_where p t)
    → Alike (split_where p (c ∷ s)) (split_where p (c ∷ t))
unfolding split_where
Alike-cons p c s t (first, rest) = elim (Bool-cases (p c)) [
  | inl b ↦ rw b (refl, Alike-words p s t (first, rest))
  | inr b ↦
      rw b (rw (split_where-cons p s, split_where-cons p t) (ap (λ (w : Bytes). c ∷ w) first, rest))
]

empty_is : (s : Bytes) → is_empty s ≡ true → s ≡ []
empty_is [] h = refl
empty_is (c ∷ s) h = absurd (cc)

module _ (p : ℕ → Bool) (f : ℕ → ℕ)
    (breaks : (c : ℕ) → is_whitespace c ≡ true → p (f c) ≡ true) where
  -- White space that nothing follows is trimmed, and ends the last piece.
  trimmed-Alike :
      (d : ℕ) (t : Bytes)
      → (is_whitespace d && is_empty (trim_end t)) ≡ true
      → Alike (split_where p (map f (trim_end t))) (split_where p (map f t))
      → Alike (split_where p []) (split_where p (f d ∷ map f t))
  unfolding split_where
  trimmed-Alike d t h alike = rw (breaks d (ground arith)) (
    refl,
    ap (λ (u : Bytes). words p (map f u)) (sym (empty_is (trim_end t) (ground arith)))
        ∙ Alike-words p (map f (trim_end t)) (map f t) alike,
  )

  trim_end-Alike :
      (s : Bytes) → Alike (split_where p (map f (trim_end s))) (split_where p (map f s))
  trim_end-Alike [] = (refl, refl)
  trim_end-Alike (c ∷ s) = elim (Bool-cases (is_whitespace c && is_empty (trim_end s))) [
    | inr on ↦ rw on (Alike-cons p (f c) (map f (trim_end s)) (map f s) (trim_end-Alike s))
    | inl ends ↦ rw ends (trimmed-Alike c s ends (trim_end-Alike s))
  ]

  words-trim_start : (s : Bytes) → words p (map f (trim_start s)) ≡ words p (map f s)
  unfolding split_where
  words-trim_start [] = refl
  words-trim_start (c ∷ s) = elim (Bool-cases (is_whitespace c)) [
    | inr on ↦ rw on refl
    | inl w ↦ rw (w, breaks c w) (words-trim_start s)
  ]

  pub words-trim : (s : Bytes) → words p (map f (trim s)) ≡ words p (map f s)
  words-trim s =
      Alike-words p (map f (trim s)) (map f (trim_start s)) (trim_end-Alike (trim_start s))
      ∙ words-trim_start s
