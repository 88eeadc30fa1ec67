-- ===== src/Detect/Variants/Erased.antt =====
-- The loop that removes a marker erases its occurrences from left to right.
use mathlib.Core.Path.{subst}
use mathlib.Core.List.{append_assoc}
use discord_rich_presence.Prelude.{
  ℕ, zero, suc, ◌+◌, ◌-◌, ◌≤◌, ◌≡◌, refl, sym, ap, ◌∙◌, inl, inr, true, false, [], ◌∷◌, ◌++◌,
  length, take, drop, length-drop, Option, none, some, map_some, Option-cases, Bool-cases, Bytes,
  arith,
}
use discord_rich_presence.Detect.Variants.{starts_with, find, remove_rounds, remove_marker_into}

-- What is left of a text without the marker: where it stands, as many characters are skipped.
unfoldable pub erase : ℕ → Bytes → Bytes → Bytes
erase skip marker [] = []
erase (suc skip) marker (c ∷ s) = erase skip marker s
erase zero marker (c ∷ s) = elim (starts_with (c ∷ s) marker) [
  | true ↦ erase (length marker - 1) marker s
  | false ↦ c ∷ erase zero marker s
]

erase_skips : (n : ℕ) (marker s : Bytes) → erase n marker s ≡ erase 0 marker (drop n s)
unfolding erase
erase_skips zero marker s = refl
erase_skips (suc n) marker [] = refl
erase_skips (suc n) marker (c ∷ s) = erase_skips n marker s

module _ (m : ℕ) (marker' : Bytes) where
  abbrev marker : Bytes
  marker = m ∷ marker'

  -- What the first occurrence says of the erased text.
  abbrev Says : Bytes → Option ℕ → Type 0
  Says s none = erase 0 marker s ≡ s
  Says s (some at) = erase 0 marker s ≡ take at s ++ erase 0 marker (drop (at + length marker) s)

  Says-later :
      (c : ℕ) (s : Bytes) (o : Option ℕ)
      → starts_with (c ∷ s) marker ≡ false
      → Says s o
      → Says (c ∷ s) (map_some (λ at. suc at) o)
  unfolding erase
  Says-later c s none on h = rw (on, erase) (ap (λ (l : Bytes). c ∷ l) h)
  Says-later c s (some at) on h =
      rw (on, erase)
        (ap (λ (l : Bytes). c ∷ l) h
          ∙ ap (λ (k : ℕ). c ∷ (take at s ++ erase 0 marker (drop k (c ∷ s))))
              {x = suc (at + length marker)} (omega arith))

  Says-here : (c : ℕ) (s : Bytes) → starts_with (c ∷ s) marker ≡ true → Says (c ∷ s) (some 0)
  unfolding erase
  Says-here c s here =
      rw (here, erase)
        (erase_skips (length marker - 1) marker s
          ∙ ap (λ (k : ℕ). erase 0 marker (drop k (c ∷ s))) {x = suc (length marker - 1)}
              (omega arith))

  Says-nil : Says [] (find [] marker)
  unfolding find erase starts_with
  Says-nil = refl

  find-Says : (s : Bytes) → Says s (find s marker)
  unfolding find
  find-Says [] = Says-nil
  find-Says (c ∷ s) = elim (Bool-cases (starts_with (c ∷ s) marker)) [
    | inl here ↦ rw here (Says-here c s here)
    | inr on ↦ rw on (Says-later c s (find s marker) on (find-Says s))
  ]

  remove_rounds-erase :
      (fuel : ℕ) (rest buf : Bytes)
      → length rest ≤ fuel
      → remove_rounds fuel rest marker buf ≡ buf ++ erase 0 marker rest
  unfolding remove_rounds erase
  remove_rounds-erase zero [] buf h = refl
  remove_rounds-erase zero (c ∷ s) buf h = absurd (omega arith)
  remove_rounds-erase (suc fuel) rest buf h = elim (Option-cases (find rest marker)) [
    | inl none_left ↦
        rw (none_left, remove_rounds)
          (ap (λ (l : Bytes). buf ++ l) (sym (subst (Says rest) none_left (find-Says rest))))
    | inr (at, found) ↦
        rw (found, remove_rounds)
          (remove_rounds-erase fuel (drop (at + length marker) rest) (buf ++ take at rest)
              (omega (arith, length-drop (at + length marker) rest))
            ∙ append_assoc buf (take at rest) (erase 0 marker (drop (at + length marker) rest))
            ∙ ap (λ (l : Bytes). buf ++ l) (sym (subst (Says rest) found (find-Says rest))))
  ]

  -- Removing a marker that is not empty ends with the text that erasing its occurrences from left to
  -- right leaves.
  pub remove_marker_into-erase :
      (path : Bytes) → remove_marker_into path marker ≡ erase 0 marker path
  unfolding remove_marker_into
  remove_marker_into-erase path = remove_rounds-erase (length path) path [] (omega arith)
