-- ===== src/Detect/Titles/Normal.antt =====
-- The normal forms that fill a buffer are those that build new texts.
use discord_rich_presence.Prelude.{
  ℕ, Bool, true, false, not, List, [], ◌∷◌, ◌++◌, map, select, ◌≡◌, refl, sym, ap, ◌∙◌, inl, inr,
  Bool-cases, Bytes, lower, is_whitespace, arith,
}
use mathlib.Core.List.{append_assoc, append-nil}
use discord_rich_presence.Detect.Paths.{is_empty}
use discord_rich_presence.Detect.Titles.{
  push_first, split_where, words, trim, join, blanked, is_break, push_words, normalize_name,
  normalize_lowered_into, normalize_name_into,
}

-- A test that sees through a change of characters splits the same.
pub split_where-map :
    (p q : ℕ → Bool) (f : ℕ → ℕ)
    → ((c : ℕ) → p (f c) ≡ q c)
    → ((c : ℕ) → q c ≡ false → f c ≡ c)
    → (s : Bytes) → split_where p (map f s) ≡ split_where q s
unfolding split_where
split_where-map p q f same kept [] = refl
split_where-map p q f same kept (c ∷ s) = elim (Bool-cases (q c)) [
  | inl b ↦ rw (same c, b) (ap (λ (l : List Bytes). [] ∷ l) (split_where-map p q f same kept s))
  | inr b ↦ rw (same c, b, kept c b) (ap (push_first c) (split_where-map p q f same kept s))
]

-- The words behind the first, each after a blank.
abbrev pub spaced : List Bytes → Bytes
spaced [] = []
spaced (w ∷ ws) = b' ' ∷ (w ++ spaced ws)

push_words_later : (out : Bytes) (ws : List Bytes) → push_words false out ws ≡ out ++ spaced ws
unfolding push_words
push_words_later out [] = sym (append-nil out)
push_words_later out (w ∷ ws) = push_words_later ((out ++ (b' ' ∷ [])) ++ w) ws ∙ simp append_assoc

pub join-spaced : (w : Bytes) (ws : List Bytes) → join (w ∷ ws) ≡ w ++ spaced ws
join-spaced w [] = sym (append-nil w)
join-spaced w (v ∷ ws) = ap (λ (l : Bytes). w ++ (b' ' ∷ l)) (join-spaced v ws)

pub push_words-join : (ws : List Bytes) → push_words true [] ws ≡ join ws
unfolding push_words
push_words-join [] = refl
push_words-join (w ∷ ws) = push_words_later w ws ∙ sym (join-spaced w ws)

is_whitespace-blanked : (c : ℕ) → is_whitespace (blanked c) ≡ is_break c
is_whitespace-blanked c = ground arith

blanked_kept : (c : ℕ) → is_break c ≡ false → blanked c ≡ c
blanked_kept c h = ground arith

-- Refilling the buffer with a name gives what building its normal form anew gives.
pub normalize_name_into-normalize_name :
    (name : Bytes) → normalize_name_into name ≡ normalize_name name
unfolding normalize_name_into normalize_lowered_into normalize_name
normalize_name_into-normalize_name name =
    push_words-join (words is_break (map lower (trim name)))
    ∙ ap (λ (l : List Bytes). join (select (λ w. not (is_empty w)) l))
        (sym (
          split_where-map is_whitespace is_break blanked is_whitespace-blanked blanked_kept
            (map lower (trim name))))
