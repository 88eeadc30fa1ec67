-- ===== src/Detect/Titles/Folders.antt =====
-- A folder that is spelled as a title, in any case, has the key of the title.
use mathlib.Core.List.{append-nil}
use discord_rich_presence.Prelude.{
  ℕ, Bool, true, false, ◌||◌, List, [], ◌∷◌, ◌++◌, map, eqn, ◌≡◌, refl, sym, ap, ◌∙◌, inl, inr,
  Bool-cases, Bytes, lower, is_whitespace, arith,
}
use discord_rich_presence.Detect.Titles.{
  push_first, split_where, words, join, is_break, push_words, undotted, dedot, is_dotted_break,
  first_component, skip_first, normalize_name, normalize_lowered_into, normalize_name_into,
  normalize_lowered_dedotted_into,
}
use discord_rich_presence.Detect.Titles.Normal.{
  push_words-join, split_where-map, normalize_name_into-normalize_name,
}
use discord_rich_presence.Detect.Titles.Trimmed.{words-trim, split_where-cons, non_empty}

lower_breaks : (c : ℕ) → is_whitespace c ≡ true → is_break (lower c) ≡ true
lower_breaks c h = ground arith

-- The folder that carries a title, in whatever case and with spaces around, has the key that the
-- title has in the index of names.
pub normalize_lowered_into-normalize_name :
    (title : Bytes) → normalize_lowered_into (map lower title) ≡ normalize_name title
unfolding normalize_lowered_into normalize_name_into
normalize_lowered_into-normalize_name title =
    ap (push_words true []) (sym (words-trim is_break lower lower_breaks title))
    ∙ normalize_name_into-normalize_name title

push_first-append :
    (c : ℕ) (p : ℕ → Bool) (s : Bytes) (rest : List Bytes)
    → push_first c (split_where p s ++ rest) ≡ push_first c (split_where p s) ++ rest
push_first-append c p s rest = rw (split_where-cons p s) refl

split_where-append :
    (p : ℕ → Bool) (c : ℕ) (s t : Bytes)
    → p c ≡ true
    → split_where p (s ++ (c ∷ t)) ≡ split_where p s ++ split_where p t
unfolding split_where
split_where-append p c [] t h = rw h refl
split_where-append p c (d ∷ s) t h = elim (Bool-cases (p d)) [
  | inl b ↦ rw b (ap (λ (l : List Bytes). [] ∷ l) (split_where-append p c s t h))
  | inr b ↦
      rw b (
        ap (push_first d) (split_where-append p c s t h)
        ∙ push_first-append d p s (split_where p t))
]

non_empty-append : (l m : List Bytes) → non_empty (l ++ m) ≡ non_empty l ++ non_empty m
non_empty-append [] m = refl
non_empty-append ([] ∷ l) m = non_empty-append l m
non_empty-append ((c ∷ w) ∷ l) m = ap (λ (r : List Bytes). (c ∷ w) ∷ r) (non_empty-append l m)

-- All that `f` makes of the words, one word after the other.
abbrev flat : (Bytes → List Bytes) → List Bytes → List Bytes
flat f [] = []
flat f (w ∷ ws) = f w ++ flat f ws

words-join :
    (q : ℕ → Bool) (ws : List Bytes) → q b' ' ≡ true → words q (join ws) ≡ flat (words q) ws
unfolding split_where
words-join q [] h = refl
words-join q (w ∷ []) h = sym (append-nil (words q w))
words-join q (w ∷ v ∷ ws) h =
    ap non_empty (split_where-append q b' ' w (join (v ∷ ws)) h)
    ∙ non_empty-append (split_where q w) (split_where q (join (v ∷ ws)))
    ∙ ap (λ (l : List Bytes). words q w ++ l) (words-join q (v ∷ ws) h)

module _ (q : ℕ → Bool) (c : ℕ) (w : Bytes) (ws : List Bytes) where
  flat_break : q c ≡ true → flat (split_where q) ((c ∷ w) ∷ ws) ≡ [] ∷ flat (split_where q) (w ∷ ws)
  unfolding split_where
  flat_break k = rw k refl

  flat_letter :
      q c ≡ false
      → flat (split_where q) ((c ∷ w) ∷ ws) ≡ push_first c (flat (split_where q) (w ∷ ws))
  unfolding split_where
  flat_letter k = rw k (sym (push_first-append c q w (flat (split_where q) ws)))

-- Splitting each piece again is splitting at both kinds of breaks.
module _ (p q r : ℕ → Bool) (both : (c : ℕ) → r c ≡ (p c || q c)) where
  flat-split_where : (s : Bytes) → flat (split_where q) (split_where p s) ≡ split_where r s
  unfolding split_where
  flat-split_where [] = refl
  flat-split_where (c ∷ s) =
      let first = first_component (split_where p s) [] in
      let rest = skip_first (split_where p s) in
      let pushed =
        ap (λ (l : List Bytes). flat (split_where q) (push_first c l)) (split_where-cons p s) in
      let whole = ap (flat (split_where q)) (sym (split_where-cons p s)) ∙ flat-split_where s in
      elim (Bool-cases (p c)) [
        | inl b ↦ rw (both c, b) (ap (λ (l : List Bytes). [] ∷ l) (flat-split_where s))
        | inr b ↦ elim (Bool-cases (q c)) [
          | inl k ↦
              rw (both c, b, k)
                (pushed ∙ flat_break q c first rest k ∙ ap (λ (l : List Bytes). [] ∷ l) whole)
          | inr k ↦
              rw (both c, b, k) (pushed ∙ flat_letter q c first rest k ∙ ap (push_first c) whole)
        ]
      ]

  non_empty-flat :
      (l : List Bytes) → non_empty (flat (split_where q) l) ≡ flat (words q) (non_empty l)
  unfolding split_where
  non_empty-flat [] = refl
  non_empty-flat ([] ∷ l) = non_empty-flat l
  non_empty-flat ((c ∷ w) ∷ l) =
      non_empty-append (split_where q (c ∷ w)) (flat (split_where q) l)
      ∙ ap (λ (m : List Bytes). words q (c ∷ w) ++ m) (non_empty-flat l)

  words-words : (s : Bytes) → flat (words q) (words p s) ≡ words r s
  words-words s = sym (non_empty-flat (split_where p s)) ∙ ap non_empty (flat-split_where s)

is_plain_break : ℕ → Bool
is_plain_break c = is_whitespace c || eqn c b'.'

-- A folder that is spelled as a dotted title has the key that the title has in the index of names
-- without dots.
pub normalize_lowered_dedotted_into-dedot :
    (title : Bytes)
    → normalize_lowered_dedotted_into (map lower title) ≡ dedot (normalize_name title)
unfolding normalize_lowered_dedotted_into dedot is_plain_break normalize_lowered_into
normalize_lowered_dedotted_into-dedot title =
    let lowered = map lower title in
    let normal =
      sym (normalize_lowered_into-normalize_name title)
      ∙ push_words-join (words is_break lowered) in
    push_words-join (words is_dotted_break lowered)
    ∙ ap join (
        sym (words-words is_break is_plain_break is_dotted_break (λ c. ground arith) lowered)
        ∙ sym (words-join is_plain_break (words is_break lowered) refl)
        ∙ ap (words is_plain_break) (sym normal)
        ∙ ap non_empty (
            sym (
              split_where-map is_whitespace is_plain_break undotted (λ c. ground arith)
                (λ c h. ground arith) (normalize_name title))))
