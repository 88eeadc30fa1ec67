-- ===== src/Detect/Variants/Distinct.antt =====
-- What path_variants_into leaves in its five buffers.
use discord_rich_presence.Prelude.{
  ℕ, ◌≤◌, ◌≡◌, refl, ap, inl, inr, ◌⊎◌, true, false, not, ◌&&◌, ◌||◌, List, [], ◌∷◌, ◌++◌, length,
  length-append, leb, Bool-cases, Bytes, contains, list_key, nat_key, list_eq_iff, list_eq, ◌==◌,
  All, arith,
}
use discord_rich_presence.Detect.Variants.{
  remove_marker_into, add_variant, add_variants, path_variants_into, markers, contains_text,
}

-- No text stands twice.
abbrev pub Distinct : List Bytes → Type 0
Distinct [] = Unit
Distinct (v ∷ l) = (contains l v ≡ false) × Distinct l

-- The path, or what is left of it without a marker that it contains.
abbrev pub IsVariant : Bytes → Bytes → Type 0
IsVariant path v =
    (v ≡ path)
    ⊎ ((marker : Bytes) × (contains markers marker ≡ true)
        × (contains_text path marker ≡ true)
        × (v ≡ remove_marker_into path marker))

pub record IsFilled (path : Bytes) (l : List Bytes) : Type 0 where
  pub distinct : Distinct l
  pub bounded : length l ≤ 5
  pub variants : All (IsVariant path) l
  pub rest : List Bytes
  pub starts : l ≡ path ∷ rest

eq_flips : (u v : Bytes) → (u == v) ≡ false → (v == u) ≡ false
eq_flips u v h = ground (arith, list_eq_iff u v, list_eq_iff v u)

contains-append_one :
    (l : List Bytes) (v u : Bytes)
    → contains l u ≡ false
    → (v == u) ≡ false
    → contains (l ++ (v ∷ [])) u ≡ false
contains-append_one [] v u h k = ground arith
contains-append_one (w ∷ l) v u h k = ground (arith, contains-append_one l v u)

Distinct-append :
    (l : List Bytes) (v : Bytes) → Distinct l → contains l v ≡ false → Distinct (l ++ (v ∷ []))
Distinct-append [] v d h = (refl, tt)
Distinct-append (u ∷ l) v (once, d) h = (
  contains-append_one l v u once (eq_flips u v (ground arith)),
  Distinct-append l v d (ground arith),
)

All-append_one :
    (P : Bytes → Type 0) (l : List Bytes) (v : Bytes) → All P l → P v → All P (l ++ (v ∷ []))
All-append_one P [] v a p = (p, tt)
All-append_one P (u ∷ l) v (q, a) p = (q, All-append_one P l v a p)

module _ (path : Bytes) where
  add_variant-IsFilled :
      (l : List Bytes) (marker : Bytes)
      → contains markers marker ≡ true
      → IsFilled path l
      → IsFilled path (add_variant path l marker)
  unfolding add_variant
  add_variant-IsFilled l marker known f =
      elim (Bool-cases (not (contains_text path marker) || leb 5 (length l))) [
        | inl skip ↦ rw skip f
        | inr on ↦ elim (Bool-cases (not (candidate == path) && not (contains l candidate))) [
          | inr kept ↦ rw (on, kept) f
          | inl new ↦
              rw (on, new)
                (record {
                  distinct = Distinct-append l candidate f.distinct (ground arith);
                  bounded =
                      omega
                        (arith, length-append l (candidate ∷ []), room (length l) (ground arith));
                  variants =
                      All-append_one (IsVariant path) l candidate f.variants
                        (inr (marker, known, ground arith, refl));
                  rest = f.rest ++ (candidate ∷ []);
                  starts = ap (λ (m : List Bytes). m ++ (candidate ∷ [])) f.starts;
                })
        ]
      ]
    where
      candidate : Bytes
      candidate = remove_marker_into path marker

      room : (n : ℕ) → leb 5 n ≡ false → n ≤ 4
      room n h = ground arith

  add_variants-IsFilled :
      (l ms : List Bytes)
      → All (λ marker. contains markers marker ≡ true) ms
      → IsFilled path l
      → IsFilled path (add_variants path l ms)
  add_variants-IsFilled l [] known f = f
  add_variants-IsFilled l (marker ∷ ms) (k, known) f =
      add_variants-IsFilled (add_variant path l marker) ms known (add_variant-IsFilled l marker k f)

  -- The buffers start with the path, hold at most five different texts, and each other text is what is
  -- left of the path without a marker that stands in it.
  pub path_variants_into-IsFilled : IsFilled path (path_variants_into path)
  unfolding path_variants_into list_eq
  path_variants_into-IsFilled =
      add_variants-IsFilled (path ∷ []) markers (refl, (refl, (refl, (refl, tt))))
        (record {
          distinct = (refl, tt);
          bounded = omega arith;
          variants = (inl refl, tt);
          rest = [];
          starts = refl;
        })
