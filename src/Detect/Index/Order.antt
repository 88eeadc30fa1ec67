-- ===== src/Detect/Index/Order.antt =====
-- The order of texts, by their code points.
use Prim.Native.Nat.{Ordering}
use discord_rich_presence.Prelude.{[], ◌∷◌, ◌≡◌, inl, inr, ◌⊎◌, refl, Bytes, arith}
use discord_rich_presence.Detect.Index.{text_cmp}

pub text_cmp_eq : (a b : Bytes) → text_cmp a b ≡ Ordering.eq → a ≡ b
unfolding text_cmp
text_cmp_eq [] [] h = refl
text_cmp_eq [] (d ∷ t) h = absurd (cc)
text_cmp_eq (c ∷ s) [] h = absurd (cc)
text_cmp_eq (c ∷ s) (d ∷ t) h = ground (arith, text_cmp_eq s t)

pub text_cmp_refl : (a : Bytes) → text_cmp a a ≡ Ordering.eq
unfolding text_cmp
text_cmp_refl [] = refl
text_cmp_refl (c ∷ s) = ground (arith, text_cmp_refl s)

pub text_cmp_swap : (a b : Bytes) → text_cmp a b ≡ Ordering.gt → text_cmp b a ≡ Ordering.lt
unfolding text_cmp
text_cmp_swap [] [] h = absurd (cc)
text_cmp_swap [] (d ∷ t) h = absurd (cc)
text_cmp_swap (c ∷ s) [] h = refl
text_cmp_swap (c ∷ s) (d ∷ t) h = ground (arith, text_cmp_swap s t)

pub text_cmp_trans :
    (a b c : Bytes)
    → text_cmp a b ≡ Ordering.lt
    → text_cmp b c ≡ Ordering.lt
    → text_cmp a c ≡ Ordering.lt
unfolding text_cmp
text_cmp_trans [] [] [] h k = absurd (cc)
text_cmp_trans [] (d ∷ t) [] h k = absurd (cc)
text_cmp_trans [] b (e ∷ u) h k = refl
text_cmp_trans (c ∷ s) [] u h k = absurd (cc)
text_cmp_trans (c ∷ s) (d ∷ t) [] h k = absurd (cc)
text_cmp_trans (c ∷ s) (d ∷ t) (e ∷ u) h k = ground (arith, text_cmp_trans s t u)

pub text_cmp_gt : (a b : Bytes) → text_cmp a b ≡ Ordering.lt → text_cmp b a ≡ Ordering.gt
unfolding text_cmp
text_cmp_gt [] [] h = absurd (cc)
text_cmp_gt [] (d ∷ t) h = refl
text_cmp_gt (c ∷ s) [] h = absurd (cc)
text_cmp_gt (c ∷ s) (d ∷ t) h = ground (arith, text_cmp_gt s t)

pub Ordering-cases : (o : Ordering) → (o ≡ Ordering.lt) ⊎ ((o ≡ Ordering.eq) ⊎ (o ≡ Ordering.gt))
Ordering-cases Ordering.lt = inl refl
Ordering-cases Ordering.eq = inr (inl refl)
Ordering-cases Ordering.gt = inr (inr refl)
