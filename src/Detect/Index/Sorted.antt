-- ===== src/Detect/Index/Sorted.antt =====
-- After sorting and dropping repeated keys, each key is below those behind it.
use Prim.Native.Nat.{Ordering}
use discord_rich_presence.Prelude.{
  ◌≡◌, sym, ap, inl, inr, ◌⊎◌, Bytes, true, false, List, [], ◌∷◌, ◌==◌, list_key, nat_key,
  list_eq_iff, Bool-cases,
}
use discord_rich_presence.Detect.Index.{
  text_cmp, is_gt, IndexEntry, insert_entry, sort_entries, dedup_from, dedup_entries, build_index,
}
use discord_rich_presence.Detect.Index.Order.{
  text_cmp_eq, text_cmp_swap, text_cmp_trans, Ordering-cases,
}

-- No key of the list is below this one.
abbrev Least : Bytes → List IndexEntry → Type 0
Least k [] = Unit
Least k (e ∷ l) = (is_gt (text_cmp k e.0) ≡ false) × Least k l

abbrev Sorted : List IndexEntry → Type 0
Sorted [] = Unit
Sorted (e ∷ l) = Least e.0 l × Sorted l

-- Every key of the list is above this one.
abbrev pub Above : Bytes → List IndexEntry → Type 0
Above k [] = Unit
Above k (e ∷ l) = (text_cmp k e.0 ≡ Ordering.lt) × Above k l

abbrev pub Ascending : List IndexEntry → Type 0
Ascending [] = Unit
Ascending (e ∷ l) = Above e.0 l × Ascending l

not_above : (a b : Bytes) → is_gt (text_cmp a b) ≡ false → (text_cmp a b ≡ Ordering.lt) ⊎ (a ≡ b)
not_above a b h = elim (Ordering-cases (text_cmp a b)) [
  | inl lt ↦ inl lt
  | inr (inl eq) ↦ inr (text_cmp_eq a b eq)
  | inr (inr gt) ↦ absurd (cc)
]

le_trans :
    (a b c : Bytes)
    → is_gt (text_cmp a b) ≡ false
    → is_gt (text_cmp b c) ≡ false
    → is_gt (text_cmp a c) ≡ false
le_trans a b c h k = elim (not_above a b h) [
  | inr same ↦ rw same k
  | inl ab ↦ elim (not_above b c k) [
    | inr same ↦ rw (sym same) h
    | inl bc ↦ ap is_gt (text_cmp_trans a b c ab bc)
  ]
]

lt_le_trans :
    (a b c : Bytes)
    → text_cmp a b ≡ Ordering.lt
    → is_gt (text_cmp b c) ≡ false
    → text_cmp a c ≡ Ordering.lt
lt_le_trans a b c h k = elim (not_above b c k) [
  | inr same ↦ rw (sym same) h
  | inl bc ↦ text_cmp_trans a b c h bc
]

Least-trans :
    (a b : Bytes) (l : List IndexEntry) → is_gt (text_cmp a b) ≡ false → Least b l → Least a l
Least-trans a b [] h least = tt
Least-trans a b (e ∷ l) h (le, least) = (le_trans a b e.0 h le, Least-trans a b l h least)

insert_entry-Least :
    (k : Bytes) (e : IndexEntry) (l : List IndexEntry)
    → is_gt (text_cmp k e.0) ≡ false
    → Least k l
    → Least k (insert_entry e l)
unfolding insert_entry
insert_entry-Least k e [] h least = (h, tt)
insert_entry-Least k e (x ∷ l) h (le, least) = elim (Bool-cases (is_gt (text_cmp e.0 x.0))) [
  | inl gt ↦ rw gt (le, insert_entry-Least k e l h least)
  | inr below ↦ rw below (h, (le, least))
]

insert_entry-Sorted : (e : IndexEntry) (l : List IndexEntry) → Sorted l → Sorted (insert_entry e l)
unfolding insert_entry
insert_entry-Sorted e [] s = (tt, tt)
insert_entry-Sorted e (x ∷ l) (least, s) = elim (Bool-cases (is_gt (text_cmp e.0 x.0))) [
  | inl gt ↦ rw gt (insert_entry-Least x.0 e l (swapped gt) least, insert_entry-Sorted e l s)
  | inr below ↦ rw below ((below, Least-trans e.0 x.0 l below least), (least, s))
]
  where
    swapped : is_gt (text_cmp e.0 x.0) ≡ true → is_gt (text_cmp x.0 e.0) ≡ false
    swapped gt = elim (Ordering-cases (text_cmp e.0 x.0)) [
      | inl lt ↦ absurd (cc)
      | inr (inl eq) ↦ absurd (cc)
      | inr (inr above) ↦ ap is_gt (text_cmp_swap e.0 x.0 above)
    ]

sort_entries-Sorted : (l : List IndexEntry) → Sorted (sort_entries l)
unfolding sort_entries
sort_entries-Sorted [] = tt
sort_entries-Sorted (e ∷ l) = insert_entry-Sorted e (sort_entries l) (sort_entries-Sorted l)

Above-from :
    (k y : Bytes) (l : List IndexEntry) → text_cmp k y ≡ Ordering.lt → Least y l → Above k l
Above-from k y [] h least = tt
Above-from k y (e ∷ l) h (le, least) = (lt_le_trans k y e.0 h le, Above-from k y l h least)

dedup_from-Above :
    (k : Bytes) (x : IndexEntry) (l : List IndexEntry)
    → text_cmp k x.0 ≡ Ordering.lt
    → Above k l
    → Above k (dedup_from x l)
unfolding dedup_from
dedup_from-Above k x [] h above = (h, tt)
dedup_from-Above k x (y ∷ l) h (lt, above) = elim (Bool-cases (y.0 == x.0)) [
  | inl same ↦ rw same (dedup_from-Above k x l h above)
  | inr other ↦ rw other (h, dedup_from-Above k y l lt above)
]

dedup_from-Ascending :
    (x : IndexEntry) (l : List IndexEntry) → Least x.0 l → Sorted l → Ascending (dedup_from x l)
unfolding dedup_from
dedup_from-Ascending x [] least s = (tt, tt)
dedup_from-Ascending x (y ∷ l) (le, least) (least_y, s) = elim (Bool-cases (y.0 == x.0)) [
  | inl same ↦ rw same (dedup_from-Ascending x l least s)
  | inr other ↦ rw other (
    dedup_from-Above x.0 y l (apart other) (Above-from x.0 y.0 l (apart other) least_y),
    dedup_from-Ascending y l least_y s,
  )
]
  where
    apart : (y.0 == x.0) ≡ false → text_cmp x.0 y.0 ≡ Ordering.lt
    apart other = elim (not_above x.0 y.0 le) [
      | inl lt ↦ lt
      | inr same ↦ let k = (list_eq_iff y.0 x.0).1 (sym same) in absurd (cc)
    ]

pub build_index-Ascending : (l : List IndexEntry) → Ascending (build_index l)
unfolding build_index dedup_entries
build_index-Ascending l = deduped (sort_entries l) (sort_entries-Sorted l)
  where
    deduped : (sorted : List IndexEntry) → Sorted sorted → Ascending (dedup_entries sorted)
    deduped [] s = tt
    deduped (x ∷ rest) (least, s) = dedup_from-Ascending x rest least s
