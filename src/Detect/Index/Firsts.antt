-- ===== src/Detect/Index/Firsts.antt =====
-- Sorting and dropping repeated keys keep the first value of each key.
use discord_rich_presence.Prelude.{
  ℕ, ◌≡◌, refl, sym, ap, ◌∙◌, inl, inr, Bytes, true, false, Option, none, some, List, [], ◌∷◌, ◌==◌,
  list_key, nat_key, list_eq_iff, Bool-cases, if◌then◌else◌,
}
use discord_rich_presence.Detect.Index.{
  text_cmp, is_gt, IndexEntry, insert_entry, sort_entries, dedup_from, dedup_entries, build_index,
}
use discord_rich_presence.Detect.Index.Order.{text_cmp_refl}

-- The value that came first with this key.
unfoldable pub first_value : Bytes → List IndexEntry → Option ℕ
first_value key [] = none
first_value key ((k, v) ∷ l) = if k == key then some v else first_value key l

-- Entries with different keys can change places.
first_value_swap :
    (key : Bytes) (e x : IndexEntry) (l : List IndexEntry)
    → (e.0 == x.0) ≡ false
    → first_value key (x ∷ e ∷ l) ≡ first_value key (e ∷ x ∷ l)
unfolding first_value
first_value_swap key (a, v) (b, w) l h = elim (Bool-cases (a == key)) [
  | inr other ↦ rw other refl
  | inl is_key ↦ elim (Bool-cases (b == key)) [
    | inr other ↦ rw (is_key, other) refl
    | inl too ↦
        let k =
          (list_eq_iff a b).1 ((list_eq_iff a key).0 is_key ∙ sym ((list_eq_iff b key).0 too)) in
        absurd (cc)
  ]
]

-- Behind an equal entry, an entry is not seen.
first_value_hidden :
    (key : Bytes) (x y : IndexEntry) (l : List IndexEntry)
    → (y.0 == x.0) ≡ true
    → first_value key (x ∷ l) ≡ first_value key (x ∷ y ∷ l)
unfolding first_value
first_value_hidden key (a, v) (b, w) l h = elim (Bool-cases (a == key)) [
  | inl is_key ↦ rw is_key refl
  | inr other ↦ rw (other, ap (λ (s : Bytes). s == key) ((list_eq_iff b a).0 h), other) refl
]

first_value_behind :
    (key : Bytes) (x : IndexEntry) (l m : List IndexEntry)
    → first_value key l ≡ first_value key m
    → first_value key (x ∷ l) ≡ first_value key (x ∷ m)
unfolding first_value
first_value_behind key (a, v) l m h = ap (λ (o : Option ℕ). if a == key then some v else o) h

first_value-insert_entry :
    (key : Bytes) (e : IndexEntry) (l : List IndexEntry)
    → first_value key (insert_entry e l) ≡ first_value key (e ∷ l)
unfolding insert_entry
first_value-insert_entry key e [] = refl
first_value-insert_entry key e (x ∷ l) = elim (Bool-cases (is_gt (text_cmp e.0 x.0))) [
  | inr below ↦ rw below refl
  | inl gt ↦ rw gt (
      first_value_behind key x (insert_entry e l) (e ∷ l) (first_value-insert_entry key e l)
      ∙ first_value_swap key e x l (apart gt))
]
  where
    apart : is_gt (text_cmp e.0 x.0) ≡ true → (e.0 == x.0) ≡ false
    apart gt = elim (Bool-cases (e.0 == x.0)) [
      | inr other ↦ other
      | inl same ↦
          let k = ap (text_cmp e.0) (sym ((list_eq_iff e.0 x.0).0 same)) ∙ text_cmp_refl e.0 in
          absurd (cc)
    ]

first_value-sort_entries :
    (key : Bytes) (l : List IndexEntry) → first_value key (sort_entries l) ≡ first_value key l
unfolding sort_entries
first_value-sort_entries key [] = refl
first_value-sort_entries key (e ∷ l) =
    first_value-insert_entry key e (sort_entries l)
    ∙ first_value_behind key e (sort_entries l) l (first_value-sort_entries key l)

first_value-dedup_from :
    (key : Bytes) (x : IndexEntry) (l : List IndexEntry)
    → first_value key (dedup_from x l) ≡ first_value key (x ∷ l)
unfolding dedup_from
first_value-dedup_from key x [] = refl
first_value-dedup_from key x (y ∷ l) = elim (Bool-cases (y.0 == x.0)) [
  | inl same ↦ rw same (first_value-dedup_from key x l ∙ first_value_hidden key x y l same)
  | inr other ↦
      rw other (first_value_behind key x (dedup_from y l) (y ∷ l) (first_value-dedup_from key y l))
]

pub first_value-build_index :
    (key : Bytes) (l : List IndexEntry) → first_value key (build_index l) ≡ first_value key l
unfolding build_index dedup_entries
first_value-build_index key l = deduped (sort_entries l) ∙ first_value-sort_entries key l
  where
    deduped : (m : List IndexEntry) → first_value key (dedup_entries m) ≡ first_value key m
    deduped [] = refl
    deduped (x ∷ m) = first_value-dedup_from key x m
