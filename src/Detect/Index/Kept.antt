-- ===== src/Detect/Index/Kept.antt =====
-- What all added entries satisfy, the entries of the index and its answers do.
use mathlib.Core.Path.{subst}
use discord_rich_presence.Prelude.{
  ℕ, ◌≡◌, sym, ◌∙◌, inl, inr, List, [], ◌∷◌, some, All, Bool-cases, both_branches, Bytes, ◌==◌,
  list_key, nat_key, list_eq_iff, arith,
}
use discord_rich_presence.Detect.Index.{
  text_cmp, is_gt, IndexEntry, insert_entry, sort_entries, dedup_from, dedup_entries, build_index,
  get_index,
}
use discord_rich_presence.Detect.Index.Firsts.{first_value}
use discord_rich_presence.Detect.Index.Finds.{get_index-build_index}

module _ (P : IndexEntry → Type 0) where
  insert_entry-All :
      (e : IndexEntry) (l : List IndexEntry) → P e → All P l → All P (insert_entry e l)
  unfolding insert_entry
  insert_entry-All e [] p all = (p, tt)
  insert_entry-All e (x ∷ l) p (q, all) =
      both_branches (All P) (is_gt (text_cmp e.0 x.0)) (x ∷ insert_entry e l) (e ∷ x ∷ l)
        (q, insert_entry-All e l p all) (p, (q, all))

  sort_entries-All : (l : List IndexEntry) → All P l → All P (sort_entries l)
  unfolding sort_entries
  sort_entries-All [] all = tt
  sort_entries-All (e ∷ l) (p, all) = insert_entry-All e (sort_entries l) p (sort_entries-All l all)

  dedup_from-All : (x : IndexEntry) (l : List IndexEntry) → P x → All P l → All P (dedup_from x l)
  unfolding dedup_from
  dedup_from-All x [] p all = (p, tt)
  dedup_from-All x (y ∷ l) p (q, all) =
      both_branches (All P) (y.0 == x.0) (dedup_from x l) (x ∷ dedup_from y l)
        (dedup_from-All x l p all) (p, dedup_from-All y l q all)

  pub build_index-All : (l : List IndexEntry) → All P l → All P (build_index l)
  unfolding build_index dedup_entries
  build_index-All l all = deduped (sort_entries l) (sort_entries-All l all)
    where
      deduped : (m : List IndexEntry) → All P m → All P (dedup_entries m)
      deduped [] h = tt
      deduped (x ∷ m) (p, h) = dedup_from-All x m p h

  first_value-All :
      (key : Bytes) (v : ℕ) (l : List IndexEntry)
      → first_value key l ≡ some v
      → All P l
      → P (key, v)
  unfolding first_value
  first_value-All key v [] h all = absurd (cc)
  first_value-All key v ((k, u) ∷ l) h (p, all) = elim (Bool-cases (k == key)) [
    | inr other ↦ first_value-All key v l (rw (other, first_value) at h) all
    | inl same ↦
        let values : u ≡ v = ground (arith, rw (same, first_value) at h) in
        subst (λ n. P (key, n)) values
          (subst (λ (t : Bytes). P (t, u)) ((list_eq_iff k key).0 same) p)
  ]

  -- An answer of an index is one of the entries that it was built from.
  pub get_index-All :
      (key : Bytes) (v : ℕ) (l : List IndexEntry)
      → All P l
      → get_index (build_index l) key ≡ some v
      → P (key, v)
  get_index-All key v l all h = first_value-All key v l (sym (get_index-build_index l key) ∙ h) all
