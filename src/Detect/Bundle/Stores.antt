-- ===== src/Detect/Bundle/Stores.antt =====
-- The index of store ids points at entries that have the id.
use discord_rich_presence.Prelude.{
  ℕ, suc, ◌+◌, ◌≡◌, refl, true, List, [], ◌∷◌, some, All, get_elem?, map, String, string_key,
  contains, list_key, nat_key, list_eq_iff, both_branches, if◌then◌else◌, ◌==◌, Bytes, codes, arith,
}
use discord_rich_presence.Detect.Types.{ScannedEntry}
use discord_rich_presence.Detect.Index.{IndexEntry, get_index}
use discord_rich_presence.Detect.Index.Kept.{get_index-All}
use discord_rich_presence.Detect.Bundle.{push_key, push_ids, collect_ids, build_aux_maps}
use discord_rich_presence.Detect.Bundle.Names.{PointsAt, All-append_one, at_index}

-- The entry has this store id.
abbrev pub Sold : ScannedEntry → Bytes → Type 0
Sold entry id = contains (map codes entry.steam_ids) id ≡ true

own_ids :
    (l xs : List String)
    → ((id : Bytes) → contains (map codes l) id ≡ true → contains (map codes xs) id ≡ true)
    → All (λ id. contains (map codes xs) (codes id) ≡ true) l
own_ids [] xs h = tt
own_ids (id ∷ l) xs h = (
  h (codes id) (ground (arith, list_eq_iff (codes id) (codes id))),
  own_ids l xs (λ m k. h m (ground (arith, k))),
)

module _ (whole : List ScannedEntry) where
  abbrev Placed : IndexEntry → Type 0
  Placed = PointsAt whole Sold

  push_ids-All :
      (index : ℕ) (entry : ScannedEntry) (ids : List String) (out : List IndexEntry)
      → get_elem? whole index ≡ some entry
      → All (λ id. Sold entry (codes id)) ids
      → All Placed out
      → All Placed (push_ids index ids out)
  push_ids-All index entry [] out there sold all = all
  push_ids-All index entry (id ∷ ids) out there (s, sold) all =
      push_ids-All index entry ids (if id == "" then out else push_key (codes id) index out) there
        sold
        (both_branches (All Placed) (id == "") out (push_key (codes id) index out) all
          (All-append_one Placed out (codes id, index) all (entry, there, s)))

  collect_ids-All :
      (index : ℕ) (entries : List ScannedEntry) (out : List IndexEntry)
      → ((i : ℕ) (e : ScannedEntry)
          → get_elem? entries i ≡ some e
          → get_elem? whole (index + i) ≡ some e)
      → All Placed out
      → All Placed (collect_ids index entries out)
  unfolding collect_ids
  collect_ids-All index [] out rest all = all
  collect_ids-All index (entry ∷ entries) out rest all =
      collect_ids-All (index + 1) entries (push_ids index entry.steam_ids out)
        (λ i e there.
          at_index whole e (index + suc i) (index + 1 + i) (omega arith) (rest (suc i) e there))
        (push_ids-All index entry entry.steam_ids out
          (at_index whole entry (index + 0) index (omega arith) (rest 0 entry refl))
          (own_ids entry.steam_ids entry.steam_ids (λ id k. k)) all)

  -- What the index of store ids answers is the place of an entry that has the id.
  pub steam_map-Sold :
      (id : Bytes) (index : ℕ)
      → get_index (build_aux_maps whole).0 id ≡ some index
      → PointsAt whole Sold (id, index)
  unfolding build_aux_maps
  steam_map-Sold id index h =
      get_index-All Placed id index (collect_ids 0 whole [])
        (collect_ids-All 0 whole [] (λ i e there. at_index whole e i (0 + i) (omega arith) there)
          tt)
        h
