-- ===== src/Detect/Index.antt =====
-- crates/rsrpc-detect/src/bundle.rs: the sorted table that answers the auxiliary lookups.
pub mod Order
pub mod Sorted
pub mod Firsts
pub mod Finds
pub mod Kept
use Prim.Native.Nat.{compare, Ordering}
use Prim.Native.Char.{code}
use discord_rich_presence.Prelude.{
  ℕ, zero, suc, ◌/◌, Bytes, Bool, true, false, Option, none, some, List, [], ◌∷◌, length, take,
  drop, ◌==◌, list_key, nat_key, if◌then◌else◌,
}

-- `str::cmp`: UTF-8 keeps the order of the code points.
abbrev pub then_cmp : Ordering → Ordering → Ordering
then_cmp Ordering.lt o = Ordering.lt
then_cmp Ordering.eq o = o
then_cmp Ordering.gt o = Ordering.gt

unfoldable pub text_cmp : Bytes → Bytes → Ordering
text_cmp [] [] = Ordering.eq
text_cmp [] (d ∷ t) = Ordering.lt
text_cmp (c ∷ s) [] = Ordering.gt
text_cmp (c ∷ s) (d ∷ t) = then_cmp (compare c d) (text_cmp s t)

abbrev pub is_gt : Ordering → Bool
is_gt Ordering.lt = false
is_gt Ordering.eq = false
is_gt Ordering.gt = true

abbrev pub IndexEntry : Type 0
IndexEntry = Bytes × ℕ

-- `sort_by` on the keys is stable: equal keys keep their order.
unfoldable pub insert_entry : IndexEntry → List IndexEntry → List IndexEntry
unfolding text_cmp
insert_entry e [] = e ∷ []
insert_entry e (x ∷ l) = if is_gt (text_cmp e.0 x.0) then x ∷ insert_entry e l else e ∷ x ∷ l

unfoldable pub sort_entries : List IndexEntry → List IndexEntry
unfolding insert_entry
sort_entries [] = []
sort_entries (e ∷ l) = insert_entry e (sort_entries l)

-- `dedup_by`: of a run of equal keys the first is kept.
unfoldable pub dedup_from : IndexEntry → List IndexEntry → List IndexEntry
dedup_from x [] = x ∷ []
dedup_from x (y ∷ l) =
    let dropped = dedup_from x l in
    let kept = x ∷ dedup_from y l in if y.0 == x.0 then dropped else kept

unfoldable pub dedup_entries : List IndexEntry → List IndexEntry
unfolding dedup_from
dedup_entries [] = []
dedup_entries (x ∷ l) = dedup_from x l

-- `SortedIndex::build`
unfoldable pub build_index : List IndexEntry → List IndexEntry
unfolding sort_entries dedup_entries
build_index entries = dedup_entries (sort_entries entries)

-- One step of `binary_search_by`, with the halves before and behind the entry in the middle.
abbrev pub halve :
    Bytes → (List IndexEntry → Option ℕ) → List IndexEntry → List IndexEntry → Option ℕ
halve key search before [] = none
halve key search before ((k, v) ∷ behind) = elim (text_cmp k key) [
  | Ordering.lt ↦ search behind
  | Ordering.eq ↦ some v
  | Ordering.gt ↦ search before
]

-- `binary_search_by`, over the slice that is left. The fuel is its length.
unfoldable pub search_slice : ℕ → Bytes → List IndexEntry → Option ℕ
unfolding text_cmp
search_slice zero key l = none
search_slice (suc fuel) key l =
    halve key (λ half. search_slice fuel key half) (take (length l / 2) l) (drop (length l / 2) l)

-- `SortedIndex::get`
unfoldable pub get_index : List IndexEntry → Bytes → Option ℕ
unfolding search_slice
get_index entries key = search_slice (length entries) key entries
