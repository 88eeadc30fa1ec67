-- ===== src/Detect/Index/Finds.antt =====
-- The binary search finds the first value that was added with the key.
use Prim.Native.Nat.{Ordering}
use mathlib.Core.Path.{subst}
use discord_rich_presence.Prelude.{
  ℕ, zero, suc, ◌+◌, ◌/◌, ◌≤◌, ◌≡◌, ◌≢◌, refl, sym, ap, ◌∙◌, inl, inr, Bytes, Option, none, some,
  List, [], ◌∷◌, ◌++◌, length, take, drop, take-append-drop, length-take, length-drop, ◌==◌,
  list_key, nat_key, list_eq_iff, Bool-cases, if◌then◌else◌, arith,
}
use discord_rich_presence.Detect.Index.{
  text_cmp, IndexEntry, build_index, search_slice, halve, get_index,
}
use discord_rich_presence.Detect.Index.Order.{
  text_cmp_eq, text_cmp_refl, text_cmp_swap, text_cmp_trans, Ordering-cases,
}
use discord_rich_presence.Detect.Index.Sorted.{Above, Ascending, build_index-Ascending}
use discord_rich_presence.Detect.Index.Firsts.{first_value, first_value-build_index}

first_value_other :
    (key k : Bytes) (v : ℕ) (l : List IndexEntry)
    → k ≢ key
    → first_value key ((k, v) ∷ l) ≡ first_value key l
unfolding first_value
first_value_other key k v l other = elim (Bool-cases (k == key)) [
  | inl same ↦ absurd (other ((list_eq_iff k key).0 same))
  | inr h ↦ rw h refl
]

first_value_same :
    (key : Bytes) (v : ℕ) (l : List IndexEntry) → first_value key ((key, v) ∷ l) ≡ some v
unfolding first_value
first_value_same key v l = rw ((list_eq_iff key key).1 refl) refl

below_apart : (a b : Bytes) → text_cmp a b ≡ Ordering.lt → a ≢ b
below_apart a b h same = let k = ap (text_cmp a) (sym same) ∙ text_cmp_refl a in absurd (cc)

first_value-Above : (key : Bytes) (l : List IndexEntry) → Above key l → first_value key l ≡ none
unfolding first_value
first_value-Above key [] above = refl
first_value-Above key ((k, v) ∷ l) (lt, above) =
    first_value_other key k v l (λ same. below_apart key k lt (sym same))
    ∙ first_value-Above key l above

Above-trans :
    (a b : Bytes) (l : List IndexEntry) → text_cmp a b ≡ Ordering.lt → Above b l → Above a l
Above-trans a b [] h above = tt
Above-trans a b (e ∷ l) h (lt, above) = (text_cmp_trans a b e.0 h lt, Above-trans a b l h above)

Above-append :
    (k : Bytes) (front back : List IndexEntry)
    → Above k (front ++ back)
    → Above k front × Above k back
Above-append k [] back above = (tt, above)
Above-append k (e ∷ front) back (lt, above) =
    let (f, b) = Above-append k front back above in ((lt, f), b)

Ascending-append :
    (front back : List IndexEntry) → Ascending (front ++ back) → Ascending front × Ascending back
Ascending-append [] back asc = (tt, asc)
Ascending-append (e ∷ front) back (above, asc) =
    let (f, b) = Ascending-append front back asc in
    let (here, behind) = Above-append e.0 front back above in ((here, f), b)

-- Up to the entry in the middle, a key that is not below it is found behind it only.
search_behind :
    (key k : Bytes) (v : ℕ) (front back : List IndexEntry)
    → text_cmp k key ≡ Ordering.lt
    → Ascending (front ++ ((k, v) ∷ back))
    → first_value key (front ++ ((k, v) ∷ back)) ≡ first_value key back
search_behind key k v [] back h asc = first_value_other key k v back (below_apart k key h)
search_behind key k v ((a, w) ∷ front) back h (above, asc) =
    let (others, (ak, rest)) = Above-append a front ((k, v) ∷ back) above in
    first_value_other key a w (front ++ ((k, v) ∷ back))
      (below_apart a key (text_cmp_trans a k key ak h))
    ∙ search_behind key k v front back h asc

search_hit :
    (key k : Bytes) (v : ℕ) (front back : List IndexEntry)
    → k ≡ key
    → Ascending (front ++ ((k, v) ∷ back))
    → first_value key (front ++ ((k, v) ∷ back)) ≡ some v
unfolding first_value
search_hit key k v [] back same asc = rw ((list_eq_iff k key).1 same) refl
search_hit key k v ((a, w) ∷ front) back same (above, asc) =
    let (others, (ak, rest)) = Above-append a front ((k, v) ∷ back) above in
    first_value_other key a w (front ++ ((k, v) ∷ back))
      (below_apart a key (ap (text_cmp a) (sym same) ∙ ak))
    ∙ search_hit key k v front back same asc

-- From the entry in the middle on, no key that is below it is found.
search_before :
    (key k : Bytes) (v : ℕ) (front back : List IndexEntry)
    → text_cmp key k ≡ Ordering.lt
    → Ascending (front ++ ((k, v) ∷ back))
    → first_value key (front ++ ((k, v) ∷ back)) ≡ first_value key front
unfolding first_value
search_before key k v [] back h asc =
    first_value-Above key ((k, v) ∷ back) (h, Above-trans key k back h (asc.0))
search_before key k v ((a, w) ∷ front) back h (above, asc) =
    ap (λ (o : Option ℕ). if a == key then some w else o) (search_before key k v front back h asc)

abbrev Searches : Bytes → (List IndexEntry → Option ℕ) → List IndexEntry → Type 0
Searches key search l = Ascending l → search l ≡ first_value key l

halve_lem :
    (key : Bytes) (search : List IndexEntry → Option ℕ) (front back : List IndexEntry) (k : Bytes)
    (v : ℕ)
    → Searches key search front
    → Searches key search back
    → Ascending (front ++ ((k, v) ∷ back))
    → halve key search front ((k, v) ∷ back) ≡ first_value key (front ++ ((k, v) ∷ back))
halve_lem key search front back k v on_front on_back asc =
    let (asc_front, asc_rest) = Ascending-append front ((k, v) ∷ back) asc in
    elim (Ordering-cases (text_cmp k key)) [
      | inl lt ↦ rw (lt, halve) (on_back asc_rest.1 ∙ sym (search_behind key k v front back lt asc))
      | inr (inl eq) ↦
          rw (eq, halve) (sym (search_hit key k v front back (text_cmp_eq k key eq) asc))
      | inr (inr gt) ↦
          rw (gt, halve)
            (on_front asc_front
              ∙ sym (search_before key k v front back (text_cmp_swap k key gt) asc))
    ]

-- A half that is left is shorter, and only an empty slice has no entry in the middle.
search_parts :
    (fuel : ℕ) (key : Bytes) (front back : List IndexEntry)
    → ((half : List IndexEntry)
        → length half ≤ fuel
        → Searches key (λ l. search_slice fuel key l) half)
    → length front ≤ length back
    → length front + length back ≤ suc fuel
    → Ascending (front ++ back)
    → halve key (λ l. search_slice fuel key l) front back ≡ first_value key (front ++ back)
unfolding first_value
search_parts fuel key [] [] again h k asc = refl
search_parts fuel key (e ∷ front) [] again h k asc = absurd (omega arith)
search_parts fuel key front ((m, v) ∷ back) again h k asc =
    halve_lem key (λ l. search_slice fuel key l) front back m v (again front (omega arith))
      (again back (omega arith)) asc

search_slice_lem :
    (fuel : ℕ) (key : Bytes) (l : List IndexEntry)
    → length l ≤ fuel
    → Ascending l
    → search_slice fuel key l ≡ first_value key l
unfolding search_slice first_value
search_slice_lem zero key [] h asc = refl
search_slice_lem zero key (e ∷ l) h asc = absurd (omega arith)
search_slice_lem (suc fuel) key l h asc =
    let at = length l / 2 in
    let whole = take-append-drop at l in
    let front = length-take at l (omega arith) in
    let back = length-drop at l in
    search_parts fuel key (take at l) (drop at l) (λ half k. search_slice_lem fuel key half k)
      (omega arith) (omega arith) (subst Ascending (sym whole) asc)
    ∙ ap (first_value key) whole

-- The index answers a key with the value that was first added with it, and no other key with any.
pub get_index-build_index :
    (entries : List IndexEntry) (key : Bytes)
    → get_index (build_index entries) key ≡ first_value key entries
unfolding get_index
get_index-build_index entries key =
    search_slice_lem (length (build_index entries)) key (build_index entries) (omega arith)
      (build_index-Ascending entries)
    ∙ first_value-build_index key entries
