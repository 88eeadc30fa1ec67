-- ===== src/Detect/Bundle/Names.antt =====
-- The index of names points at entries that carry the name.
use mathlib.Core.Path.{subst}
use discord_rich_presence.Prelude.{
  ℕ, suc, ◌+◌, ◌≡◌, refl, inl, inr, true, List, [], ◌∷◌, ◌++◌, some, All, get_elem?, String,
  string_key, string_iff, contains, nat_key, Bool-cases, both_branches, ltb, Bytes, codes, arith,
}
use discord_rich_presence.Detect.Types.{ScannedEntry}
use discord_rich_presence.Detect.Index.{IndexEntry, build_index, get_index}
use discord_rich_presence.Detect.Index.Kept.{build_index-All, get_index-All}
use discord_rich_presence.Detect.Titles.{normalize_name, name_matchable, dedot}
use discord_rich_presence.Detect.Bundle.{
  push_key, push_name, push_names, collect_names_from, collect_names, build_aux_maps, dotted,
  insert_by_index, sort_by_index, dedotted, undotted_names,
}

-- The title or an alias of the entry has this normal form.
abbrev pub Titled : ScannedEntry → Bytes → Type 0
Titled entry key =
    (name : String) × (contains (entry.name ∷ entry.aliases) name ≡ true)
    × (normalize_name (codes name) ≡ key)

abbrev pub PointsAt : List ScannedEntry → (ScannedEntry → Bytes → Type 0) → IndexEntry → Type 0
PointsAt entries Q e = (entry : ScannedEntry) × (get_elem? entries e.1 ≡ some entry) × Q entry e.0

pub All-append_one :
    (P : IndexEntry → Type 0) (l : List IndexEntry) (e : IndexEntry)
    → All P l
    → P e
    → All P (l ++ (e ∷ []))
All-append_one P [] e all p = (p, tt)
All-append_one P (x ∷ l) e (q, all) p = (q, All-append_one P l e all p)

members :
    (l xs : List String)
    → ((name : String) → contains l name ≡ true → contains xs name ≡ true)
    → All (λ name. contains xs name ≡ true) l
members [] xs h = tt
members (name ∷ l) xs h =
    (h name (ground (arith, string_iff name name)), members l xs (λ m k. h m (ground arith)))

module _ (whole : List ScannedEntry) where
  abbrev Named : IndexEntry → Type 0
  Named = PointsAt whole Titled

  pub at_index :
      (entry : ScannedEntry) (m n : ℕ)
      → m ≡ n
      → get_elem? whole m ≡ some entry
      → get_elem? whole n ≡ some entry
  at_index entry m n e h = subst (λ (k : ℕ). get_elem? whole k ≡ some entry) e h

  push_name-All :
      (index : ℕ) (entry : ScannedEntry) (name : String) (out : List IndexEntry)
      → get_elem? whole index ≡ some entry
      → contains (entry.name ∷ entry.aliases) name ≡ true
      → All Named out
      → All Named (push_name index name out)
  unfolding push_name
  push_name-All index entry name out there known all =
      both_branches (All Named) (name_matchable (normalize_name (codes name)))
        (push_key (normalize_name (codes name)) index out) out
        (All-append_one Named out (normalize_name (codes name), index) all
          (entry, there, (name, known, refl)))
        all

  push_names-All :
      (index : ℕ) (entry : ScannedEntry) (names : List String) (out : List IndexEntry)
      → get_elem? whole index ≡ some entry
      → All (λ name. contains (entry.name ∷ entry.aliases) name ≡ true) names
      → All Named out
      → All Named (push_names index names out)
  push_names-All index entry [] out there known all = all
  push_names-All index entry (name ∷ names) out there (k, known) all =
      push_names-All index entry names (push_name index name out) there known
        (push_name-All index entry name out there k all)

  collect_names_from-All :
      (index : ℕ) (entries : List ScannedEntry) (out : List IndexEntry)
      → ((i : ℕ) (e : ScannedEntry)
          → get_elem? entries i ≡ some e
          → get_elem? whole (index + i) ≡ some e)
      → All Named out
      → All Named (collect_names_from index entries out)
  unfolding collect_names_from
  collect_names_from-All index [] out rest all = all
  collect_names_from-All index (entry ∷ entries) out rest all =
      collect_names_from-All (index + 1) entries (push_names index (entry.name ∷ entry.aliases) out)
        (λ i e there.
          at_index e (index + suc i) (index + 1 + i) (omega arith) (rest (suc i) e there))
        (push_names-All index entry (entry.name ∷ entry.aliases) out
          (at_index entry (index + 0) index (omega arith) (rest 0 entry refl))
          (members (entry.name ∷ entry.aliases) (entry.name ∷ entry.aliases) (λ name k. k)) all)

  name_map-All : All Named (build_index (collect_names whole))
  name_map-All =
      build_index-All Named (collect_names whole) (
        collect_names_from-All 0 whole [] (λ i e there. at_index e i (0 + i) (omega arith) there)
          tt)

  -- A key without dots stands for an entry whose normal form it is, once the dots are blanks.
  abbrev pub Undotted : ScannedEntry → Bytes → Type 0
  Undotted entry key =
      (inner : Bytes) × Titled entry inner × (contains inner b'.' ≡ true) × (key ≡ dedot inner)

  abbrev Dotted : IndexEntry → Type 0
  Dotted e = Named e × (contains e.0 b'.' ≡ true)

  dotted-All : (l : List IndexEntry) → All Named l → All Dotted (dotted l)
  dotted-All [] all = tt
  dotted-All ((key, index) ∷ l) (p, all) = elim (Bool-cases (contains key b'.')) [
    | inl dot ↦ rw dot ((p, dot), dotted-All l all)
    | inr plain ↦ rw plain (dotted-All l all)
  ]

  insert_by_index-All :
      (e : IndexEntry) (l : List IndexEntry)
      → Dotted e
      → All Dotted l
      → All Dotted (insert_by_index e l)
  unfolding insert_by_index
  insert_by_index-All e [] p all = (p, tt)
  insert_by_index-All e (x ∷ l) p (q, all) =
      both_branches (All Dotted) (ltb x.1 e.1) (x ∷ insert_by_index e l) (e ∷ x ∷ l)
        (q, insert_by_index-All e l p all) (p, (q, all))

  sort_by_index-All : (l : List IndexEntry) → All Dotted l → All Dotted (sort_by_index l)
  unfolding sort_by_index
  sort_by_index-All [] all = tt
  sort_by_index-All (e ∷ l) (p, all) =
      insert_by_index-All e (sort_by_index l) p (sort_by_index-All l all)

  dedotted-All : (l : List IndexEntry) → All Dotted l → All (PointsAt whole Undotted) (dedotted l)
  dedotted-All [] all = tt
  dedotted-All ((key, index) ∷ l) (((entry, there, titled), dot), all) =
      ((entry, there, (key, titled, dot, refl)), dedotted-All l all)

  -- What the index of names answers is the place of an entry with a title or an alias of which the key
  -- is the normal form.
  pub name_map-Titled :
      (key : Bytes) (index : ℕ)
      → get_index (build_aux_maps whole).1 key ≡ some index
      → PointsAt whole Titled (key, index)
  unfolding build_aux_maps
  name_map-Titled key index h =
      get_index-All Named key index (collect_names whole)
        (collect_names_from-All 0 whole [] (λ i e there. at_index e i (0 + i) (omega arith) there)
          tt)
        h

  pub undotted_names-Undotted :
      (key : Bytes) (index : ℕ)
      → get_index (undotted_names (build_aux_maps whole).1) key ≡ some index
      → PointsAt whole Undotted (key, index)
  unfolding build_aux_maps undotted_names
  undotted_names-Undotted key index h =
      get_index-All (PointsAt whole Undotted) key index
        (dedotted (sort_by_index (dotted (build_index (collect_names whole)))))
        (dedotted-All (sort_by_index (dotted (build_index (collect_names whole)))) (
          sort_by_index-All (dotted (build_index (collect_names whole)))
            (dotted-All (build_index (collect_names whole)) name_map-All)))
        h
