-- ===== src/Detect/Lookups/Each.antt =====
-- What every hit of the lookups satisfies, from what they have tested.
use discord_rich_presence.Prelude.{
  ℕ, suc, ◌∙◌, list_eq_iff, ◌≡◌, refl, inl, inr, ◌⊎◌, Bool, true, false, not, ◌&&◌, List, [], ◌∷◌,
  map, Option, none, some, get_elem?, Option-cases, Bool-cases, arith, Bytes, codes, contains,
  list_key, nat_key,
}
use discord_rich_presence.Bridge.Handoff.{DetectSource, exe_stem as by_stem, folder}
use discord_rich_presence.Detect.Types.{ScannedEntry, ScannedHit}
use discord_rich_presence.Detect.Index.{get_index}
use discord_rich_presence.Detect.Bundle.{DetectablesBundle}
use discord_rich_presence.Detect.Titles.{
  exe_stem, components, skip_first, normalize_lowered_into, normalize_lowered_dedotted_into,
}
use discord_rich_presence.Detect.Hits.{Readings, is_suspended, stamp, argv_names_an_executable}
use discord_rich_presence.Detect.Hits.Each.{Each, live_or_none-Each}
use discord_rich_presence.Detect.Lookups.{
  match_custom, match_indexed, match_steam_id, named_entry, match_folder, match_dotted_folder,
  match_any_folder, match_name_or_folder, has_dot,
}

-- The entry that a store id stands for: by the index, or, if the index does not know it, the entry of
-- the custom list that has it.
abbrev pub IdOf : DetectablesBundle → Bytes → ScannedEntry → Type 0
IdOf b id entry =
    ((index : ℕ) × (get_index b.steam_map id ≡ some index) × (get_elem? b.list index ≡ some entry))
    ⊎ ((get_index b.steam_map id ≡ none)
        × (contains (map codes entry.steam_ids) id ≡ true)
        × ((index : ℕ) × (get_elem? b.custom index ≡ some entry)))

module _ (w : Readings) (b : DetectablesBundle) (P : ScannedHit → Type 0) where
  match_custom-Each :
      (pid : ℕ) (id path : Bytes) (source : DetectSource) (custom : List ScannedEntry)
      → ((entry : ScannedEntry) (index : ℕ)
          → get_elem? custom index ≡ some entry
          → contains (map codes entry.steam_ids) id ≡ true
          → argv_names_an_executable path entry ≡ true
          → is_suspended w pid ≡ false
          → P (stamp w entry pid source))
      → Each P (match_custom w pid id path source custom)
  unfolding match_custom
  match_custom-Each pid id path source [] p = tt
  match_custom-Each pid id path source (entry ∷ custom) p =
      elim (Bool-cases
        (contains (map codes entry.steam_ids) id && argv_names_an_executable path entry)) [
          | inl fits ↦ rw fits (
              live_or_none-Each P w entry pid source (p entry 0 refl (ground arith) (ground arith)))
          | inr on ↦
              rw on (match_custom-Each pid id path source custom (λ e index. p e (suc index)))
        ]

  match_indexed-Each :
      (pid : ℕ) (id path : Bytes) (source : DetectSource) (answer : Option ℕ)
      → get_index b.steam_map id ≡ answer
      → ((entry : ScannedEntry)
          → IdOf b id entry
          → argv_names_an_executable path entry ≡ true
          → is_suspended w pid ≡ false
          → P (stamp w entry pid source))
      → Each P (match_indexed w b pid id path source answer)
  unfolding match_indexed
  match_indexed-Each pid id path source none unknown p =
      match_custom-Each pid id path source b.custom
        (λ entry index there sold. p entry (inr (unknown, sold, (index, there))))
  match_indexed-Each pid id path source (some index) known p =
      elim (Option-cases (get_elem? b.list index)) [
        | inl gone ↦ rw gone tt
        | inr (entry, there) ↦ elim (Bool-cases (argv_names_an_executable path entry)) [
          | inr helper ↦ rw (there, helper) tt
          | inl names ↦
              rw (there, names)
                (live_or_none-Each P w entry pid source (p entry (inl (index, known, there)) names))
        ]
      ]

  pub match_steam_id-Each :
      (pid : ℕ) (app_id : Option Bytes) (path : Bytes) (source : DetectSource)
      → ((id : Bytes) (entry : ScannedEntry)
          → app_id ≡ some id
          → IdOf b id entry
          → argv_names_an_executable path entry ≡ true
          → is_suspended w pid ≡ false
          → P (stamp w entry pid source))
      → Each P (match_steam_id w b pid app_id path source)
  unfolding match_steam_id
  match_steam_id-Each pid none path source p = tt
  match_steam_id-Each pid (some id) path source p =
      match_indexed-Each pid id path source (get_index b.steam_map id) refl
        (λ entry. p id entry refl)

-- The folder that the walk ends at.
module _ (skips : Bytes → Bool) (look : Bytes → Option ScannedEntry) where
  abbrev Found : List Bytes → ScannedEntry → Type 0
  Found folders entry =
      (component : Bytes) × (contains folders component ≡ true)
      × (skips component ≡ false)
      × (look component ≡ some entry)

  Found-above :
      (component : Bytes) (folders : List Bytes) (entry : ScannedEntry)
      → Found folders entry
      → Found (component ∷ folders) entry
  Found-above component folders entry (c, there, kept, found) = (c, ground arith, kept, found)

  match_folder-Found :
      (folders : List Bytes) (entry : ScannedEntry)
      → match_folder skips look folders ≡ some entry
      → Found folders entry
  unfolding match_folder
  match_folder-Found [] entry h = absurd (cc)
  match_folder-Found (component ∷ folders) entry h = elim (Bool-cases (skips component)) [
    | inl skipped ↦
        Found-above component folders entry
          (match_folder-Found folders entry (rw (skipped, match_folder) at h))
    | inr kept ↦ elim (Option-cases (look component)) [
      | inl unnamed ↦
          Found-above component folders entry
            (match_folder-Found folders entry (rw (kept, unnamed, match_folder) at h))
      | inr (e, named) ↦ (
        component,
        ground (arith, list_eq_iff component component),
        kept,
        named ∙ (rw (kept, named, match_folder) at h),
      )
    ]
  ]

abbrev pub folders_of : Bytes → List Bytes
folders_of path = skip_first (components path)

-- A folder above the process, with what it is looked up by.
abbrev pub InFolder : DetectablesBundle → Bytes → ScannedEntry → Type 0
InFolder b path entry =
    (component : Bytes) × (contains (folders_of path) component ≡ true)
    × ((named_entry b.name_map b.list (normalize_lowered_into component) ≡ some entry)
        ⊎ (named_entry b.name_map_nodot b.list (normalize_lowered_dedotted_into component)
            ≡ some entry))

module _ (w : Readings) (b : DetectablesBundle) (P : ScannedHit → Type 0) (path : Bytes) (pid : ℕ)
    (stemmed : (entry : ScannedEntry)
      → named_entry b.name_map b.list (exe_stem path) ≡ some entry
      → is_suspended w pid ≡ false
      → P (stamp w entry pid by_stem))
    (foldered : (entry : ScannedEntry)
      → InFolder b path entry
      → is_suspended w pid ≡ false
      → P (stamp w entry pid folder)) where
  abbrev by_name : Bytes → Option ScannedEntry
  by_name c = named_entry b.name_map b.list (normalize_lowered_into c)

  abbrev by_dotted_name : Bytes → Option ScannedEntry
  by_dotted_name c = named_entry b.name_map_nodot b.list (normalize_lowered_dedotted_into c)

  match_dotted_folder-Each : Each P (match_dotted_folder w b (folders_of path) pid)
  unfolding match_dotted_folder
  match_dotted_folder-Each =
      elim (Option-cases (match_folder (λ c. not (has_dot c)) by_dotted_name (folders_of path))) [
        | inl none_named ↦ rw none_named tt
        | inr (entry, there) ↦
            let (c, above, dotted, named) =
              match_folder-Found (λ c. not (has_dot c)) by_dotted_name (folders_of path) entry
                there in
            rw there (live_or_none-Each P w entry pid folder (foldered entry (c, above, inr named)))
      ]

  match_any_folder-Each : Each P (match_any_folder w b (folders_of path) pid)
  unfolding match_any_folder
  match_any_folder-Each = elim (Option-cases (match_folder has_dot by_name (folders_of path))) [
    | inl none_named ↦ rw (none_named, Each) match_dotted_folder-Each
    | inr (entry, there) ↦
        let (c, above, plain, named) =
          match_folder-Found has_dot by_name (folders_of path) entry there in
        rw (there, Each)
          (live_or_none-Each P w entry pid folder (foldered entry (c, above, inl named)))
  ]

  pub match_name_or_folder-Each : Each P (match_name_or_folder w b path pid)
  unfolding match_name_or_folder
  match_name_or_folder-Each = elim (Option-cases (named_entry b.name_map b.list (exe_stem path))) [
    | inr (entry, named) ↦
        rw (named, Each) (live_or_none-Each P w entry pid by_stem (stemmed entry named))
    | inl no_stem ↦ rw (no_stem, Each) match_any_folder-Each
  ]
