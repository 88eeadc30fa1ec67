-- ===== src/Detect/Lookups/Named.antt =====
-- A game that is found by name carries the name.
use discord_rich_presence.Prelude.{
  ℕ, ◌≡◌, inl, inr, ◌⊎◌, true, List, Option, none, some, get_elem?, Option-cases, Bool-cases, Bytes,
  contains, list_key, nat_key, arith, map, codes,
}
use mathlib.Core.Path.{subst}
use discord_rich_presence.Detect.Types.{ScannedEntry}
use discord_rich_presence.Detect.Index.{IndexEntry, get_index}
use discord_rich_presence.Detect.Titles.{
  name_matchable, exe_stem, normalize_lowered_into, normalize_lowered_dedotted_into,
}
use discord_rich_presence.Detect.Bundle.{
  DetectablesBundle, Automaton, Platform, build_bundle, build_aux_maps, undotted_names,
}
use discord_rich_presence.Detect.Bundle.Names.{
  Titled, Undotted, name_map-Titled, undotted_names-Undotted,
}
use discord_rich_presence.Detect.Bundle.Stores.{Sold, steam_map-Sold}
use discord_rich_presence.Detect.Hits.{Readings}
use discord_rich_presence.Detect.Hits.Each.{Each}
use discord_rich_presence.Detect.Lookups.{named_entry, match_name_or_folder}
use discord_rich_presence.Detect.Lookups.Each.{
  folders_of, IdOf, InFolder, match_name_or_folder-Each,
}

-- The tables of names of a generation are built from its list.
abbrev pub FromList : List ScannedEntry → DetectablesBundle → Type 0
FromList entries b =
    (b.list ≡ entries)
    × (b.steam_map ≡ (build_aux_maps entries).0)
    × (b.name_map ≡ (build_aux_maps entries).1)
    × (b.name_map_nodot ≡ undotted_names (build_aux_maps entries).1)

build_bundle-FromList :
    (os : Platform) (build : List Bytes → Option Automaton) (detectable custom : List ScannedEntry)
    (b : DetectablesBundle)
    → build_bundle os build detectable custom ≡ some b
    → FromList detectable b
unfolding build_bundle
build_bundle-FromList os build detectable custom b h = ground arith

named_entry_found :
    (names : List IndexEntry) (entries : List ScannedEntry) (key : Bytes) (entry : ScannedEntry)
    → named_entry names entries key ≡ some entry
    → (name_matchable key ≡ true)
      × ((index : ℕ) × (get_index names key ≡ some index) × (get_elem? entries index ≡ some entry))
unfolding named_entry
named_entry_found names entries key entry h = elim (Bool-cases (name_matchable key)) [
  | inr short ↦ absurd (none_found (rw (short, named_entry) at h))
  | inl matchable ↦ elim (Option-cases (get_index names key)) [
    | inl unknown ↦ absurd (none_found (rw (matchable, unknown, named_entry) at h))
    | inr (index, known) ↦ (matchable, (index, known, rw (matchable, known, named_entry) at h))
  ]
]
  where
    none_found : none ≡ some entry → ⊥
    none_found e = cc

module _ (os : Platform) (build : List Bytes → Option Automaton)
    (detectable custom : List ScannedEntry) (b : DetectablesBundle)
    (built : build_bundle os build detectable custom ≡ some b) where
  -- An entry that a generation answers for a name has a title or an alias of which it is the normal
  -- form: words of six characters or more in all, and more than one.
  pub named_entry-Titled :
      (key : Bytes) (entry : ScannedEntry)
      → named_entry b.name_map b.list key ≡ some entry
      → (name_matchable key ≡ true) × Titled entry key
  named_entry-Titled key entry h =
      let (list_is, ids_are, names_are, dotted_are) =
        build_bundle-FromList os build detectable custom b built in
      let (matchable, (index, known, there)) = named_entry_found b.name_map b.list key entry h in
      let (e, held, titled) =
        name_map-Titled detectable key index
          (subst (λ (m : List IndexEntry). get_index m key ≡ some index) names_are known) in
      let same : e ≡ entry = cc in
      (matchable, subst (λ (x : ScannedEntry). Titled x key) same titled)

  pub named_entry-Undotted :
      (key : Bytes) (entry : ScannedEntry)
      → named_entry b.name_map_nodot b.list key ≡ some entry
      → (name_matchable key ≡ true) × Undotted detectable entry key
  named_entry-Undotted key entry h =
      let (list_is, ids_are, names_are, dotted_are) =
        build_bundle-FromList os build detectable custom b built in
      let (matchable, (index, known, there)) =
        named_entry_found b.name_map_nodot b.list key entry h in
      let (e, held, titled) =
        undotted_names-Undotted detectable key index
          (subst (λ (m : List IndexEntry). get_index m key ≡ some index) dotted_are known) in
      let same : e ≡ entry = cc in
      (matchable, subst (λ (x : ScannedEntry). Undotted detectable x key) same titled)

  -- The entry that a store id stands for sells under that id.
  pub IdOf-sold :
      (id : Bytes) (entry : ScannedEntry)
      → IdOf b id entry
      → contains (map codes entry.steam_ids) id ≡ true
  IdOf-sold id entry (inr (unknown, sold, there)) = sold
  IdOf-sold id entry (inl (index, known, there)) =
      let (list_is, ids_are, names_are, dotted_are) =
        build_bundle-FromList os build detectable custom b built in
      let (e, held, sold) =
        steam_map-Sold detectable id index
          (subst (λ (m : List IndexEntry). get_index m id ≡ some index) ids_are known) in
      let same : e ≡ entry = cc in subst (λ (x : ScannedEntry). Sold x id) same sold

  -- A folder above the process is the normal form of a title or an alias, or would be with its dots.
  abbrev pub Above : Bytes → ScannedEntry → Type 0
  Above path entry =
      (component : Bytes) × (contains (folders_of path) component ≡ true)
      × (Titled entry (normalize_lowered_into component)
          ⊎ Undotted detectable entry (normalize_lowered_dedotted_into component))

  -- The stem of the path, or a folder above it, is the normal form of a title or an alias.
  abbrev pub Carries : Bytes → ScannedEntry → Type 0
  Carries path entry = Titled entry (exe_stem path) ⊎ Above path entry

  pub InFolder-Above :
      (path : Bytes) (entry : ScannedEntry) → InFolder b path entry → Above path entry
  InFolder-Above path entry (component, above, inl named) = (
    component,
    above,
    inl ((named_entry-Titled (normalize_lowered_into component) entry named).1),
  )
  InFolder-Above path entry (component, above, inr named) = (
    component,
    above,
    inr ((named_entry-Undotted (normalize_lowered_dedotted_into component) entry named).1),
  )

  -- A process that is taken for a game by its name has the normal form of a title or an alias of that
  -- game as its stem or as a folder above it, with or without the dots.
  pub match_name_or_folder-Carries :
      (w : Readings) (path : Bytes) (pid : ℕ)
      → Each (λ hit. Carries path hit.entry) (match_name_or_folder w b path pid)
  match_name_or_folder-Carries w path pid =
      match_name_or_folder-Each w b (λ hit. Carries path hit.entry) path pid
        (λ entry named live. inl ((named_entry-Titled (exe_stem path) entry named).1))
        (λ entry named live. inr (InFolder-Above path entry named))
