-- ===== src/Detect/Matching/Warranted.antt =====
-- What a hit of match_process stands on, in a generation that build_bundle has made.
use discord_rich_presence.Prelude.{
  ◌≡◌, Bool, true, false, List, map, Option, none, some, Bytes, lower, list_key, nat_key,
}
use discord_rich_presence.Bridge.Handoff.{
  DetectSource, automaton, cwd_joined, proton_automaton, steam_app_id, steam_library,
  exe_stem as by_stem, folder,
}
use discord_rich_presence.Detect.Types.{ScannedEntry, ScannedHit, Exec}
use discord_rich_presence.Detect.Bundle.{DetectablesBundle, Automaton, Platform, build_bundle}
use discord_rich_presence.Detect.Bundle.Names.{Titled}
use discord_rich_presence.Detect.Bundle.Stores.{Sold}
use discord_rich_presence.Detect.Titles.{exe_stem}
use discord_rich_presence.Detect.Hits.{
  Readings, is_suspended, argv_names_an_executable, is_excluded,
}
use discord_rich_presence.Detect.Hits.Each.{Each}
use discord_rich_presence.Detect.Lookups.Named.{
  Above, IdOf-sold, InFolder-Above, named_entry-Titled,
}
use discord_rich_presence.Detect.AppIds.{is_steam_sidecar}
use discord_rich_presence.Detect.Matching.{
  id_of_process, joined_path, path_of, basename_of, match_process,
}
use discord_rich_presence.Detect.Matching.Evidence.{
  Direct, IsProbed, BySource, match_process-Evidence,
}

Each-map :
    (P Q : ScannedHit → Type 0) (o : Option ScannedHit)
    → ((hit : ScannedHit) → P hit → Q hit)
    → Each P o
    → Each Q o
Each-map P Q none f p = tt
Each-map P Q (some hit) f p = f hit p

module _ (os : Platform) (build : List Bytes → Option Automaton)
    (detectable custom : List ScannedEntry) (b : DetectablesBundle)
    (built : build_bundle os build detectable custom ≡ some b) (w : Readings) (process : Exec) where
  -- The entry has the store id, and declares no executable or one that names the path.
  abbrev pub Sells : Bytes → Bytes → ScannedEntry → Type 0
  Sells path id entry = Sold entry id × (argv_names_an_executable (map lower path) entry ≡ true)

  -- What each source of a hit vouches for.
  abbrev pub Vouches : Bytes → DetectSource → ScannedEntry → Type 0
  Vouches path automaton entry = Direct b process path entry
  Vouches path cwd_joined entry =
      (candidate : Bytes) × (joined_path w process.pid path ≡ some candidate)
      × Direct b process candidate entry
  Vouches path proton_automaton entry =
      (candidate : Bytes) × IsProbed w b process path candidate × Direct b process candidate entry
  Vouches path steam_app_id entry =
      (id : Bytes) × (id_of_process w process ≡ some id) × Sells path id entry
  Vouches path steam_library entry =
      (id : Bytes) × (w.match_prefix (map lower path) ≡ some id) × Sells path id entry
  Vouches path by_stem entry = Titled entry (exe_stem (map lower path))
  Vouches path folder entry = Above os build detectable custom b built (map lower path) entry

  abbrev pub Warrant : Bytes → ScannedHit → Type 0
  Warrant path hit =
      (hit.pid ≡ process.pid)
      × (is_suspended w process.pid ≡ false)
      × Vouches path hit.source hit.entry

  BySource-Vouches :
      (path : Bytes) (source : DetectSource) (entry : ScannedEntry)
      → BySource w b process path source entry
      → Vouches path source entry
  BySource-Vouches path automaton entry e = e
  BySource-Vouches path cwd_joined entry e = e
  BySource-Vouches path proton_automaton entry e = e
  BySource-Vouches path steam_app_id entry (id, known, (stored, names)) =
      (id, known, (IdOf-sold os build detectable custom b built id entry stored, names))
  BySource-Vouches path steam_library entry (id, inside, (stored, names)) =
      (id, inside, (IdOf-sold os build detectable custom b built id entry stored, names))
  BySource-Vouches path by_stem entry named =
      (named_entry-Titled os build detectable custom b built (exe_stem (map lower path)) entry
        named).1
  BySource-Vouches path folder entry named =
      InFolder-Above os build detectable custom b built (map lower path) entry named

  -- A process that is taken for a game, in a generation of the database that build_bundle has made, is
  -- neither excluded nor a helper of Steam nor read as suspended, and the entry is what the source of
  -- the hit says: an executable of it names a spelling of the path that was probed and its arguments
  -- are there; or it has the store id of the process or of its library, and declares no executable or
  -- one that names the path; or the stem of the path, or a folder above it, is the normal form of its
  -- title or of an alias, with or without the dots.
  pub match_process-Warranted :
      (obs_open : Bool)
      → Each
          (λ hit.
            (is_excluded w.exclusions (basename_of (path_of process)) ≡ false)
            × (is_steam_sidecar (basename_of (path_of process)) ≡ false)
            × Warrant (path_of process) hit)
          (match_process w b process obs_open).1
  match_process-Warranted obs_open =
      Each-map _ _ (match_process w b process obs_open).1
        (λ hit (seen, own, (same, live, e)).
          (seen, own, (same, live, BySource-Vouches (path_of process) hit.source hit.entry e)))
        (match_process-Evidence w b process obs_open)
