-- ===== src/Detect/Bundle.antt =====
-- crates/rsrpc-detect/src/bundle.rs: one generation of the database, as the matchers read it. The
-- automata come from a library: one is a function from a text to the numbers of the patterns that it
-- holds, in the order in which the library reports them.
pub mod Names
pub mod Stores
pub mod Tables
use discord_rich_presence.Prelude.{
  ℕ, ◌+◌, ◌-◌, ◌^◌, Bool, true, false, not, ◌&&◌, ◌||◌, List, [], ◌∷◌, ◌++◌, map, Option, none,
  some, ◌>>=◌, map_some, get_elem?, String, ◌==◌, string_key, list_key, nat_key, contains, eqn, ltb,
  leb, if◌then◌else◌, Bytes, codes, unwrap_or,
}
use discord_rich_presence.Detect.Types.{ScannedExe, ScannedEntry, OsName, os_as_str}
use discord_rich_presence.Detect.Index.{IndexEntry, build_index}
use discord_rich_presence.Detect.Titles.{normalize_name, name_matchable, dedot}

abbrev pub Automaton : Type 0
Automaton = Bytes → List ℕ

-- An entry of the list, and an executable of it.
abbrev pub PatternIndex : Type 0
PatternIndex = ℕ × ℕ

abbrev pub u32_max : ℕ
u32_max = 2 ^ 32 - 1

abbrev pub saturated : ℕ → ℕ
saturated n = if leb n u32_max then n else u32_max

unfoldable pub pattern_index : ℕ → ℕ → PatternIndex
pattern_index activity exe = (saturated activity, saturated exe)

pub record DetectablesBundle : Type 0 where
  pub list : List ScannedEntry
  pub ac : Automaton
  pub indexes : List PatternIndex
  pub proton_ac : Option Automaton
  pub proton_indexes : List PatternIndex
  pub steam_map : List IndexEntry
  pub name_map : List IndexEntry
  pub name_map_nodot : List IndexEntry
  pub custom : List ScannedEntry
  pub custom_ac : Option Automaton
  pub custom_indexes : List PatternIndex

-- The operating system that the program was built for.
pub data Platform : Type 0 where
  windows macos linux_os other_os : Platform

unfoldable pub os_matches : Platform → String → Bool
os_matches windows os = os == "win32"
os_matches macos os = os == "darwin"
os_matches linux_os os = os == "linux"
os_matches other_os os = true

abbrev pub slashed : ℕ → ℕ
slashed c = if eqn c b'\\' then b'/' else c

abbrev pub with_slash : Bytes → Bytes
with_slash [] = b'/' ∷ []
with_slash (c ∷ name) =
    if eqn c b'>' then b'/' ∷ name else if eqn c b'/' then c ∷ name else b'/' ∷ (c ∷ name)

abbrev pub reversed : Bytes → Bytes
reversed [] = []
reversed (c ∷ s) = reversed s ++ (c ∷ [])

unfoldable pub normalize_exe_pattern : Bytes → Bytes
normalize_exe_pattern name = reversed (with_slash (map slashed name))

-- Patterns, with what each stands for.
pub record Patterns : Type 0 where
  pub patterns : List Bytes
  pub indexes : List PatternIndex

abbrev pub no_patterns : Patterns
no_patterns = record { patterns = []; indexes = [] }

abbrev pub push_pattern : Bytes → PatternIndex → Patterns → Patterns
push_pattern pattern index p = record {
  patterns = p.patterns ++ (pattern ∷ []);
  indexes = p.indexes ++ (index ∷ []);
}

abbrev pub is_no_os : OsName → Bool
is_no_os OsName.no_os = true
is_no_os _ = false

abbrev pub is_win32 : OsName → Bool
is_win32 OsName.win32 = true
is_win32 _ = false

-- What the walk does with one executable: in which table its pattern goes.
abbrev pub Eligible : Type 0
Eligible = ScannedExe → Bool

abbrev pub is_native : Platform → Eligible
is_native os exe = is_no_os exe.os || os_matches os (os_as_str exe.os)

abbrev pub is_proton : Platform → Eligible
is_proton linux_os exe = is_win32 exe.os
is_proton _ exe = false

abbrev pub any_os : Eligible
any_os exe = true

-- Names that normalize to `/` would match every path.
unfoldable pub add_pattern : Eligible → ℕ → ℕ → ScannedExe → Patterns → Patterns
unfolding normalize_exe_pattern pattern_index
add_pattern eligible activity exe_index exe p =
    let pattern = normalize_exe_pattern (codes exe.name) in
    if exe.is_launcher || not (eligible exe) || pattern == (b'/' ∷ [])
    then p
    else push_pattern pattern (pattern_index activity exe_index) p

unfoldable pub walk_executables : Eligible → ℕ → ℕ → List ScannedExe → Patterns → Patterns
unfolding add_pattern
walk_executables eligible activity exe_index [] p = p
walk_executables eligible activity exe_index (exe ∷ exes) p =
    walk_executables eligible activity (exe_index + 1) exes
      (add_pattern eligible activity exe_index exe p)

unfoldable pub walk_entries : Eligible → ℕ → List ScannedEntry → Patterns → Patterns
unfolding walk_executables
walk_entries eligible activity [] p = p
walk_entries eligible activity (entry ∷ entries) p =
    walk_entries eligible (activity + 1) entries
      (walk_executables eligible activity 0 entry.executables p)

-- One walk feeds both tables in the source; an executable goes to each by a test of its own.
unfoldable pub collect_split_patterns : Platform → List ScannedEntry → Patterns × Patterns
unfolding walk_entries os_matches
collect_split_patterns os entries = (
  walk_entries (is_native os) 0 entries no_patterns,
  walk_entries (is_proton os) 0 entries no_patterns,
)

abbrev pub push_key : Bytes → ℕ → List IndexEntry → List IndexEntry
push_key key index out = out ++ ((key, index) ∷ [])

unfoldable pub push_name : ℕ → String → List IndexEntry → List IndexEntry
unfolding name_matchable normalize_name
push_name index name out =
    let normalized = normalize_name (codes name) in
    if name_matchable normalized then push_key normalized index out else out

abbrev pub push_names : ℕ → List String → List IndexEntry → List IndexEntry
push_names index [] out = out
push_names index (name ∷ names) out = push_names index names (push_name index name out)

unfoldable pub collect_names_from : ℕ → List ScannedEntry → List IndexEntry → List IndexEntry
unfolding push_name
collect_names_from index [] out = out
collect_names_from index (entry ∷ entries) out =
    collect_names_from (index + 1) entries (push_names index (entry.name ∷ entry.aliases) out)

abbrev pub collect_names : List ScannedEntry → List IndexEntry
collect_names entries = collect_names_from 0 entries []

abbrev pub push_ids : ℕ → List String → List IndexEntry → List IndexEntry
push_ids index [] out = out
push_ids index (id ∷ ids) out =
    push_ids index ids (if id == "" then out else push_key (codes id) index out)

unfoldable pub collect_ids : ℕ → List ScannedEntry → List IndexEntry → List IndexEntry
collect_ids index [] out = out
collect_ids index (entry ∷ entries) out =
    collect_ids (index + 1) entries (push_ids index entry.steam_ids out)

unfoldable pub build_aux_maps : List ScannedEntry → List IndexEntry × List IndexEntry
unfolding collect_ids collect_names_from
build_aux_maps entries =
    (build_index (collect_ids 0 entries []), build_index (collect_names entries))

-- The keys that contain a dot.
abbrev pub dotted : List IndexEntry → List IndexEntry
dotted [] = []
dotted ((key, index) ∷ l) = if contains key b'.' then (key, index) ∷ dotted l else dotted l

-- `sort_by_key` on the index, which is stable.
unfoldable pub insert_by_index : IndexEntry → List IndexEntry → List IndexEntry
insert_by_index e [] = e ∷ []
insert_by_index e (x ∷ l) = if ltb x.1 e.1 then x ∷ insert_by_index e l else e ∷ x ∷ l

unfoldable pub sort_by_index : List IndexEntry → List IndexEntry
unfolding insert_by_index
sort_by_index [] = []
sort_by_index (e ∷ l) = insert_by_index e (sort_by_index l)

abbrev pub dedotted : List IndexEntry → List IndexEntry
dedotted [] = []
dedotted ((key, index) ∷ l) = (dedot key, index) ∷ dedotted l

unfoldable pub undotted_names : List IndexEntry → List IndexEntry
unfolding sort_by_index dedot
undotted_names name_map = build_index (dedotted (sort_by_index (dotted name_map)))

-- An automaton over patterns, if there are any.
abbrev pub some_automaton : (List Bytes → Option Automaton) → List Bytes → Option (Option Automaton)
some_automaton build [] = some none
some_automaton build (p ∷ patterns) = map_some (λ ac. some ac) (build (p ∷ patterns))

abbrev pub custom_tables :
    (List Bytes → Option Automaton)
    → List ScannedEntry
    → Option (Option Automaton × List PatternIndex)
custom_tables build [] = some (none, [])
custom_tables build (entry ∷ custom) =
    let p = walk_entries any_os 0 (entry ∷ custom) no_patterns in
    map_some (λ ac. (some ac, p.indexes)) (build p.patterns)

unfoldable pub build_bundle :
    Platform
    → (List Bytes → Option Automaton)
    → List ScannedEntry
    → List ScannedEntry
    → Option DetectablesBundle
unfolding collect_split_patterns build_aux_maps undotted_names walk_entries
build_bundle os build detectable custom = do
  let split = collect_split_patterns os detectable
  ac ← build split.0.patterns
  proton ← some_automaton build split.1.patterns
  let maps = build_aux_maps detectable
  tables ← custom_tables build custom
  some (record {
    list = detectable;
    ac = ac;
    indexes = split.0.indexes;
    proton_ac = proton;
    proton_indexes = split.1.indexes;
    steam_map = maps.0;
    name_map = maps.1;
    name_map_nodot = undotted_names maps.1;
    custom = custom;
    custom_ac = tables.0;
    custom_indexes = tables.1;
  })
