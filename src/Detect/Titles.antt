-- ===== src/Detect/Titles.antt =====
-- crates/rsrpc-detect/src/scan.rs: normal forms of titles, folders and executable stems.
pub mod Normal
pub mod Trimmed
pub mod Folders
use discord_rich_presence.Prelude.{
  ℕ, Bool, true, false, not, ◌&&◌, ◌||◌, List, [], ◌∷◌, ◌++◌, map, length, leb, ltb, eqn, select,
  Option, none, some, if◌then◌else◌, Bytes, lower, is_whitespace, contains, nat_key,
}
use discord_rich_presence.Detect.Paths.{is_empty}

-- Punctuation that Windows forbids in file names.
abbrev pub is_forbidden : ℕ → Bool
is_forbidden c =
    eqn c b'<'
    || eqn c b'>'
    || eqn c b':'
    || eqn c b'"'
    || eqn c b'/'
    || eqn c b'\\'
    || eqn c b'|'
    || eqn c b'?'
    || eqn c b'*'

abbrev pub push_first : ℕ → List Bytes → List Bytes
push_first c [] = (c ∷ []) ∷ []
push_first c (w ∷ ws) = (c ∷ w) ∷ ws

-- `str::split` by a test on characters.
unfoldable pub split_where : (ℕ → Bool) → Bytes → List Bytes
split_where p [] = [] ∷ []
split_where p (c ∷ s) = if p c then [] ∷ split_where p s else push_first c (split_where p s)

-- `.filter(|word| !word.is_empty())`
abbrev pub words : (ℕ → Bool) → Bytes → List Bytes
words p s = select (λ w. not (is_empty w)) (split_where p s)

abbrev pub trim_start : Bytes → Bytes
trim_start [] = []
trim_start (c ∷ s) = if is_whitespace c then trim_start s else c ∷ s

abbrev pub end_here : ℕ → Bytes → Bytes
end_here c rest = if is_whitespace c && is_empty rest then [] else c ∷ rest

abbrev pub trim_end : Bytes → Bytes
trim_end [] = []
trim_end (c ∷ s) = end_here c (trim_end s)

abbrev pub trim : Bytes → Bytes
trim s = trim_end (trim_start s)

-- `.join(" ")`
abbrev pub join : List Bytes → Bytes
join [] = []
join (w ∷ []) = w
join (w ∷ v ∷ ws) = w ++ (b' ' ∷ join (v ∷ ws))

abbrev pub blanked : ℕ → ℕ
blanked c = if is_forbidden c then b' ' else c

unfoldable pub normalize_name : Bytes → Bytes
unfolding split_where
normalize_name name = join (words is_whitespace (map blanked (map lower (trim name))))

abbrev pub is_break : ℕ → Bool
is_break c = is_whitespace c || is_forbidden c

-- The loop over the words, with its flag for the first one.
unfoldable pub push_words : Bool → Bytes → List Bytes → Bytes
push_words first out [] = out
push_words first out (w ∷ ws) =
    push_words false ((if first then out else out ++ (b' ' ∷ [])) ++ w) ws

unfoldable pub normalize_lowered_into : Bytes → Bytes
unfolding split_where push_words
normalize_lowered_into name = push_words true [] (words is_break name)

unfoldable pub normalize_name_into : Bytes → Bytes
unfolding normalize_lowered_into
normalize_name_into name = normalize_lowered_into (map lower (trim name))

abbrev pub is_dotted_break : ℕ → Bool
is_dotted_break c = is_whitespace c || eqn c b'.' || is_forbidden c

unfoldable pub normalize_lowered_dedotted_into : Bytes → Bytes
unfolding split_where push_words
normalize_lowered_dedotted_into name = push_words true [] (words is_dotted_break name)

-- `replace('.', " ")` before the same collapse.
abbrev pub undotted : ℕ → ℕ
undotted c = if eqn c b'.' then b' ' else c

unfoldable pub dedot : Bytes → Bytes
unfolding split_where
dedot name = join (words is_whitespace (map undotted name))

unfoldable pub name_matchable : Bytes → Bool
name_matchable normalized = contains normalized b' ' && leb 6 (length normalized)

-- `rsplit('/')`: the components from the last to the first.
abbrev pub reverse_onto : List Bytes → List Bytes → List Bytes
reverse_onto [] out = out
reverse_onto (w ∷ ws) out = reverse_onto ws (w ∷ out)

unfoldable pub components : Bytes → List Bytes
unfolding split_where
components path = reverse_onto (split_where (λ c. eqn c b'/') path) []

abbrev pub first_component : List Bytes → Bytes → Bytes
first_component [] path = path
first_component (base ∷ rest) path = base

abbrev pub skip_first : List Bytes → List Bytes
skip_first [] = []
skip_first (base ∷ rest) = rest

-- `rfind('.')`: what stands before the last dot, if there is one.
abbrev pub before_dot : Bytes → Option Bytes
before_dot [] = none
before_dot (c ∷ s) = elim (before_dot s) [
  | some stem ↦ some (c ∷ stem)
  | none ↦ if eqn c b'.' then some [] else none
]

abbrev pub stem_of : Bytes → Option Bytes → Bytes
stem_of base none = base
stem_of base (some stem) = if is_empty stem then base else stem

unfoldable pub exe_stem : Bytes → Bytes
unfolding components
exe_stem path = let base = first_component (components path) path in stem_of base (before_dot base)
