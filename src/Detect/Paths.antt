-- ===== src/Detect/Paths.antt =====
-- crates/rsrpc-detect/src/scan.rs: whether a declared executable names the path of a process. The
-- source compares bytes; here they are code points, which comes to the same, since UTF-8 encodes no
-- character inside another and only ASCII letters and separators are folded.
pub mod Tails
pub mod Bundles
pub mod Names
use Prim.Native.Char.{code}
use discord_rich_presence.Prelude.{
  codes, lower, is_whitespace, Bytes, ℕ, ◌+◌, ◌-◌, String, Bool, true, false, not, ◌||◌, ◌&&◌,
  Option, none, some, List, [], ◌∷◌, map, length, take, drop, leb, ltb, eqn, if◌then◌else◌,
}

-- A declared Windows separator is the `/` that the path carries.
abbrev pub folded_name : ℕ → ℕ
folded_name c = lower (if eqn c b'\\' then b'/' else c)

-- `zip(…).all(…)`: the shorter one ends the comparison.
unfoldable pub same_folded : Bytes → Bytes → Bool
same_folded [] name = true
same_folded (p ∷ path) [] = true
same_folded (p ∷ path) (n ∷ name) = eqn (lower p) (folded_name n) && same_folded path name

abbrev pub is_separator : ℕ → Bool
is_separator c = eqn c b'/' || eqn c b'\\'

abbrev pub starts_with_separator : Bytes → Bool
starts_with_separator [] = false
starts_with_separator (n ∷ name) = is_separator n

-- `rest.is_empty() || rest.last() == Some(&b'/')`
unfoldable pub ends_at_component : Bytes → Bool
ends_at_component [] = true
ends_at_component (c ∷ []) = eqn c b'/'
ends_at_component (c ∷ d ∷ rest) = ends_at_component (d ∷ rest)

unfoldable pub names_tail : Bytes → Bytes → Bool
unfolding same_folded ends_at_component
names_tail path name =
    let at = length path - length name in
    leb (length name) (length path)
    && same_folded (drop at path) name
    && (ends_at_component (take at path) || starts_with_separator name)

abbrev pub bundle_interior : Bytes
bundle_interior = codes "/contents/"

-- `[..].eq_ignore_ascii_case(..)`: as long, and the same letters.
unfoldable pub equal_ignoring_case : Bytes → Bytes → Bool
equal_ignoring_case [] [] = true
equal_ignoring_case [] (b ∷ bs) = false
equal_ignoring_case (a ∷ as') [] = false
equal_ignoring_case (a ∷ as') (b ∷ bs) = eqn (lower a) (lower b) && equal_ignoring_case as' bs

unfoldable pub starts_with_bundle_interior : Bytes → Bool
unfolding equal_ignoring_case
starts_with_bundle_interior rest =
    leb (length bundle_interior) (length rest)
    && equal_ignoring_case (take (length bundle_interior) rest) bundle_interior

-- The windows of the path from one position on, with whether a separator (or nothing) stands before
-- it.
unfoldable pub names_window : Bool → Bytes → Bytes → Bool
unfolding same_folded starts_with_bundle_interior
names_window fronted path name =
    leb (length name) (length path)
    && same_folded (take (length name) path) name
    && (fronted || starts_with_separator name)
    && starts_with_bundle_interior (drop (length name) path)

unfoldable pub any_window : Bool → Bytes → Bytes → Bool
unfolding names_window
any_window fronted [] name = names_window fronted [] name
any_window fronted (p ∷ path) name =
    names_window fronted (p ∷ path) name || any_window (eqn p b'/') path name

unfoldable pub names_a_bundle : Bytes → Bytes → Bool
unfolding any_window equal_ignoring_case
names_a_bundle path name =
    not (ltb (length name) 4)
    && equal_ignoring_case (drop (length name - 4) name) (codes ".app")
    && any_window true path name

-- The launcher mark is no part of the file name.
abbrev pub without_mark : Bytes → Bytes
without_mark [] = []
without_mark (c ∷ name) = if eqn c b'>' then name else c ∷ name

abbrev pub is_empty : Bytes → Bool
is_empty [] = true
is_empty (c ∷ name) = false

unfoldable pub exe_names_path : Bytes → Bytes → Bool
unfolding names_tail names_a_bundle
exe_names_path path name =
    let bare = without_mark name in
    not (is_empty bare) && (names_tail path bare || names_a_bundle path bare)
