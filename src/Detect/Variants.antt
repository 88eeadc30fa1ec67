-- ===== src/Detect/Variants.antt =====
-- crates/rsrpc-detect/src/bundle.rs: the spellings of a process path without its 64-bit markers.
pub mod Erased
pub mod Distinct
use discord_rich_presence.Prelude.{
  ℕ, zero, suc, ◌+◌, Bool, true, false, not, ◌&&◌, ◌||◌, List, [], ◌∷◌, ◌++◌, length, take, drop,
  leb, eqn, Option, none, some, map_some, is_none, if◌then◌else◌, Bytes, codes, contains, list_key,
  nat_key, ◌==◌,
}
use discord_rich_presence.Detect.Paths.{is_empty}

unfoldable pub starts_with : Bytes → Bytes → Bool
starts_with s [] = true
starts_with [] (m ∷ marker) = false
starts_with (c ∷ s) (m ∷ marker) = eqn c m && starts_with s marker

-- `str::find`: where the first occurrence begins.
unfoldable pub find : Bytes → Bytes → Option ℕ
find [] marker = if starts_with [] marker then some 0 else none
find (c ∷ s) marker =
    if starts_with (c ∷ s) marker then some 0 else map_some (λ at. suc at) (find s marker)

abbrev pub contains_text : Bytes → Bytes → Bool
contains_text s marker = not (is_none (find s marker))

-- The markers of `MARKERS`, in order.
abbrev pub markers : List Bytes
markers = codes "64" ∷ codes ".x64" ∷ codes "x64" ∷ codes "_64" ∷ []

-- The loop of `remove_marker_into`; each round takes at least the marker off what is left.
unfoldable pub remove_rounds : ℕ → Bytes → Bytes → Bytes → Bytes
unfolding find
remove_rounds zero rest marker buf = buf ++ rest
remove_rounds (suc fuel) rest marker buf = elim (find rest marker) [
  | none ↦ buf ++ rest
  | some at ↦ remove_rounds fuel (drop (at + length marker) rest) marker (buf ++ take at rest)
]

unfoldable pub remove_marker_into : Bytes → Bytes → Bytes
unfolding remove_rounds
remove_marker_into path marker = remove_rounds (length path) path marker []

-- One round of the loop over the markers, with the slots that are filled.
unfoldable pub add_variant : Bytes → List Bytes → Bytes → List Bytes
unfolding find remove_marker_into
add_variant path filled marker =
    let candidate = remove_marker_into path marker in
    if not (contains_text path marker) || leb 5 (length filled)
    then filled
    else if not (candidate == path) && not (contains filled candidate)
    then filled ++ (candidate ∷ [])
    else filled

abbrev pub add_variants : Bytes → List Bytes → List Bytes → List Bytes
add_variants path filled [] = filled
add_variants path filled (marker ∷ rest) = add_variants path (add_variant path filled marker) rest

unfoldable pub path_variants_into : Bytes → List Bytes
unfolding add_variant
path_variants_into path = add_variants path (path ∷ []) markers

abbrev pub strip_slash : Bytes → Bytes
strip_slash [] = []
strip_slash (c ∷ s) = if eqn c b'/' then s else c ∷ s

unfoldable pub bare_exe : Bytes → Option Bytes
bare_exe path =
    let trimmed = strip_slash path in
    if is_empty trimmed || contains trimmed b'/' then none else some trimmed
