-- ===== src/Detect/AppIds.antt =====
-- crates/rsrpc-detect/src/scan.rs: application ids on a command line, and Steam's own helpers.
use discord_rich_presence.Prelude.{
  ℕ, zero, suc, ◌+◌, ◌-◌, ◌*◌, ◌/◌, ◌%◌, ◌^◌, take, Bool, true, false, not, ◌&&◌, ◌||◌, List, [],
  ◌∷◌, Option, none, some, ◌>>=◌, is_some_and, length, ltb, leb, eqn, drop, Bytes, codes, contains,
  list_key, nat_key, string_key, if◌then◌else◌,
}
use discord_rich_presence.Detect.Paths.{is_empty}
use discord_rich_presence.Detect.Variants.{starts_with, find}

abbrev pub is_digit : ℕ → Bool
is_digit c = leb b'0' c && leb c b'9'

abbrev pub take_digits : Bytes → Bytes
take_digits [] = []
take_digits (c ∷ s) = if is_digit c then c ∷ take_digits s else []

abbrev pub is_alphanumeric : ℕ → Bool
is_alphanumeric c = is_digit c || leb b'A' c && leb c b'Z' || leb b'a' c && leb c b'z'

-- No letter and no digit ends the text.
abbrev pub ends_word : Bytes → Bool
ends_word [] = true
ends_word (c ∷ []) = not (is_alphanumeric c)
ends_word (c ∷ d ∷ s) = ends_word (d ∷ s)

abbrev pub app_id_token : Bytes
app_id_token = codes "AppId="

-- The loop over the occurrences of the token; each round takes one off what is left.
unfoldable pub app_id_rounds : ℕ → Bytes → Option Bytes
unfolding find
app_id_rounds zero rest = none
app_id_rounds (suc fuel) rest = elim (find rest app_id_token) [
  | none ↦ none
  | some pos ↦
      let behind = drop (pos + 6) rest in
      let digits = take_digits behind in
      let further = app_id_rounds fuel behind in
      if ends_word (take pos rest) && not (is_empty digits) then some digits else further
]

unfoldable pub app_id_from_args : Option Bytes → Option Bytes
unfolding app_id_rounds
app_id_from_args arguments = arguments >>= (λ args. app_id_rounds (length args + 1) args)

abbrev pub decimal : ℕ → Bytes → Option ℕ
decimal value [] = some value
decimal value (c ∷ s) = if is_digit c then decimal (10 * value + (c - b'0')) s else none

abbrev pub without_plus : Bytes → Bytes
without_plus [] = []
without_plus (c ∷ s) = if eqn c b'+' then s else c ∷ s

-- `str::parse::<u32>`
unfoldable pub parse_u32 : Bytes → Option ℕ
parse_u32 text = do
  let digits = without_plus text
  value ← decimal 0 digits
  if is_empty digits || not (ltb value (2 ^ 32)) then none else some value

unfoldable pub is_shortcut_id : Bytes → Bool
unfolding parse_u32
is_shortcut_id app_id = is_some_and (parse_u32 app_id) (λ id. eqn (id / 2 ^ 31 % 2) 1)

abbrev pub steam_sidecar_basenames : List Bytes
steam_sidecar_basenames =
    codes "steamapprun"
    ∷ codes "fossilize"
    ∷ codes "wineserver"
    ∷ codes "wineboot"
    ∷ codes "proton"
    ∷ codes "protonfixes"
    ∷ codes "pressure-vessel"
    ∷ codes "pressure-vessel-arm64"
    ∷ codes "bwrap"
    ∷ codes "steamwebhelper"
    ∷ codes "steam-runtime"
    ∷ codes "pv-wrap"
    ∷ codes "run-in-soldier"
    ∷ []

abbrev pub joins_suffix : Bytes → Bool
joins_suffix [] = false
joins_suffix (c ∷ rest) = eqn c b'-' || eqn c b'_'

unfoldable pub matches_sidecar_family : Bytes → Bytes → Bool
unfolding starts_with
matches_sidecar_family basename base =
    starts_with basename base && joins_suffix (drop (length base) basename)

unfoldable pub is_steam_sidecar : Bytes → Bool
unfolding matches_sidecar_family
is_steam_sidecar basename =
    contains steam_sidecar_basenames basename
    || matches_sidecar_family basename (codes "fossilize")
    || matches_sidecar_family basename (codes "steam-runtime")
    || matches_sidecar_family basename (codes "pv-wrap")
