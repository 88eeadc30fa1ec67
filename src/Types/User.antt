-- ===== src/Types/User.antt =====
-- crates/rsrpc-types/src/user.rs: the identity that every transport presents, and how a consumer
-- patches it.
pub mod Patched
use Prim.Native.Char.{code}
use discord_rich_presence.Prelude.{
  ℕ, ◌+◌, ◌-◌, ◌*◌, ◌^◌, ◌≤◌, ◌≡◌, ◌≢◌, refl, inl, inr, String, Bool, true, false, ◌&&◌, not,
  Option, none, some, ◌>>=◌, map_some, unwrap_or, Option-cases, Bool-cases, leb, ltb, eqn,
  if◌then◌else◌, is_whitespace, ◌==◌, string_key, string_iff, arith,
}
use discord_rich_presence.Types.Json.{
  Value, null, bool, number, string, array, object, Fields, lookup_field, as_str,
}

pub record RpcUser : Type 0 where
  pub id : String
  pub username : String
  pub discriminator : String
  pub global_name : Option String
  pub avatar : Option String
  pub avatar_decoration_data : Option Value
  pub bot : Bool
  pub flags : ℕ
  pub premium_type : ℕ

abbrev pub default_user : RpcUser
default_user = record {
  id = "1045800378228281345";
  username = "arRPC";
  discriminator = "0000";
  global_name = some "arRPC";
  avatar = some "cfefa4d9839fb4bdf030f91c2a13e95c";
  avatar_decoration_data = none;
  bot = false;
  flags = 0;
  premium_type = 0;
}

abbrev pub is_empty_text : String → Bool
is_empty_text String.[] = true
is_empty_text (String.◌∷◌ c s) = false

unfoldable pub without_leading : String → String
without_leading String.[] = String.[]
without_leading (String.◌∷◌ c s) =
    if is_whitespace (code c) then without_leading s else String.◌∷◌ c s

unfoldable pub without_trailing : String → String
without_trailing String.[] = String.[]
without_trailing (String.◌∷◌ c s) =
    let rest = without_trailing s in
    if is_whitespace (code c) && is_empty_text rest then String.[] else String.◌∷◌ c rest

-- `trim` and the filter on empty texts.
unfoldable pub non_blank : String → Option String
unfolding without_leading without_trailing
non_blank value =
    let text = without_trailing (without_leading value) in
    if is_empty_text text then none else some text

abbrev pub or_keep {ℓ} : {A : Type ℓ} → Option A → Option A → Option A
or_keep none old = old
or_keep (some a) old = some a

-- `RSRPC_USER_*`
unfoldable pub apply_env_map : (String → Option String) → RpcUser → RpcUser
unfolding non_blank
apply_env_map env user = record user {
  id = unwrap_or (env "RSRPC_USER_ID" >>= non_blank) user.id;
  username = unwrap_or (env "RSRPC_USER_USERNAME" >>= non_blank) user.username;
  global_name = or_keep (env "RSRPC_USER_GLOBAL_NAME" >>= non_blank) user.global_name;
  discriminator = unwrap_or (env "RSRPC_USER_DISCRIMINATOR" >>= non_blank) user.discriminator;
  avatar = or_keep (env "RSRPC_USER_AVATAR" >>= non_blank) user.avatar;
}

abbrev pub from_env : (String → Option String) → RpcUser
from_env env = apply_env_map env default_user

abbrev pub as_bool : Value → Option Bool
as_bool (bool b) = some b
as_bool null = none
as_bool (number n) = none
as_bool (string s) = none
as_bool (array l) = none
as_bool (object l) = none

abbrev pub digits : ℕ → String → Option ℕ
digits value String.[] = some value
digits value (String.◌∷◌ c s) =
    if leb b'0' (code c) && leb (code c) b'9' then digits (10 * value + (code c - b'0')) s else none

-- A number above the range of `u64` is read as a float, and is none.
abbrev pub below_u64 : ℕ → Option ℕ
below_u64 n = if ltb n (2 ^ 64) then some n else none

unfoldable pub as_u64 : Value → Option ℕ
as_u64 (number n) = if is_empty_text n then none else digits 0 n >>= below_u64
as_u64 null = none
as_u64 (bool b) = none
as_u64 (string s) = none
as_u64 (array l) = none
as_u64 (object l) = none

-- `u32::try_from(value).unwrap_or(u32::MAX)`
abbrev pub clamped : ℕ → ℕ
clamped n = if ltb n (2 ^ 32) then n else 2 ^ 32 - 1

unfoldable pub patch_text : Fields → String → Option String
unfolding non_blank lookup_field as_str
patch_text obj key = lookup_field key obj >>= as_str >>= non_blank

-- A text replaces the avatar and null takes it away.
abbrev pub patch_avatar : Option Value → Option String → Option String
patch_avatar none avatar = avatar
patch_avatar (some (string value)) avatar = some value
patch_avatar (some null) avatar = none
patch_avatar (some (bool b)) avatar = avatar
patch_avatar (some (number n)) avatar = avatar
patch_avatar (some (array l)) avatar = avatar
patch_avatar (some (object l)) avatar = avatar

unfoldable pub patch_number : Fields → String → ℕ → ℕ
unfolding lookup_field as_u64
patch_number obj key old = unwrap_or (map_some clamped (lookup_field key obj >>= as_u64)) old

unfoldable pub patch_fields : Fields → RpcUser → RpcUser
unfolding patch_text patch_number lookup_field
patch_fields obj user = record user {
  id = unwrap_or (patch_text obj "id") user.id;
  username = unwrap_or (patch_text obj "username") user.username;
  global_name = or_keep (patch_text obj "global_name") user.global_name;
  discriminator = unwrap_or (patch_text obj "discriminator") user.discriminator;
  avatar = patch_avatar (lookup_field "avatar" obj) user.avatar;
  bot = unwrap_or (lookup_field "bot" obj >>= as_bool) user.bot;
  flags = patch_number obj "flags" user.flags;
  premium_type = patch_number obj "premium_type" user.premium_type;
}

-- What is no object patches nothing.
unfoldable pub patch : Value → RpcUser → RpcUser
unfolding patch_fields
patch (object obj) user = patch_fields obj user
patch null user = user
patch (bool b) user = user
patch (number n) user = user
patch (string s) user = user
patch (array l) user = user
