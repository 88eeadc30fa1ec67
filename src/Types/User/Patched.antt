-- ===== src/Types/User/Patched.antt =====
-- crates/rsrpc-types/src/user.rs: a patch of an identity that comes twice.
use discord_rich_presence.Prelude.{
  ◌≡◌, refl, String, Option, none, some, ◌>>=◌, map_some, unwrap_or, arith,
}
use discord_rich_presence.Types.Json.{
  Value, null, bool, number, string, array, object, lookup_field,
}
use discord_rich_presence.Types.User.{
  RpcUser, or_keep, as_bool, as_u64, clamped, patch_text, patch_avatar, patch_number, patch_fields,
  patch,
}

or_again {ℓ} : {A : Type ℓ} (o : Option A) (a : A) → unwrap_or o (unwrap_or o a) ≡ unwrap_or o a
or_again none a = refl
or_again (some b) a = refl

keep_again {ℓ} : {A : Type ℓ} (o a : Option A) → or_keep o (or_keep o a) ≡ or_keep o a
keep_again none a = refl
keep_again (some b) a = refl

avatar_again :
    (v : Option Value) (a : Option String) → patch_avatar v (patch_avatar v a) ≡ patch_avatar v a
avatar_again none a = refl
avatar_again (some null) a = refl
avatar_again (some (bool b)) a = refl
avatar_again (some (number n)) a = refl
avatar_again (some (string s)) a = refl
avatar_again (some (array l)) a = refl
avatar_again (some (object l)) a = refl

-- A patch that comes again changes nothing.
pub patch-patch : (v : Value) (user : RpcUser) → patch v (patch v user) ≡ patch v user
unfolding patch patch_fields patch_number
patch-patch null user = refl
patch-patch (bool b) user = refl
patch-patch (number n) user = refl
patch-patch (string s) user = refl
patch-patch (array l) user = refl
patch-patch (object obj) user = ground (
  arith,
  or_again (patch_text obj "id") user.id,
  or_again (patch_text obj "username") user.username,
  keep_again (patch_text obj "global_name") user.global_name,
  or_again (patch_text obj "discriminator") user.discriminator,
  avatar_again (lookup_field "avatar" obj) user.avatar,
  or_again (lookup_field "bot" obj >>= as_bool) user.bot,
  or_again (map_some clamped (lookup_field "flags" obj >>= as_u64)) user.flags,
  or_again (map_some clamped (lookup_field "premium_type" obj >>= as_u64)) user.premium_type,
)
