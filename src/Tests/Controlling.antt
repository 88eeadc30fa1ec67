-- ===== src/Tests/Controlling.antt =====
-- A consumer that names the user, twice.
use discord_rich_presence.Prelude.{
  ◌≡◌, refl, ap, ◌==◌, true, none, some, codes, string_key, if◌then◌else◌,
}
use discord_rich_presence.Types.Json.{Value, string, object, field, end, lookup_field, as_str}
use discord_rich_presence.Types.User.{
  RpcUser, default_user, from_env, without_leading, without_trailing, non_blank, patch_text,
  patch_number, patch_fields, patch, as_u64, apply_env_map,
}
use discord_rich_presence.Bridge.Control.{
  JsonCodec, same_user, answer_control, handle_bridge_control,
}
use discord_rich_presence.Bridge.Control.Quiet.{control_quiet}

abbrev naming : Value
naming = object (
    field "type" (string "SET_USER") (
      field "patch" (object (field "username" (string " web ") (field "id" (string "  ") end)))
        end))

abbrev codec : JsonCodec
codec = record {
  parse = λ message. some naming;
  same = λ v w. true;
  ack_text = λ ack. some (codes ack.user.username);
  update_text = λ user. codes user.username;
  to_msgpack = λ printed. none;
}

abbrev named : RpcUser
named = record default_user { username = "web" }

answered :
    handle_bridge_control codec default_user (codes "{}") default_user
    ≡ (named, some (codes "web", some named))
unfolding handle_bridge_control answer_control same_user patch patch_fields patch_text patch_number
    non_blank without_leading without_trailing as_u64 lookup_field as_str
answered = refl

control_quiet_example :
    handle_bridge_control codec default_user
      (codes "{}")
      (handle_bridge_control codec default_user (codes "{}") default_user).0
    ≡ (
      (handle_bridge_control codec default_user (codes "{}") default_user).0,
      some (codes "web", none),
    )
control_quiet_example =
    control_quiet codec (λ v. refl) default_user (codes "{}") default_user (codes "web")
      (some named) (ap (λ r. r.1) answered)

-- A blank value of the environment is ignored.
from_env_blank : from_env (λ key. if key == "RSRPC_USER_ID" then some " " else none) ≡ default_user
unfolding apply_env_map non_blank without_leading without_trailing
from_env_blank = refl
