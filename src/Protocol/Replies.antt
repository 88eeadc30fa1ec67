-- ===== src/Protocol/Replies.antt =====
-- crates/rsrpc-protocol/src/commands.rs: the replies to game clients, before they are serialized.
use discord_rich_presence.Types.User.{RpcUser}
use discord_rich_presence.Prelude.{
  ℕ, String, Option, none, some, List, [], ◌∷◌, string_key, contains, if◌then◌else◌, map_some,
}
use discord_rich_presence.Types.Ids.{AppId}
use discord_rich_presence.Types.Json.{Value}
use discord_rich_presence.Types.Cmd.{Activity, ActivityCmd, ActivityCmdArgs}

-- The `data` of a reply.
pub data ReplyData : Type 0 where
  subscribe_data : Option String → ReplyData
  error_data : ℕ → String → ReplyData
  user_data : Option RpcUser → ReplyData
  no_data : ReplyData
  activity_echo : Option (Activity × Option AppId) → ReplyData

pub record Reply : Type 0 where
  pub cmd : String
  pub body : ReplyData
  pub evt : Option String
  pub nonce : Value

unfoldable pub subscribe_ack : ActivityCmd → Reply
subscribe_ack c = record { cmd = c.cmd; body = subscribe_data c.evt; evt = none; nonce = c.nonce }

unfoldable pub user_response : ActivityCmd → Option RpcUser → Reply
user_response c user = record { cmd = c.cmd; body = user_data user; evt = none; nonce = c.nonce }

unfoldable pub generic_ack : ActivityCmd → Reply
generic_ack c = record { cmd = c.cmd; body = no_data; evt = none; nonce = c.nonce }

unfoldable pub rpc_error : String → Value → ℕ → String → Reply
rpc_error cmd nonce code message = record {
  cmd = cmd;
  body = error_data code message;
  evt = some "ERROR";
  nonce = nonce;
}

abbrev pub oauth_commands : List String
oauth_commands = "AUTHORIZE" ∷ "AUTHENTICATE" ∷ []

abbrev pub invite_commands : List String
invite_commands =
    "SEND_ACTIVITY_JOIN_INVITE" ∷ "CLOSE_ACTIVITY_REQUEST" ∷ "ACCEPT_ACTIVITY_INVITE"
    ∷ "ACTIVITY_INVITE_USER" ∷ []

abbrev pub client_commands : List String
client_commands =
    "GET_GUILD" ∷ "GET_GUILDS" ∷ "GET_CHANNEL" ∷ "GET_CHANNELS" ∷ "CREATE_CHANNEL_INVITE"
    ∷ "GET_RELATIONSHIPS" ∷ "SET_USER_VOICE_SETTINGS" ∷ "SET_USER_VOICE_SETTINGS_2" ∷ "PUSH_TO_TALK"
    ∷ "SELECT_VOICE_CHANNEL" ∷ "GET_SELECTED_VOICE_CHANNEL" ∷ "SELECT_TEXT_CHANNEL"
    ∷ "GET_VOICE_SETTINGS" ∷ "SET_VOICE_SETTINGS" ∷ "SET_VOICE_SETTINGS_2" ∷ "SET_CERTIFIED_DEVICES"
    ∷ "CAPTURE_SHORTCUT" ∷ "GET_IMAGE" ∷ "OVERLAY" ∷ "SET_OVERLAY_LOCKED"
    ∷ "OPEN_OVERLAY_ACTIVITY_INVITE" ∷ "OPEN_OVERLAY_GUILD_INVITE" ∷ "OPEN_OVERLAY_VOICE_SETTINGS"
    ∷ "GET_SKUS" ∷ "GET_ENTITLEMENTS" ∷ "START_PURCHASE" ∷ "VALIDATE_APPLICATION" ∷ []

-- The official error of a command that needs the real client.
unfoldable pub unsupported_command : String → Option (ℕ × String)
unsupported_command cmd =
    if contains oauth_commands cmd
    then some (5000, "Authorization requires the real Discord client")
    else if contains invite_commands cmd
    then some (5006, "No eligible activity: invites require the real Discord client")
    else if contains client_commands cmd
    then some (1000, "requires the real Discord client")
    else none

abbrev pub without_app : ActivityCmdArgs → ActivityCmdArgs
without_app args = record args {
  activity = map_some (λ (a : Activity). record a { application_id = none }) args.activity;
}

-- The command loses its activity's own application id; the echo carries the command's.
unfoldable pub set_activity_response : ActivityCmd → ActivityCmd × Option Reply
set_activity_response c =
    let args' = map_some without_app c.args in
    (
      record c { args = args' },
      map_some
          (λ (args : ActivityCmdArgs). record {
            cmd = c.cmd;
            body = activity_echo (map_some (λ a. (a, c.application_id)) args.activity);
            evt = none;
            nonce = c.nonce;
          })
          args',
    )
