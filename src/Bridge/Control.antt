-- ===== src/Bridge/Control.antt =====
-- crates/rsrpc-bridge/src/control.rs and the consumer pump of bridge.rs: what a consumer's message
-- does. Parsing and printing JSON, comparing its values, and the MessagePack form of a frame come from
-- libraries and are arguments, as is the identity that the environment gives at startup.
pub mod Quiet
use discord_rich_presence.Prelude.{
  ℕ, ◌≡◌, String, Bool, true, false, not, ◌&&◌, Option, none, some, ◌>>=◌, map_some, unwrap_or,
  List, [], ◌∷◌, ◌++◌, length, if◌then◌else◌, eqn, Bytes, ◌==◌, string_key, nat_key, option_key,
  option_eq,
}
use discord_rich_presence.Prelude.HashMap.{HashMap, get, contains_key}
use discord_rich_presence.Types.Json.{Value, null, object, Fields, lookup_field, as_str}
use discord_rich_presence.Types.User.{RpcUser, patch}
use discord_rich_presence.Bridge.Shared.{
  BridgeProtocol, json, msgpack, ClientId, Message, text, binary, ConsumerMap, Shared, Outboxes,
}
use discord_rich_presence.Bridge.Joining.{try_send, send_frame}

pub record UserAck : Type 0 where
  pub ack_type : String
  pub nonce : Value
  pub success : Bool
  pub user : RpcUser

pub record JsonCodec : Type 0 where
  pub parse : Bytes → Option Value
  pub same : Value → Value → Bool
  pub ack_text : UserAck → Option Bytes
  -- `current_user_update`
  pub update_text : RpcUser → Bytes
  pub to_msgpack : Bytes → Option Bytes

-- `Value::get`
abbrev pub get_field : Value → String → Option Value
get_field (object fields) key = lookup_field key fields
get_field _ key = none

pub data Control : Type 0 where
  set_user reset_user : Control

abbrev pub control_of : String → Option Control
control_of msg_type =
    if msg_type == "SET_USER"
    then some set_user
    else if msg_type == "RESET_USER"
    then some reset_user
    else none

abbrev pub ack_type_of : Control → String
ack_type_of set_user = "SET_USER_ACK"
ack_type_of reset_user = "RESET_USER_ACK"

abbrev pub or_other : Option Value → Option Value → Option Value
or_other none other = other
or_other (some v) other = some v

abbrev pub patch_some : Option Value → RpcUser → RpcUser
patch_some none user = user
patch_some (some v) user = patch v user

-- What a control message makes of the identity.
abbrev pub controlled : RpcUser → Control → Value → RpcUser → RpcUser
controlled startup set_user body user =
    patch_some (or_other (get_field body "patch") (get_field body "data")) user
controlled startup reset_user body user = startup

abbrev pub same_option : (Value → Value → Bool) → Option Value → Option Value → Bool
same_option same none none = true
same_option same none (some w) = false
same_option same (some v) none = false
same_option same (some v) (some w) = same v w

abbrev pub same_flag : Bool → Bool → Bool
same_flag true b = b
same_flag false b = not b

-- `RpcUser`'s derived equality.
unfoldable pub same_user : JsonCodec → RpcUser → RpcUser → Bool
same_user j u v =
    u.id == v.id
    && u.username == v.username
    && u.discriminator == v.discriminator
    && u.global_name == v.global_name
    && u.avatar == v.avatar
    && same_option j.same u.avatar_decoration_data v.avatar_decoration_data
    && same_flag u.bot v.bot
    && eqn u.flags v.flags
    && eqn u.premium_type v.premium_type

abbrev pub ControlAnswer : Type 0
ControlAnswer = Option (Bytes × Option RpcUser)

abbrev pub ack_of : Control → Value → RpcUser → UserAck
ack_of control body user = record {
  ack_type = ack_type_of control;
  nonce = unwrap_or (get_field body "nonce") null;
  success = true;
  user = user;
}

-- Only a real change is handed on.
abbrev pub changed_to : JsonCodec → RpcUser → RpcUser → Option RpcUser
changed_to j user' user = if same_user j user' user then none else some user'

-- The identity is changed before the answer is printed, whether or not that succeeds.
unfoldable pub answer_control :
    JsonCodec → RpcUser → Control → Value → RpcUser → RpcUser × ControlAnswer
unfolding same_user
answer_control j startup control body user =
    let user' = controlled startup control body user in
    (
      user',
      map_some (λ printed. (printed, changed_to j user' user))
          (j.ack_text (ack_of control body user')),
    )

abbrev pub control_in : Value → Option Control
control_in body = get_field body "type" >>= as_str >>= control_of

abbrev pub control_message : JsonCodec → Bytes → Option (Control × Value)
control_message j message =
    j.parse message >>= (λ body. map_some (λ c. (c, body)) (control_in body))

unfoldable pub handle_bridge_control :
    JsonCodec → RpcUser → Bytes → RpcUser → RpcUser × ControlAnswer
unfolding answer_control
handle_bridge_control j startup message user = elim (control_message j message) [
  | none ↦ (user, none)
  | some (control, body) ↦ answer_control j startup control body user
]

-- A frame in the encoding that a consumer speaks.
abbrev pub frame_for : JsonCodec → Bytes → BridgeProtocol → Option Message
frame_for j printed json = some (text printed)
frame_for j printed msgpack = map_some (λ packed. binary packed) (j.to_msgpack printed)

-- One pass over the consumers; one that cannot be sent the frame is dropped.
unfoldable pub fan_out :
    Outboxes
    → (BridgeProtocol → Option Message)
    → ConsumerMap
    → List (ClientId × Message)
    → ConsumerMap × List (ClientId × Message)
fan_out accepts frame [] log = ([], log)
fan_out accepts frame ((id, protocol) ∷ cs) log = elim (frame protocol) [
  | none ↦ fan_out accepts frame cs log
  | some message ↦ elim (accepts (length log) id) [
    | true ↦
        (let rest = fan_out accepts frame cs (log ++ ((id, message) ∷ [])) in
          ((id, protocol) ∷ rest.0, rest.1))
    | false ↦ fan_out accepts frame cs log
  ]
]

abbrev pub announce : Outboxes → JsonCodec → Option RpcUser → Shared → Shared
announce accepts j none s = s
announce accepts j (some user) s =
    let done = fan_out accepts (frame_for j (j.update_text user)) s.consumers s.sent in
    record s { consumers = done.0; sent = done.1 }

abbrev pub settle_answer :
    Outboxes → JsonCodec → ClientId → BridgeProtocol → Bytes → ControlAnswer → Shared → Shared
settle_answer accepts j id protocol message none s = try_send accepts id (text message) s
settle_answer accepts j id protocol message (some (ack, changed)) s =
    announce accepts j changed (send_frame accepts id (frame_for j ack protocol) s)

-- `Event::Message`: an unregistered sender drives nothing, and what is no control message goes back
-- to its sender.
unfoldable pub on_consumer_message :
    Outboxes → JsonCodec → RpcUser → ClientId → Message → Shared × RpcUser → Shared × RpcUser
unfolding handle_bridge_control fan_out try_send
on_consumer_message accepts j startup id (binary packed) (s, user) =
    (if contains_key s.consumers id then try_send accepts id (binary packed) s else s, user)
on_consumer_message accepts j startup id (text message) (s, user) = elim (get s.consumers id) [
  | none ↦ (s, user)
  | some protocol ↦
      let (user', answer) = handle_bridge_control j startup message user in
      (settle_answer accepts j id protocol message answer s, user')
]
