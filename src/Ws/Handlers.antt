-- ===== src/Ws/Handlers.antt =====
-- crates/rsrpc-transport-ws/src/handlers.rs: the handlers of one command. Each returns whether the
-- client is still alive.
use discord_rich_presence.Types.User.{RpcUser}
use Prim.Native.Char.{code}
use discord_rich_presence.Prelude.{
  is_whitespace, ℕ, String, Bool, true, false, not, ◌&&◌, Option, none, some, List, [], ◌∷◌, ◌++◌,
  ◌==◌, string_key, if◌then◌else◌, unwrap_or, ◌>>=◌, is_some_and, is_none,
}
use discord_rich_presence.Prelude.HashMap.{HashMap, insert}
use discord_rich_presence.Types.Ids.{AppId}
use discord_rich_presence.Types.Json.{Value, number}
use discord_rich_presence.Types.Cmd.{ActivityCmd, ActivityCmdArgs}
use discord_rich_presence.Types.Fix.{fix}
use discord_rich_presence.Protocol.Replies.{
  Reply, subscribe_ack, user_response, rpc_error, unsupported_command, set_activity_response,
}
use discord_rich_presence.Ws.Sink.{Answer, Outlet, emit, emit_or_stage_publish}
use discord_rich_presence.Ws.Slots.{ClientSlot}

abbrev pub ClientId : Type 0
ClientId = ℕ

pub record BrowserEcho : Type 0 where
  pub application_id : Option AppId
  pub cmd : String
  pub args : Option ActivityCmdArgs
  pub nonce : Value

-- What is sent to a game client, before it is serialized: READY, a reply of the shared protocol, an
-- echo, a command sent back, or the closing of the connection.
pub data GameMessage : Type 0 where
  ready : RpcUser → GameMessage
  shared : Reply → GameMessage
  browser : BrowserEcho → GameMessage
  command : ActivityCmd → GameMessage
  closing : GameMessage

pub record Transport : Type 0 where
  pub clients : HashMap ClientId ClientSlot
  pub total : ℕ
  pub outlet : Outlet
  pub messages : List (ClientId × GameMessage)

-- What the outside answers while one event is handled: the channel for each attempt, the client's
-- outbox, the parser and the serializer, the shared user and the clock.
pub record GameAnswers : Type 0 where
  pub ask : ℕ → Answer
  pub takes : Bool
  pub parse : String → Option ActivityCmd
  pub encodes : Bool
  pub user : RpcUser
  pub now : ℕ

-- A message is tried, and the client is alive if its outbox takes it in time.
unfoldable pub reply : GameAnswers → ClientId → GameMessage → Transport → Bool × Transport
reply w id message s = (w.takes, record s { messages = s.messages ++ (id, message) ∷ [] })

-- A reply that cannot be serialized is dropped, and the client counts as alive.
unfoldable pub reply_encoded : GameAnswers → ClientId → GameMessage → Transport → Bool × Transport
unfolding reply
reply_encoded w id message s = if w.encodes then reply w id message s else (true, s)

-- `get_user_response`
unfoldable pub get_user_response : RpcUser → ActivityCmd → Reply
get_user_response user event = elim (event.args >>= λ args. args.user_id) [
  | none ↦ user_response event (some user)
  | some id ↦ user_response event (if id == user.id then some user else none)
]

unfoldable pub borrow : ActivityCmd → BrowserEcho
borrow event = record {
  application_id = event.application_id;
  cmd = event.cmd;
  args = event.args;
  nonce = event.nonce;
}

-- `trim().is_empty()`
unfoldable pub is_blank : String → Bool
is_blank String.[] = true
is_blank (String.◌∷◌ c s) = is_whitespace (code c) && is_blank s

unfoldable pub has_code : ActivityCmd → Bool
unfolding is_blank
has_code event = is_some_and (event.args >>= λ args. args.invite_code) (λ c. not (is_blank c))

-- The error for a browser command whose code is missing or blank.
unfoldable pub code_error : String → ℕ × String
code_error cmd =
    if cmd == "GUILD_TEMPLATE_BROWSER"
    then (4017, "Invalid guild template id")
    else if cmd == "GIFT_CODE_BROWSER"
    then (4016, "Invalid gift code")
    else (4011, "Invalid invite id")

-- The command is forwarded whether or not the sink takes it, and then echoed.
unfoldable pub handle_browser_command :
    GameAnswers → ClientId → ActivityCmd → Transport → Bool × Transport
unfolding has_code code_error reply reply_encoded borrow emit
handle_browser_command w id event s =
    let (status, message) = code_error event.cmd in
    if not (has_code event)
    then reply w id (shared (rpc_error event.cmd event.nonce status message)) s
    else reply_encoded w id (browser (borrow event))
        (record s { outlet = (emit w.ask event s.outlet).1 })

unfoldable pub handle_deep_link :
    GameAnswers → ClientId → ActivityCmd → Transport → Bool × Transport
unfolding reply_encoded
handle_deep_link w id event s =
    reply_encoded w id (command (record event { args = none; payload = none; evt = none })) s

unfoldable pub handle_connections_callback :
    GameAnswers → ClientId → ActivityCmd → Transport → Bool × Transport
unfolding reply_encoded
handle_connections_callback w id event s =
    let body : HashMap String Value = insert [] "code" (number "1000") in
    reply_encoded w id
      (command (record event { args = none; payload = some body; evt = some "ERROR" })) s

unfoldable pub handle_subscribe :
    GameAnswers → ClientId → ActivityCmd → Transport → Bool × Transport
unfolding reply
handle_subscribe w id event s = reply w id (shared (subscribe_ack event)) s

unfoldable pub handle_unknown : GameAnswers → ClientId → ActivityCmd → Transport → Bool × Transport
unfolding reply
handle_unknown w id event s =
    let (status, message) = unwrap_or (unsupported_command event.cmd) (1000, "Unknown command") in
    reply w id (shared (rpc_error event.cmd event.nonce status message)) s

pub data Forward : Type 0 where
  direct : Forward
  staged : Forward
  refused : Forward

-- The command with the id of the connection where it has none.
unfoldable pub with_fallback : Option AppId → ActivityCmd → ActivityCmd
with_fallback query_client_id event = record event {
  application_id = if is_none event.application_id then query_client_id else event.application_id;
}

-- Whether the command is delivered.
unfoldable pub forward_to_sink : GameAnswers → Forward → ActivityCmd → Outlet → Bool × Outlet
unfolding emit emit_or_stage_publish
forward_to_sink w direct cmd o = emit w.ask cmd o
forward_to_sink w staged cmd o = emit_or_stage_publish w.ask w.now cmd o
forward_to_sink w refused cmd o = (false, o)

abbrev pub confirm : GameAnswers → ClientId → Option Reply → Transport → Bool × Transport
confirm w id none s = (true, s)
confirm w id (some r) s = (w.takes, record s { messages = s.messages ++ (id, shared r) ∷ [] })

-- The command as it is forwarded, and its confirmation.
abbrev pub fixed_command : GameAnswers → Option AppId → ActivityCmd → ActivityCmd × Option Reply
fixed_command w query_client_id event =
    set_activity_response (fix w.now (with_fallback query_client_id event))

-- Whether the client is alive, and whether the command is delivered.
unfoldable pub handle_set_activity :
    GameAnswers
    → ClientId
    → Option AppId
    → Forward
    → ActivityCmd
    → Transport
    → Bool × Bool × Transport
unfolding forward_to_sink
handle_set_activity w id query_client_id forward event s =
    let (sent, response) = fixed_command w query_client_id event in
    let (delivered, outlet) = forward_to_sink w forward sent s.outlet in
    let (alive, s') = confirm w id response (record s { outlet = outlet }) in (alive, delivered, s')
