-- ===== src/Ipc/Session.antt =====
-- crates/rsrpc-transport-ipc/src/frame.rs: the handlers of a connection, over the state that
-- ConnFacilitator keeps (unix.rs). A write that fails is ignored by the source, so `written` holds
-- the frames that are written or tried.
pub mod Covered
pub mod Dispatch
pub mod Lockstep
use discord_rich_presence.Types.User.{RpcUser}
use discord_rich_presence.Prelude.{
  Bytes, ℕ, ◌+◌, String, Bool, true, false, not, Option, none, some, List, [], ◌∷◌, ◌++◌, ◌==◌, eqn,
  nat_key, string_key, contains, if◌then◌else◌, unwrap_or, ◌>>=◌, is_some_and,
}
use discord_rich_presence.Types.Ids.{AppId}
use discord_rich_presence.Types.Json.{Value, null}
use discord_rich_presence.Types.Cmd.{ActivityCmd, ActivityCmdArgs, empty_cmd}
use discord_rich_presence.Types.Fix.{fix}
use discord_rich_presence.Protocol.Replies.{
  Reply, subscribe_ack, user_response, generic_ack, rpc_error, unsupported_command,
  set_activity_response,
}
use discord_rich_presence.Ipc.Frame.{PacketType, handshake, frame, close, ping, pong, encode}
use discord_rich_presence.Ipc.Pids.{admit_pid, track_pid, clear_pids}

-- What a connection offers to the bridge's queue: a command may be shed, a clear waits for room.
pub data Offer : Type 0 where
  command : ActivityCmd → Offer
  clear : ActivityCmd → Offer

pub record Conn : Type 0 where
  pub handshake : Bool
  pub client_id : AppId
  pub pid : ℕ
  pub nonce : Value
  pub published_pids : List ℕ
  pub written : List Bytes
  pub offered : List Offer

-- `ConnFacilitator::fresh`
abbrev pub fresh : Conn
fresh = record {
  handshake = false;
  client_id = "";
  pid = 0;
  nonce = null;
  published_pids = [];
  written = [];
  offered = [];
}

-- What the outside answers while one packet is handled: the parsers and serializers, the shared
-- user and the clock.
pub record Answers : Type 0 where
  pub is_utf8 : Bytes → Bool
  pub parse_handshake : Bytes → Option (ℕ × AppId)
  pub parse_command : Bytes → Option ActivityCmd
  pub reply_json : Reply → Bytes
  pub ready_payload : RpcUser → Bytes
  pub close_json : ℕ → String → Bytes
  pub user : RpcUser
  pub now : ℕ

abbrev pub write : Bytes → Conn → Conn
write b s = record s { written = s.written ++ b ∷ [] }

abbrev pub offer : Offer → Conn → Conn
offer o s = record s { offered = s.offered ++ o ∷ [] }

-- `encode(PacketType::Frame, …)`, written
unfoldable pub respond : Answers → Reply → Conn → Conn
respond w r s = write (encode frame (w.reply_json r)) s

unfoldable pub send_close : Answers → ℕ → String → Conn → Conn
send_close w code message s = write (encode close (w.close_json code message)) s

abbrev pub clear_args : ℕ → ActivityCmdArgs
clear_args pid = record { pid = some pid; activity = none; invite_code = none; user_id = none }

abbrev pub clear_cmd : ℕ → ActivityCmd
clear_cmd pid = record empty_cmd { cmd = "SET_ACTIVITY"; args = some (clear_args pid) }

unfoldable pub send_empty : ℕ → Conn → Conn
send_empty pid s = offer (clear (clear_cmd pid)) s

unfoldable pub send_empties : List ℕ → Conn → Conn
unfolding send_empty
send_empties [] s = s
send_empties (pid ∷ pids) s = send_empties pids (send_empty pid s)

-- The connection is lost: every pid that it published is cleared, and the current one.
unfoldable pub abandon : Conn → Conn
unfolding send_empties clear_pids
abandon s = send_empties (clear_pids s.published_pids s.pid) (record s { published_pids = [] })

-- The state afterwards, and whether the loop stops.
unfoldable pub on_handshake : Answers → Bytes → Conn → Conn × Bool
unfolding send_close
on_handshake w message s = elim (w.parse_handshake message) [
  | none ↦ (s, false)
  | some (v, client_id) ↦
      if not (eqn v 1)
      then (send_close w 4004 "Invalid version" s, true)
      else if client_id == ""
      then (send_close w 4000 "Invalid client_id" s, true)
      else (
        write (encode frame (w.ready_payload w.user))
            (record s { handshake = true; client_id = client_id }),
        false,
      )
]

-- The pids but one.
unfoldable pub without_pid : ℕ → List ℕ → List ℕ
without_pid current [] = []
without_pid current (p ∷ ps) =
    let rest = without_pid current ps in if p == current then rest else p ∷ rest

abbrev pub close_cmd : Conn → ActivityCmd
close_cmd s = record {
  application_id = some s.client_id;
  cmd = "SET_ACTIVITY";
  args = some (clear_args s.pid);
  payload = none;
  evt = none;
  nonce = s.nonce;
}

unfoldable pub on_close : Conn → Conn
unfolding send_empties without_pid
on_close s =
    record (send_empties (without_pid s.pid s.published_pids)
      (offer (clear (close_cmd s)) (record s { published_pids = [] }))) {
        handshake = false;
        client_id = "";
        pid = 0;
      }

unfoldable pub on_ping : Bytes → Conn → Conn
on_ping message s = write (encode pong message) s

-- A pid that is refused is not forwarded.
unfoldable pub forward : ActivityCmd → ℕ → Conn → Conn
forward cmd pid s =
    let (history, admitted) = admit_pid s.published_pids pid in
    if admitted
    then offer (command cmd) (record s { published_pids = track_pid history pid })
    else record s { published_pids = history }

-- The reply of `set_activity_response` is there whenever the command has arguments.
abbrev pub echo : Answers → Option Reply → Conn → Conn
echo w none s = s
echo w (some r) s = respond w r s

-- `handle_set_activity` with the command's arguments taken out.
unfoldable pub set_activity : Answers → ActivityCmd → Option ActivityCmdArgs → Conn → Conn
unfolding respond
set_activity w cmd none s = respond w (rpc_error cmd.cmd cmd.nonce 4005 "Missing activity args") s
set_activity w cmd (some args) s =
    let pid = unwrap_or args.pid 0 in
    let (cmd', response) =
      set_activity_response (fix w.now (record cmd { application_id = some s.client_id })) in
    echo w response (forward cmd' pid (record s { pid = pid; nonce = cmd.nonce }))

unfoldable pub handle_set_activity : Answers → ActivityCmd → Conn → Conn
unfolding set_activity
handle_set_activity w cmd s = set_activity w cmd cmd.args s

-- The user, unless the client asks for somebody else.
abbrev pub wanted_user : Answers → ActivityCmd → Option RpcUser
wanted_user w cmd = elim (cmd.args >>= λ args. args.user_id) [
  | none ↦ some w.user
  | some id ↦ if id == w.user.id then some w.user else none
]

abbrev pub secondary_commands : List String
secondary_commands =
    "INVITE_BROWSER" ∷ "GUILD_TEMPLATE_BROWSER" ∷ "GIFT_CODE_BROWSER" ∷ "DEEP_LINK" ∷ []

unfoldable pub forward_secondary : Answers → ActivityCmd → Conn → Conn
unfolding respond
forward_secondary w cmd s =
    let cmd' : ActivityCmd = record cmd { application_id = some s.client_id } in
    respond w (generic_ack cmd') (offer (command cmd') s)

abbrev pub refusal : ActivityCmd → Reply
refusal cmd =
    let (code, message) = unwrap_or (unsupported_command cmd.cmd) (1000, "Unknown command") in
    rpc_error cmd.cmd cmd.nonce code message

unfoldable pub dispatch : Answers → ActivityCmd → Conn → Conn
unfolding respond
dispatch w cmd s =
    if contains ("SUBSCRIBE" ∷ "UNSUBSCRIBE" ∷ []) cmd.cmd
    then respond w (subscribe_ack cmd) s
    else if cmd.cmd == "SET_ACTIVITY"
    then handle_set_activity w cmd s
    else if cmd.cmd == "GET_USER"
    then respond w (user_response cmd (wanted_user w cmd)) s
    else if cmd.cmd == "CONNECTIONS_CALLBACK"
    then respond w (rpc_error cmd.cmd cmd.nonce 1000 "CONNECTIONS_CALLBACK is not supported") s
    else if contains secondary_commands cmd.cmd
    then forward_secondary w cmd s
    else respond w (refusal cmd) s

-- A frame that does not parse is answered under no name.
abbrev pub parsed : Answers → Conn → Option ActivityCmd → Conn
parsed w s none = respond w (rpc_error "" null 4005 "Invalid encoding") s
parsed w s (some cmd) = dispatch w cmd s

unfoldable pub on_frame : Answers → Bytes → Conn → Conn
on_frame w message s = if s.handshake then parsed w s (w.parse_command message) else s
