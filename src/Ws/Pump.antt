-- ===== src/Ws/Pump.antt =====
-- crates/rsrpc-transport-ws/src/transport.rs: the pump, which handles one event of the hub at a
-- time.
pub mod Order
pub mod Clears
pub mod Publishes
pub mod Bounds
pub mod Others
pub mod Counted
pub mod Invariant
use discord_rich_presence.Prelude.{
  ℕ, ◌+◌, ◌-◌, ◌%◌, ◌^◌, String, Bool, true, false, not, ◌||◌, ◌&&◌, Option, none, some, List, [],
  ◌∷◌, ◌++◌, ◌==◌, string_key, nat_key, contains, if◌then◌else◌, unwrap_or, ◌>>=◌, is_none,
}
use discord_rich_presence.Prelude.HashMap.{HashMap, get, insert, remove}
use discord_rich_presence.Types.Ids.{AppId, u64_mod}
use discord_rich_presence.Types.Cmd.{ActivityCmd}
use discord_rich_presence.Protocol.Query.{query_param}
use discord_rich_presence.Ws.Sink.{
  PublishedSlot, TryEmit, sent, full, closed, Outlet, PendingEntry, count_shed, clear_for_slot,
  stage_clear, try_emit, flush_pending, expire_pending,
}
use discord_rich_presence.Ws.Slots.{
  ClientSlot, Admission, admitted, refused_full, note_published, forget_published, rollback_publish,
}
use discord_rich_presence.Ws.Handlers.{
  ClientId, GameMessage, ready, shared, closing, Transport, GameAnswers, reply, get_user_response,
  handle_browser_command, handle_deep_link, handle_connections_callback, handle_subscribe,
  handle_unknown, Forward, direct, staged, refused, handle_set_activity,
}

-- What the hub knows of a connection.
pub record Details : Type 0 where
  pub uri : String
  pub origin : Option String

pub data Frame : Type 0 where
  text : String → Frame
  other : Frame

-- An event of the hub, or a round of the task that `spawn_clear_retry` leaves behind.
pub data Event : Type 0 where
  connected : ClientId → Details → Event
  disconnected : ClientId → Event
  received : ClientId → Frame → Event
  retried : Event

-- The flags of `PumpCtx`.
pub record Features : Type 0 where
  pub set_activity : Bool
  pub secondary_events : Bool

abbrev pub game_origins : List String
game_origins = "https://discord.com" ∷ "https://canary.discord.com" ∷ "https://ptb.discord.com" ∷ []

-- No origin (a native client) passes.
unfoldable pub game_origin_allowed : Option String → Bool
game_origin_allowed none = true
game_origin_allowed (some value) = contains game_origins value

abbrev pub new_slot : Details → ClientSlot
new_slot d = record { published = []; query_client_id = query_param d.uri "client_id" }

abbrev pub register : ClientId → ClientSlot → Transport → Transport
register id slot s = record s {
  clients = insert s.clients id slot;
  total = (s.total + 1) % u64_mod;
}

unfoldable pub on_connect : GameAnswers → ClientId → Details → Transport → Transport
unfolding query_param game_origin_allowed reply
on_connect w id d s =
    let version = unwrap_or (query_param d.uri "v") "0" in
    let encoding = unwrap_or (query_param d.uri "encoding") "json" in
    let close = (reply w id closing s).1 in
    if not (version == "1") || not (encoding == "json")
    then close
    else if not (game_origin_allowed d.origin)
    then close
    else (let (alive, s') = reply w id (ready w.user) s in
        if alive then register id (new_slot d) s' else s')

-- One clear of a connection that is gone: sent, staged, or counted.
unfoldable pub clear_outcome : GameAnswers → PublishedSlot → TryEmit × Outlet → Outlet
unfolding stage_clear count_shed
clear_outcome w published (sent, o) = o
clear_outcome w published (full _, o) = stage_clear w.now published o
clear_outcome w published (closed, o) = count_shed 1 o

unfoldable pub clear_published : GameAnswers → List PublishedSlot → Outlet → Outlet
unfolding clear_outcome clear_for_slot try_emit
clear_published w [] o = o
clear_published w (published ∷ rest) o =
    clear_published w rest (clear_outcome w published (try_emit w.ask (clear_for_slot published) o))

unfoldable pub remove_found : GameAnswers → ClientId → Option ClientSlot → Transport → Transport
unfolding clear_published flush_pending
remove_found w id none s = s
remove_found w id (some slot) s = record s {
  clients = remove s.clients id;
  total = (s.total + u64_mod - 1) % u64_mod;
  outlet = clear_published w slot.published (flush_pending w.ask s.outlet);
}

unfoldable pub remove_and_clear : GameAnswers → ClientId → Transport → Transport
unfolding remove_found
remove_and_clear w id s = remove_found w id (get s.clients id) s

-- `get_mut`, and a change of the slot that is there.
unfoldable pub update_slot :
    ClientId → Option ClientSlot → (ClientSlot → ClientSlot) → Transport → Transport
update_slot id none change s = s
update_slot id (some slot) change s = record s { clients = insert s.clients id (change slot) }

unfoldable pub update_client : ClientId → (ClientSlot → ClientSlot) → Transport → Transport
unfolding update_slot
update_client id change s = update_slot id (get s.clients id) change s

unfoldable pub admit : Bool → PublishedSlot → Option ClientSlot → Option Admission
unfolding note_published
admit is_clear new none = none
admit is_clear new (some slot) = if is_clear then none else some (note_published new slot).1

abbrev pub noted : PublishedSlot → ClientSlot → ClientSlot
noted new slot = (note_published new slot).0

unfoldable pub way : Bool → Bool → Option Admission → Forward
way true backlog admission = if backlog then staged else direct
way false backlog none = refused
way false backlog (some refused_full) = refused
way false backlog (some (admitted _)) = if backlog then staged else direct

-- What becomes of the slot: a clear that is delivered forgets the pid, and a publish that is not
-- is rolled back.
unfoldable pub settle : Bool → Bool → ℕ → Option Admission → ClientSlot → ClientSlot
unfolding forget_published rollback_publish
settle true is_clear pid admission slot = if is_clear then forget_published pid slot else slot
settle false is_clear pid none slot = slot
settle false is_clear pid (some refused_full) slot = slot
settle false is_clear pid (some (admitted displaced)) slot = rollback_publish pid displaced slot

abbrev pub slot_of_event : Option AppId → ActivityCmd → PublishedSlot
slot_of_event query_client_id event = record {
  app_id = if is_none event.application_id then query_client_id else event.application_id;
  pid = unwrap_or (event.args >>= λ args. args.pid) 0;
  nonce = event.nonce;
}

abbrev pub clears : ActivityCmd → Bool
clears event = is_none (event.args >>= λ args. args.activity)

abbrev pub has_backlog : List PendingEntry → Bool
has_backlog [] = false
has_backlog (e ∷ q) = true

-- The branch of `on_message` for `SET_ACTIVITY`.
unfoldable pub on_set_activity :
    GameAnswers → ClientId → Option AppId → ActivityCmd → Transport → Bool × Transport
unfolding admit update_client way handle_set_activity settle
on_set_activity w id query_client_id event s =
    let new = slot_of_event query_client_id event in
    let is_clear = clears event in
    let admission = admit is_clear new (get s.clients id) in
    let s1 = if is_clear then s else update_client id (noted new) s in
    let forward = way is_clear (has_backlog s1.outlet.pending) admission in
    let (alive, delivered, s2) = handle_set_activity w id query_client_id forward event s1 in
    (alive, update_client id (settle delivered is_clear new.pid admission) s2)

-- The other commands. A branch that returns early leaves the client alive.
unfoldable pub on_other :
    GameAnswers → Features → ClientId → ActivityCmd → Transport → Bool × Transport
unfolding handle_browser_command handle_deep_link handle_connections_callback handle_subscribe reply
    get_user_response handle_unknown
on_other w features id event s =
    if event.cmd == "SET_ACTIVITY"
    then (true, s)
    else if contains ("INVITE_BROWSER" ∷ "GUILD_TEMPLATE_BROWSER" ∷ "GIFT_CODE_BROWSER" ∷ [])
        event.cmd
    then (if features.secondary_events then handle_browser_command w id event s else (true, s))
    else if event.cmd == "DEEP_LINK"
    then (if features.secondary_events then handle_deep_link w id event s else (true, s))
    else if event.cmd == "CONNECTIONS_CALLBACK"
    then (if features.secondary_events then handle_connections_callback w id event s else (true, s))
    else if contains ("SUBSCRIBE" ∷ "UNSUBSCRIBE" ∷ []) event.cmd
    then handle_subscribe w id event s
    else if event.cmd == "GET_USER"
    then reply w id (shared (get_user_response w.user event)) s
    else handle_unknown w id event s

unfoldable pub pruned : GameAnswers → ClientId → Bool × Transport → Transport
unfolding remove_and_clear
pruned w id (alive, s) = if alive then s else remove_and_clear w id s

unfoldable pub on_command :
    GameAnswers → Features → ClientId → Option AppId → Option ActivityCmd → Transport → Transport
unfolding on_set_activity on_other pruned
on_command w features id query_client_id none s = s
on_command w features id query_client_id (some event) s = pruned w id (
    if event.cmd == "SET_ACTIVITY" && features.set_activity
    then on_set_activity w id query_client_id event s
    else on_other w features id event s)

-- A message of a slot that is gone, and one that is not text, are ignored.
unfoldable pub on_frame_of :
    GameAnswers → Features → ClientId → Option ClientSlot → Frame → Transport → Transport
unfolding on_command
on_frame_of w features id none frame s = s
on_frame_of w features id (some slot) other s = s
on_frame_of w features id (some slot) (text t) s =
    on_command w features id slot.query_client_id (w.parse t) s

unfoldable pub on_message : GameAnswers → Features → ClientId → Frame → Transport → Transport
unfolding flush_pending on_frame_of
on_message w features id frame s =
    let s' : Transport = record s { outlet = flush_pending w.ask s.outlet } in
    on_frame_of w features id (get s'.clients id) frame s'

unfoldable pub retry_round : GameAnswers → Outlet → Outlet
unfolding flush_pending expire_pending
retry_round w o = expire_pending w.now (flush_pending w.ask o)

unfoldable pub handle_event : GameAnswers → Features → Event → Transport → Transport
unfolding on_connect remove_and_clear on_message retry_round
handle_event w features (connected id d) s = on_connect w id d s
handle_event w features (disconnected id) s = remove_and_clear w id s
handle_event w features (received id frame) s = on_message w features id frame s
handle_event w features retried s = record s { outlet = retry_round w s.outlet }

-- The pump's loop over the events, each with what the outside answers meanwhile.
unfoldable pub pump_loop : Features → List (GameAnswers × Event) → Transport → Transport
unfolding handle_event
pump_loop features [] s = s
pump_loop features ((w, event) ∷ events) s =
    pump_loop features events (handle_event w features event s)

-- A transport that has just started.
abbrev pub started : Transport
started = record {
  clients = [];
  total = 0;
  outlet = record { pending = []; emitted = []; dropped = 0; tried = 0 };
  messages = [];
}
