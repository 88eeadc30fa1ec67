-- ===== src/Tests/Transports.antt =====
-- The WebSocket transport, with a client that has published under pid 70.
use discord_rich_presence.Prelude.{
  ℕ, ◌≡◌, refl, true, false, ◌&&◌, none, some, List, [], ◌∷◌, ◌++◌, eqn, if◌then◌else◌, nat_key,
  string_key, arith,
}
use discord_rich_presence.Prelude.HashMap.{get, insert}
use discord_rich_presence.Types.Json.{null}
use discord_rich_presence.Types.Fix.{fix}
use discord_rich_presence.Protocol.Replies.{set_activity_response}
use discord_rich_presence.Protocol.Query.{split_once, query_param}
use discord_rich_presence.Protocol.Query.Params.{params, query_param-get}
use discord_rich_presence.Ws.Sink.{
  PublishedSlot, PendingEntry, parked, Answer, accepts, is_full, Outlet, clear_for_slot,
  flush_pending,
}
use discord_rich_presence.Ws.Sink.Order.{stream, Flushed, flush_pending_lem}
use discord_rich_presence.Ws.Slots.{ClientSlot, find_slot}
use discord_rich_presence.Ws.Slots.Tracked.{IsBounded}
use discord_rich_presence.Ws.Handlers.{Transport, GameAnswers, fixed_command, with_fallback}
use discord_rich_presence.Ws.Pump.{
  Details, Event, connected, received, disconnected, text, Features, on_set_activity, on_message,
  remove_and_clear, pump_loop, started, clears, slot_of_event,
}
use discord_rich_presence.Ws.Pump.Order.{IsSteady}
use discord_rich_presence.Ws.Pump.Clears.{clears_of, remove_and_clear_orders, clear_overtakes}
use discord_rich_presence.Ws.Pump.Publishes.{delivery}
use discord_rich_presence.Ws.Pump.Publishes.Received.{flushed_state, outcome, on_message_orders}
use discord_rich_presence.Ws.Pump.Publishes.Tracks.{on_set_activity_tracks}
use discord_rich_presence.Ws.Pump.Invariant.{IsSound, pump_loop_bounds}
use discord_rich_presence.Ws.Drain.{retry_loop, shutdown}
use discord_rich_presence.Ws.Drain.Ends.{retry_loop_ends}
use discord_rich_presence.Ws.Drain.Ends.Shutdown.{shutdown_ends}
use discord_rich_presence.Tests.Fixtures.{publication}

abbrev at_sink : (ℕ → Answer) → GameAnswers
at_sink ask = record {
  ask = ask;
  takes = true;
  parse = λ t. some publication;
  encodes = true;
  user = record {
    id = "1";
    username = "arRPC";
    discriminator = "0000";
    global_name = none;
    avatar = none;
    avatar_decoration_data = none;
    bot = false;
    flags = 0;
    premium_type = 0;
  };
  now = 1700000000;
}

abbrev healthy : GameAnswers
healthy = at_sink (λ n. accepts)

-- Full at the first attempt, and then again with room.
abbrev briefly_full : GameAnswers
briefly_full = at_sink (λ n. if eqn n 0 then is_full else accepts)

healthy-IsSteady : IsSteady healthy.ask
healthy-IsSteady = record { open_sink = λ n. cc; stays_full = λ n h. h }

abbrev shown : PublishedSlot
shown = record { app_id = some "7"; pid = 70; nonce = null }

abbrev one_card : ClientSlot
one_card = record { published = shown ∷ []; query_client_id = some "7" }

abbrev waiting_entry : PendingEntry
waiting_entry = record { payload = parked publication; deadline = 5000 }

-- A client with one card, and a publish that waits.
abbrev busy : Transport
busy = record {
  clients = (3, one_card) ∷ [];
  total = 1;
  outlet = record { pending = waiting_entry ∷ []; emitted = []; dropped = 0; tried = 0 };
  messages = [];
}

abbrev both_on : Features
both_on = record { set_activity = true; secondary_events = true }

abbrev game : Details
game = record { uri = "/?v=1&encoding=json&client_id=7"; origin = none }

abbrev visit : List (GameAnswers × Event)
visit =
    (healthy, connected 3 game) ∷ (healthy, received 3 (text "{}")) ∷ (healthy, disconnected 3) ∷ []

one_card-IsBounded : IsBounded one_card
unfolding find_slot
one_card-IsBounded = record { bounded = omega arith; one_each = (refl, tt) }

-- The last occurrence of a key counts.
last_wins : query_param "/p?v=1&x&v=2" "v" ≡ some "2"
unfolding query_param
last_wins = refl

query_param-get_example :
    query_param "/p?v=1&v=2" "v" ≡ get (params (split_once b'?' "/p?v=1&v=2")) "v"
query_param-get_example = query_param-get "/p?v=1&v=2" "v"

-- The visit leaves no client, and the sink has the publish and its clear.
visit_ends : (pump_loop both_on visit started).total ≡ 0
unfolding pump_loop get insert set_activity_response fix with_fallback
visit_ends = refl

pump_loop_bounds_example : IsSound (pump_loop both_on visit started)
unfolding get
pump_loop_bounds_example = pump_loop_bounds both_on visit (refl, (tt, (tt, tt)))

flush_pending_lem_example :
    Flushed briefly_full.ask busy.outlet
      (flush_pending briefly_full.ask busy.outlet)
      (waiting_entry ∷ [])
flush_pending_lem_example = flush_pending_lem briefly_full.ask busy.outlet

remove_and_clear_orders_example :
    (stream (remove_and_clear healthy 3 busy).outlet ≡ stream busy.outlet ++ clears_of (shown ∷ []))
    × ((remove_and_clear healthy 3 busy).outlet.dropped ≡ 0)
    × ((j : ℕ)
        → get (remove_and_clear healthy 3 busy).clients j
          ≡ (if eqn 3 j then none else get busy.clients j))
unfolding get
remove_and_clear_orders_example =
    remove_and_clear_orders healthy healthy-IsSteady 3 busy one_card refl (omega arith)

clear_overtakes_example :
    ((remove_and_clear briefly_full 3 busy).outlet.emitted ≡ [] ++ clear_for_slot shown ∷ [])
    × ((remove_and_clear briefly_full 3 busy).outlet.pending ≡ waiting_entry ∷ [])
unfolding get
clear_overtakes_example =
    clear_overtakes briefly_full 3 busy one_card shown refl refl waiting_entry [] refl refl refl

abbrev calm : Transport
calm = record busy { outlet = record { pending = []; emitted = []; dropped = 0; tried = 0 } }

on_set_activity_tracks_example :
    (slot' : ClientSlot) × (get (on_set_activity healthy 3 (some "7") publication calm).1.clients 3
      ≡ some slot')
    × IsBounded slot'
    × ((p : ℕ)
        → find_slot p slot'.published ≡ (
            if (delivery healthy 3 (some "7") publication calm).0
              && eqn (slot_of_event (some "7") publication).pid p
            then (if clears publication then none else some (slot_of_event (some "7") publication))
            else find_slot p (shown ∷ [])))
unfolding get
on_set_activity_tracks_example =
    on_set_activity_tracks healthy 3 (some "7") publication calm one_card refl one_card-IsBounded

retry_loop_ends_example :
    (t : Outlet) × (retry_loop (λ n. briefly_full) 3 busy.outlet ≡ some t) × (t.pending ≡ [])
retry_loop_ends_example =
    retry_loop_ends (λ n. briefly_full) 6000 2 busy.outlet (omega arith) (omega arith, tt)

-- The clock advances by a millisecond with each attempt.
shutdown_ends_example :
    (t : Transport) × (shutdown (λ n. is_full) (λ n. n) 3000 9001 2 busy ≡ some t)
    × (t.clients ≡ [])
    × (t.total ≡ 0)
    × (t.outlet.pending ≡ [])
shutdown_ends_example =
    shutdown_ends (λ n. is_full) (λ n. n) 6000 6000 (λ n h. h) 3000 9001 busy (omega arith)
      (omega arith) (omega arith, tt) (omega arith)

reply_taken : (outcome healthy both_on 3 busy one_card publication).0 ≡ true
unfolding get insert set_activity_response fix with_fallback on_set_activity flush_pending
reply_taken = refl

client_3 : get busy.clients 3 ≡ some one_card
unfolding get
client_3 = refl

on_message_orders_example : stream (on_message healthy both_on 3 (text "{}") busy).outlet ≡ (
    if (delivery healthy 3 (some "7") publication (flushed_state healthy busy)).0
    then stream busy.outlet ++ (fixed_command healthy (some "7") publication).0 ∷ []
    else stream busy.outlet)
on_message_orders_example =
    on_message_orders healthy both_on 3 busy one_card publication "{}" client_3 refl refl refl
      reply_taken healthy-IsSteady (omega arith)
