-- ===== src/Ws/Pump/Publishes/Received.antt =====
-- A `SET_ACTIVITY` as it is received: on_message flushes what waits before it handles the command.
use discord_rich_presence.Prelude.{
  ◌<◌, ◌≡◌, refl, ap, ◌∙◌, true, Option, some, Bool, List, [], ◌∷◌, ◌++◌, length, arith, String,
  ◌==◌, ◌&&◌, string_key, nat_key, if◌then◌else◌,
}
use discord_rich_presence.Prelude.HashMap.{get}
use mathlib.Core.List.{append-nil}
use discord_rich_presence.Types.Cmd.{ActivityCmd}
use discord_rich_presence.Ws.Sink.{max_pending_commands, flush_pending}
use discord_rich_presence.Ws.Sink.Order.{stream}
use discord_rich_presence.Ws.Slots.{ClientSlot}
use discord_rich_presence.Ws.Handlers.{ClientId, Transport, GameAnswers, fixed_command}
use discord_rich_presence.Ws.Pump.{
  Features, text, on_set_activity, pruned, on_command, on_frame_of, on_message,
}
use discord_rich_presence.Ws.Pump.Order.{IsSteady, flush_pending-Appended}
use discord_rich_presence.Ws.Pump.Publishes.{delivery, on_set_activity_orders}

both {ℓ} : {A : Type ℓ} (a b : Bool) (x y : A) → a ≡ true → b ≡ true → (if a && b then x else y) ≡ x
both a b x y e f = rw (e, f) refl

pruned_alive :
    (w : GameAnswers) (id : ClientId) (alive : Bool) (s : Transport)
    → alive ≡ true
    → pruned w id (alive, s) ≡ s
unfolding pruned
pruned_alive w id alive s e = rw e refl

abbrev pub flushed_state : GameAnswers → Transport → Transport
flushed_state w s = record s { outlet = flush_pending w.ask s.outlet }

module _ (w : GameAnswers) (features : Features) (id : ClientId) (s : Transport) (slot : ClientSlot)
    (event : ActivityCmd) where
  -- What the branch for `SET_ACTIVITY` makes of the flushed state.
  abbrev pub outcome : Bool × Transport
  outcome = on_set_activity w id slot.query_client_id event (flushed_state w s)

  abbrev handle_frame : Option ActivityCmd → Transport
  handle_frame o = on_command w features id slot.query_client_id o (flushed_state w s)

  on_message_taken :
      (message : String)
      → get s.clients id ≡ some slot
      → w.parse message ≡ some event
      → (event.cmd == "SET_ACTIVITY") ≡ true
      → features.set_activity ≡ true
      → outcome.0 ≡ true
      → on_message w features id (text message) s ≡ outcome.1
  unfolding on_message on_frame_of on_command
  on_message_taken message found parsed named enabled alive =
      ap (λ (o : Option ClientSlot). on_frame_of w features id o (text message) (flushed_state w s))
        found
      ∙ ap (λ (o : Option ActivityCmd). handle_frame o) parsed
      ∙ ap (pruned w id)
          (both (event.cmd == "SET_ACTIVITY") features.set_activity _ _ named enabled)
      ∙ pruned_alive w id outcome.0 outcome.1 alive

  -- A `SET_ACTIVITY` that is received from a client, while the transport handles the command and the
  -- client takes its reply, is delivered behind all that was sent or waits, in the form that
  -- fixed_command gives it, or leaves all of that as it was. This is where the sink stays open, stays
  -- full while it is, and the queue has room.
  pub on_message_orders :
      (message : String)
      → get s.clients id ≡ some slot
      → w.parse message ≡ some event
      → (event.cmd == "SET_ACTIVITY") ≡ true
      → features.set_activity ≡ true
      → outcome.0 ≡ true
      → IsSteady w.ask
      → length s.outlet.pending < max_pending_commands
      → stream (on_message w features id (text message) s).outlet ≡ (
          if (delivery w id slot.query_client_id event (flushed_state w s)).0
          then stream s.outlet ++ (fixed_command w slot.query_client_id event).0 ∷ []
          else stream s.outlet)
  on_message_orders message found parsed named enabled alive steady room =
      let flush = flush_pending-Appended w.ask steady s.outlet in
      let cmd = (fixed_command w slot.query_client_id event).0 in
      let delivered = (delivery w id slot.query_client_id event (flushed_state w s)).0 in
      ap (λ (t : Transport). stream t.outlet)
        (on_message_taken message found parsed named enabled alive)
      ∙ on_set_activity_orders w id slot.query_client_id event (flushed_state w s) steady flush.kept
          (omega (arith, flush.grown, room))
      ∙ ap (λ (l : List ActivityCmd). if delivered then l ++ cmd ∷ [] else l)
          (flush.in_order ∙ append-nil (stream s.outlet))
