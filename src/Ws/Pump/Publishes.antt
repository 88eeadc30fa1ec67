-- ===== src/Ws/Pump/Publishes.antt =====
-- `SET_ACTIVITY`: what is forwarded keeps its place in the order, and what is forwarded is tracked.
pub mod Received
pub mod Tracks
use discord_rich_presence.Prelude.{
  ℕ, suc, ◌+◌, ◌≤◌, ◌<◌, ◌≡◌, refl, ap, sym, ◌∙◌, inl, inr, Bool, true, false, ◌&&◌, Option, none,
  some, List, [], ◌∷◌, ◌++◌, length, arith, nat_key, eqn, eqn_iff, if◌then◌else◌, Bool-cases,
  Option-cases,
}
use discord_rich_presence.Prelude.HashMap.{get, insert, get-insert}
use mathlib.Core.List.{append-nil}
use discord_rich_presence.Types.Ids.{AppId}
use discord_rich_presence.Types.Cmd.{ActivityCmd}
use discord_rich_presence.Protocol.Replies.{Reply}
use discord_rich_presence.Ws.Sink.{
  max_pending_commands, PublishedSlot, parked, Answer, accepts, is_full, is_closed, Outlet, accept,
  into_cmd, stage_publish, try_answered, emit_answered, emit, emit_or_stage_publish, try_emit,
  refuse, count_shed, publish_outcome, PendingEntry,
}
use discord_rich_presence.Ws.Sink.Order.{stream}
use discord_rich_presence.Ws.Slots.{
  ClientSlot, Admission, admitted, refused_full, note_published, find_slot, forget_published,
  rollback_publish,
}
use discord_rich_presence.Ws.Slots.Tracked.{
  IsBounded, note_published_lem, rollback_publish-note_published,
}
use discord_rich_presence.Ws.Handlers.{
  ClientId, Transport, GameAnswers, Forward, direct, staged, refused, forward_to_sink, confirm,
  fixed_command, handle_set_activity,
}
use discord_rich_presence.Ws.Pump.{
  update_slot, update_client, admit, noted, way, settle, slot_of_event, clears, has_backlog,
  on_set_activity,
}
use discord_rich_presence.Ws.Pump.Order.{
  IsSteady, IsHeld, Appended, accept-Appended, stage-Appended,
}

-- What is delivered goes behind all that was there; what is not changes nothing but the counters.
abbrev Placed : GameAnswers → ActivityCmd → Outlet → Bool × Outlet → Type 0
Placed w cmd o r =
    (stream r.1 ≡ (if r.0 then stream o ++ cmd ∷ [] else stream o)) × IsHeld w.ask r.1

module _ (w : GameAnswers) (steady : IsSteady w.ask) (cmd : ActivityCmd) (o : Outlet)
    (room : length o.pending < max_pending_commands) where
  emit-Placed :
      (a : Answer) → w.ask o.tried ≡ a → o.pending ≡ [] → Placed w cmd o (emit_answered a cmd o)
  unfolding emit_answered count_shed
  emit-Placed accepts e none_waits =
      let p = accept-Appended w.ask steady cmd o e (inl none_waits) in (p.in_order, p.kept)
  emit-Placed is_full e none_waits = (refl, inl none_waits)
  emit-Placed is_closed e none_waits = absurd (steady.open_sink o.tried e)

  publish_outcome-Placed :
      (a : Answer)
      → w.ask o.tried ≡ a
      → IsHeld w.ask o
      → Placed w cmd o (publish_outcome w.now (try_answered a cmd o))
  unfolding publish_outcome try_answered stage_publish into_cmd
  publish_outcome-Placed accepts e h =
      let p = accept-Appended w.ask steady cmd o e h in (p.in_order, p.kept)
  publish_outcome-Placed is_full e h =
      let p = stage-Appended w.ask steady w.now (parked cmd) o e room in (p.in_order, p.kept)
  publish_outcome-Placed is_closed e h = absurd (steady.open_sink o.tried e)

  -- By the way that the command takes, for the queue as it stands.
  way-Placed :
      (q : List PendingEntry)
      → o.pending ≡ q
      → IsHeld w.ask o
      → (is_clear : Bool) (admission : Option Admission)
      → Placed w cmd o (forward_to_sink w (way is_clear (has_backlog q) admission) cmd o)
  unfolding forward_to_sink way emit emit_or_stage_publish try_emit
  way-Placed [] e h true admission = emit-Placed (w.ask o.tried) refl e
  way-Placed (x ∷ q) e h true admission = publish_outcome-Placed (w.ask o.tried) refl h
  way-Placed q e h false none = (refl, h)
  way-Placed q e h false (some refused_full) = (refl, h)
  way-Placed [] e h false (some (admitted d)) = emit-Placed (w.ask o.tried) refl e
  way-Placed (x ∷ q) e h false (some (admitted d)) = publish_outcome-Placed (w.ask o.tried) refl h

-- How the command of an event is delivered: whether it is, and what is left in the outlet.
abbrev pub delivery :
    GameAnswers → ClientId → Option AppId → ActivityCmd → Transport → Bool × Outlet
delivery w id query_client_id event s =
    let new = slot_of_event query_client_id event in
    let admission = admit (clears event) new (get s.clients id) in
    forward_to_sink w (way (clears event) (has_backlog s.outlet.pending) admission)
      (fixed_command w query_client_id event).0 s.outlet

confirm_outlet :
    (w : GameAnswers) (id : ClientId) (r : Option Reply) (s : Transport)
    → ((confirm w id r s).1.outlet ≡ s.outlet)
      × ((confirm w id r s).1.clients ≡ s.clients)
      × ((confirm w id r s).1.total ≡ s.total)
confirm_outlet w id none s = (refl, refl, refl)
confirm_outlet w id (some r) s = (refl, refl, refl)

update_client_outlet :
    (id : ClientId) (change : ClientSlot → ClientSlot) (s : Transport)
    → (update_client id change s).outlet ≡ s.outlet
unfolding update_client update_slot
update_client_outlet id change s = elim (Option-cases (get s.clients id)) [
  | inl e ↦ rw (e, update_slot) refl
  | inr (slot, e) ↦ rw (e, update_slot) refl
]

handle_set_activity_lem :
    (w : GameAnswers) (id : ClientId) (query_client_id : Option AppId) (way_taken : Forward)
    (event : ActivityCmd) (s : Transport)
    → let r = handle_set_activity w id query_client_id way_taken event s in
      let d = forward_to_sink w way_taken (fixed_command w query_client_id event).0 s.outlet in
      (r.1 ≡ d.0) × (r.2.outlet ≡ d.1) × (r.2.clients ≡ s.clients) × (r.2.total ≡ s.total)
unfolding handle_set_activity
handle_set_activity_lem w id query_client_id way_taken event s =
    let (cmd, response) = fixed_command w query_client_id event in
    let d = forward_to_sink w way_taken cmd s.outlet in
    let c = confirm_outlet w id response (record s { outlet = d.1 }) in (refl, c.0, c.1, c.2)

module _ (w : GameAnswers) (id : ClientId) (query_client_id : Option AppId) (event : ActivityCmd)
    (s : Transport) where
  abbrev pub new_record : PublishedSlot
  new_record = slot_of_event query_client_id event

  abbrev pub noted_state : Transport
  noted_state = if clears event then s else update_client id (noted new_record) s

  abbrev pub admission : Option Admission
  admission = admit (clears event) new_record (get s.clients id)

  abbrev pub handled : Bool × Bool × Transport
  handled =
      handle_set_activity w id query_client_id
        (way (clears event) (has_backlog noted_state.outlet.pending) admission) event noted_state

  noted_state_outlet : noted_state.outlet ≡ s.outlet
  noted_state_outlet = elim (Bool-cases (clears event)) [
    | inl e ↦ rw e refl
    | inr e ↦ rw e (update_client_outlet id (noted new_record) s)
  ]

  abbrev delivery_at : Outlet → Bool × Outlet
  delivery_at o =
      forward_to_sink w (way (clears event) (has_backlog o.pending) admission)
        (fixed_command w query_client_id event).0 o

  pub handled_lem :
      (handled.1 ≡ (delivery w id query_client_id event s).0)
      × (handled.2.outlet ≡ (delivery w id query_client_id event s).1)
      × (handled.2.clients ≡ noted_state.clients)
      × (handled.2.total ≡ noted_state.total)
  handled_lem =
      let way_taken = way (clears event) (has_backlog noted_state.outlet.pending) admission in
      let l = handle_set_activity_lem w id query_client_id way_taken event noted_state in
      (
        l.0 ∙ ap (λ (o : Outlet). (delivery_at o).0) noted_state_outlet,
        l.1 ∙ ap (λ (o : Outlet). (delivery_at o).1) noted_state_outlet,
        l.2,
        l.3,
      )

  pub result_outlet :
      (on_set_activity w id query_client_id event s).1.outlet
      ≡ (delivery w id query_client_id event s).1
  unfolding on_set_activity
  result_outlet =
      update_client_outlet id (settle handled.1 (clears event) new_record.pid admission) handled.2
      ∙ handled_lem.1

  -- `SET_ACTIVITY` after the flush, which leaves nothing waiting or the sink full, where the sink stays
  -- open, stays full while it is, and the queue has room: a command that is delivered goes behind all
  -- that was sent or waits, in the form that fixed_command gives it, and one that is not leaves all of
  -- that as it was.
  pub on_set_activity_orders :
      IsSteady w.ask
      → IsHeld w.ask s.outlet
      → length s.outlet.pending < max_pending_commands
      → stream (on_set_activity w id query_client_id event s).1.outlet ≡ (
          if (delivery w id query_client_id event s).0
          then stream s.outlet ++ (fixed_command w query_client_id event).0 ∷ []
          else stream s.outlet)
  on_set_activity_orders steady h room =
      ap stream result_outlet
      ∙ (way-Placed w steady (fixed_command w query_client_id event).0 s.outlet room
          s.outlet.pending refl h (clears event) admission).0
