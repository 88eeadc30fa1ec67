-- ===== src/Ws/Pump/Invariant.antt =====
-- The bounds of the transport, over any run of the pump.
use mathlib.Core.Path.{subst}
use discord_rich_presence.Prelude.{
  ℕ, ◌≡◌, refl, sym, ap, Bool, true, false, Option, none, some, List, [], ◌∷◌, length, arith,
  nat_key, if◌then◌else◌, both_branches, unwrap_or, not, ◌||◌, ◌&&◌, ◌==◌, string_key,
}
use discord_rich_presence.Prelude.HashMap.{HashMap, get}
use discord_rich_presence.Protocol.Query.{query_param}
use discord_rich_presence.Types.Ids.{AppId}
use discord_rich_presence.Types.Cmd.{ActivityCmd}
use discord_rich_presence.Ws.Sink.{flush_pending}
use discord_rich_presence.Ws.Slots.{ClientSlot}
use discord_rich_presence.Ws.Handlers.{
  ClientId, Transport, GameAnswers, ready, closing, reply, fixed_command,
}
use discord_rich_presence.Ws.Pump.{
  Details, Event, connected, disconnected, received, retried, Features, Frame, text, other,
  new_slot, register, on_connect, remove_found, remove_and_clear, update_client,
  game_origin_allowed, settle, way, clears, has_backlog, noted, on_set_activity, on_other, pruned,
  on_command, on_frame_of, on_message, handle_event, pump_loop, started,
}
use discord_rich_presence.Ws.Pump.Bounds.{
  Fits, clear_published-Fits, forward_to_sink-Fits, flush_pending-Fits, retry_round-Fits,
}
use discord_rich_presence.Ws.Pump.Counted.{
  AreCounted, empty_IsBounded, insert_new-AreCounted, remove-AreCounted, Changes,
  update_client-Changes, Changes-trans, Changes-AreCounted, same_Changes,
}
use discord_rich_presence.Ws.Pump.Publishes.{
  new_record, noted_state, admission, handled, handled_lem, result_outlet,
}
use discord_rich_presence.Ws.Pump.Others.{Untouched, on_other_Untouched}
use discord_rich_presence.Ws.Pump.Publishes.Tracks.{on_set_activity_tracks}

pub record IsSound (s : Transport) : Type 0 where
  pub fits : Fits s.outlet
  pub counted : AreCounted s.clients s.total

module _ (w : GameAnswers) (id : ClientId) (q : Option AppId) (event : ActivityCmd)
    (s : Transport) where
  noted_state-Changes : Changes id s (noted_state w id q event s)
  noted_state-Changes =
      both_branches (Changes id s) (clears event) s
        (update_client id (noted (new_record w id q event s)) s) (same_Changes id s s refl refl)
        (update_client-Changes id (noted (new_record w id q event s)) s)

  on_set_activity-Changes : Changes id s (on_set_activity w id q event s).1
  unfolding on_set_activity
  on_set_activity-Changes =
      let n = noted_state w id q event s in
      let h = handled w id q event s in
      let l = handled_lem w id q event s in
      let change =
        settle h.1 (clears event) (new_record w id q event s).pid (admission w id q event s) in
      Changes-trans id s h.2 (update_client id change h.2)
        (Changes-trans id s n h.2 noted_state-Changes (same_Changes id n h.2 l.2 l.3))
        (update_client-Changes id change h.2)

  on_set_activity-Fits : Fits s.outlet → Fits (on_set_activity w id q event s).1.outlet
  on_set_activity-Fits f = subst Fits (sym (result_outlet w id q event s)) (
      forward_to_sink-Fits w
        (way (clears event) (has_backlog s.outlet.pending) (admission w id q event s))
        (fixed_command w q event).0 s.outlet f)

module _ (w : GameAnswers) where
  on_connect-IsSound :
      (id : ClientId) (d : Details) (s : Transport)
      → get s.clients id ≡ none
      → IsSound s
      → IsSound (on_connect w id d s)
  unfolding on_connect reply
  on_connect-IsSound id d s new v =
      let refused = (reply w id closing s).1 in
      let r = (reply w id (ready w.user) s).1 in
      let joined = register id (new_slot d) r in
      let answered = if w.takes then joined else r in
      let version = unwrap_or (query_param d.uri "v") "0" in
      let encoding = unwrap_or (query_param d.uri "encoding") "json" in
      let origin = not (game_origin_allowed d.origin) in
      let refused_v : IsSound refused = record { fits = v.fits; counted = v.counted } in
      let answered_v : IsSound answered =
        both_branches IsSound w.takes joined r
          (record {
            fits = v.fits;
            counted = insert_new-AreCounted v.counted id (new_slot d) (empty_IsBounded d) new;
          })
          (record { fits = v.fits; counted = v.counted }) in
      both_branches IsSound (not (version == "1") || not (encoding == "json")) refused
        (if origin then refused else answered) refused_v
        (both_branches IsSound origin refused answered refused_v answered_v)

  remove_found-IsSound :
      (id : ClientId) (o : Option ClientSlot) (s : Transport)
      → get s.clients id ≡ o
      → IsSound s
      → IsSound (remove_found w id o s)
  unfolding remove_found
  remove_found-IsSound id none s e v = v
  remove_found-IsSound id (some slot) s e v = record {
    fits =
        clear_published-Fits w slot.published (flush_pending w.ask s.outlet)
          (flush_pending-Fits w s.outlet v.fits);
    counted = remove-AreCounted v.counted id (cc);
  }

  remove_and_clear-IsSound :
      (id : ClientId) (s : Transport) → IsSound s → IsSound (remove_and_clear w id s)
  unfolding remove_and_clear
  remove_and_clear-IsSound id s v = remove_found-IsSound id (get s.clients id) s refl v

  Untouched-IsSound :
      (s : Transport) (r : Bool × Transport) → Untouched s r → IsSound s → IsSound r.1
  Untouched-IsSound s r (c, t, p) v = record {
    fits = omega (arith, v.fits, ap length p);
    counted =
        subst (λ (n : ℕ). AreCounted r.1.clients n) (sym t)
          (subst (λ (m : HashMap ClientId ClientSlot). AreCounted m s.total) (sym c) v.counted);
  }

  on_set_activity-IsSound :
      (id : ClientId) (q : Option AppId) (event : ActivityCmd) (s : Transport) (slot : ClientSlot)
      → get s.clients id ≡ some slot
      → IsSound s
      → IsSound (on_set_activity w id q event s).1
  on_set_activity-IsSound id q event s slot found v =
      let (slot', there, bounded, all) =
        on_set_activity_tracks w id q event s slot found (v.counted.slots id slot found) in
      record {
        fits = on_set_activity-Fits w id q event s v.fits;
        counted =
            Changes-AreCounted id s (on_set_activity w id q event s).1 slot'
              (on_set_activity-Changes w id q event s) there bounded v.counted;
      }

  pruned-IsSound : (id : ClientId) (r : Bool × Transport) → IsSound r.1 → IsSound (pruned w id r)
  unfolding pruned
  pruned-IsSound id (true, s) v = v
  pruned-IsSound id (false, s) v = remove_and_clear-IsSound id s v

  module _ (features : Features) where
    on_command-IsSound :
        (id : ClientId) (slot : ClientSlot) (o : Option ActivityCmd) (s : Transport)
        → get s.clients id ≡ some slot
        → IsSound s
        → IsSound (on_command w features id slot.query_client_id o s)
    unfolding on_command
    on_command-IsSound id slot none s found v = v
    on_command-IsSound id slot (some event) s found v =
        let q = slot.query_client_id in
        let sets = on_set_activity w id q event s in
        let others = on_other w features id event s in
        pruned-IsSound id
          (if event.cmd == "SET_ACTIVITY" && features.set_activity then sets else others)
          (both_branches (λ (r : Bool × Transport). IsSound r.1)
            (event.cmd == "SET_ACTIVITY" && features.set_activity) sets others
            (on_set_activity-IsSound id q event s slot found v)
            (Untouched-IsSound s others (on_other_Untouched w features id event s) v))

    on_frame_of-IsSound :
        (id : ClientId) (o : Option ClientSlot) (frame : Frame) (s : Transport)
        → get s.clients id ≡ o
        → IsSound s
        → IsSound (on_frame_of w features id o frame s)
    unfolding on_frame_of
    on_frame_of-IsSound id none frame s found v = v
    on_frame_of-IsSound id (some slot) other s found v = v
    on_frame_of-IsSound id (some slot) (text t) s found v =
        on_command-IsSound id slot (w.parse t) s found v

    on_message-IsSound :
        (id : ClientId) (frame : Frame) (s : Transport)
        → IsSound s
        → IsSound (on_message w features id frame s)
    unfolding on_message
    on_message-IsSound id frame s v =
        let t : Transport = record s { outlet = flush_pending w.ask s.outlet } in
        on_frame_of-IsSound id (get t.clients id) frame t refl
          (record { fits = flush_pending-Fits w s.outlet v.fits; counted = v.counted })

-- The hub gives each connection an id that no registered client has.
abbrev pub IsFresh : Event → Transport → Type 0
IsFresh (connected id d) s = get s.clients id ≡ none
IsFresh (disconnected id) s = Unit
IsFresh (received id frame) s = Unit
IsFresh retried s = Unit

handle_event-IsSound :
    (w : GameAnswers) (features : Features) (event : Event) (s : Transport)
    → IsFresh event s
    → IsSound s
    → IsSound (handle_event w features event s)
unfolding handle_event
handle_event-IsSound w features (connected id d) s new v = on_connect-IsSound w id d s new v
handle_event-IsSound w features (disconnected id) s new v = remove_and_clear-IsSound w id s v
handle_event-IsSound w features (received id frame) s new v =
    on_message-IsSound w features id frame s v
handle_event-IsSound w features retried s new v = record {
  fits = retry_round-Fits w s.outlet v.fits;
  counted = v.counted;
}

abbrev pub AreFresh : Features → List (GameAnswers × Event) → Transport → Type 0
AreFresh features [] s = Unit
AreFresh features ((w, event) ∷ events) s =
    IsFresh event s × AreFresh features events (handle_event w features event s)

pump_loop-IsSound :
    (features : Features) (events : List (GameAnswers × Event)) (s : Transport)
    → AreFresh features events s
    → IsSound s
    → IsSound (pump_loop features events s)
unfolding pump_loop
pump_loop-IsSound features [] s fresh v = v
pump_loop-IsSound features ((w, event) ∷ events) s (new, fresh) v =
    pump_loop-IsSound features events (handle_event w features event s) fresh
      (handle_event-IsSound w features event s new v)

started-IsSound : IsSound started
unfolding get
started-IsSound = record {
  fits = omega arith;
  counted = record {
    slots = λ id slot h. absurd (ground (arith, h));
    unique = tt;
    census = omega arith;
  };
}

-- Whatever events a transport handles from its start, and whatever the outside answers, at most 256
-- commands wait, every client has at most 16 records and one for each pid, and the census counts the
-- clients; the hub must give each connection an id that is not registered.
pub pump_loop_bounds :
    (features : Features) (events : List (GameAnswers × Event))
    → AreFresh features events started
    → IsSound (pump_loop features events started)
pump_loop_bounds features events fresh =
    pump_loop-IsSound features events started fresh started-IsSound
