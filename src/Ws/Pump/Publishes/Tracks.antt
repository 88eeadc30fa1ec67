-- ===== src/Ws/Pump/Publishes/Tracks.antt =====
-- What is forwarded is tracked, and what is not leaves no trace.
use discord_rich_presence.Prelude.{
  ℕ, ◌≡◌, refl, ap, sym, ◌∙◌, inl, inr, Bool, true, false, ◌&&◌, Option, none, some, arith, nat_key,
  eqn, eqn_iff, if◌then◌else◌, Bool-cases,
}
use discord_rich_presence.Prelude.HashMap.{HashMap, get, get-insert}
use discord_rich_presence.Types.Ids.{AppId}
use discord_rich_presence.Types.Cmd.{ActivityCmd}
use discord_rich_presence.Ws.Sink.{PublishedSlot, Outlet}
use discord_rich_presence.Ws.Slots.{
  ClientSlot, Admission, admitted, refused_full, note_published, find_slot, forget_published,
}
use discord_rich_presence.Ws.Slots.Tracked.{
  IsBounded, is_admitted, note_published_lem, note_published-IsBounded, find_slot-remove_slot,
  forget_published-IsBounded, rollback_publish-note_published, rollback_publish-IsBounded,
}
use discord_rich_presence.Ws.Handlers.{
  ClientId, Transport, GameAnswers, forward_to_sink, fixed_command,
}
use discord_rich_presence.Ws.Pump.{
  update_slot, update_client, admit, noted, way, settle, clears, has_backlog, on_set_activity,
}
use discord_rich_presence.Ws.Pump.Publishes.{
  delivery, new_record, noted_state, admission, handled, handled_lem,
}

module _ (slot : ClientSlot) (new : PublishedSlot) (v : IsBounded slot) where
  abbrev Settled : Bool → Bool → ClientSlot → Type 0
  Settled delivered is_clear t =
      IsBounded t
      × ((p : ℕ)
          → find_slot p t.published ≡ (
              if delivered && eqn new.pid p
              then (if is_clear then none else some new)
              else find_slot p slot.published))

  settle_publish :
      (a : Admission)
      → (note_published new slot).1 ≡ a
      → (delivered : Bool) → (delivered ≡ true → is_admitted a ≡ true)
      → Settled delivered false (settle delivered false new.pid (some a) (noted new slot))
  unfolding settle
  settle_publish a e true ok =
      let l = note_published_lem slot new v in
      (note_published-IsBounded slot new v, λ p. ground (arith, l.1 p, ok refl, e))
  settle_publish refused_full e false ok =
      let l = note_published_lem slot new v in
      (note_published-IsBounded slot new v, λ p. ground (arith, l.1 p, e))
  settle_publish (admitted d) e false ok =
      (rollback_publish-IsBounded slot new v d e, rollback_publish-note_published slot new v d e)

  settle_clear :
      (delivered : Bool) → Settled delivered true (settle delivered true new.pid none slot)
  unfolding settle forget_published
  settle_clear true = (
    forget_published-IsBounded new.pid v,
    λ p. find_slot-remove_slot p new.pid slot.published v.one_each,
  )
  settle_clear false = (v, λ p. refl)

  abbrev base : Bool → ClientSlot
  base is_clear = if is_clear then slot else noted new slot

  abbrev admits : Bool → Option Admission
  admits is_clear = if is_clear then none else some (note_published new slot).1

  settled :
      (is_clear delivered : Bool)
      → (is_clear ≡ false → delivered ≡ true → is_admitted (note_published new slot).1 ≡ true)
      → Settled delivered is_clear
          (settle delivered is_clear new.pid (admits is_clear) (base is_clear))
  settled true delivered ok = settle_clear delivered
  settled false delivered ok = settle_publish (note_published new slot).1 refl delivered (ok refl)

  admit-admits : (is_clear : Bool) → admit is_clear new (some slot) ≡ admits is_clear
  unfolding admit
  admit-admits is_clear = refl

forward_to_sink_admitted :
    (w : GameAnswers) (backlog : Bool) (a : Admission) (cmd : ActivityCmd) (o : Outlet)
    → (forward_to_sink w (way false backlog (some a)) cmd o).0 ≡ true
    → is_admitted a ≡ true
unfolding forward_to_sink way
forward_to_sink_admitted w backlog (admitted d) cmd o h = refl
forward_to_sink_admitted w backlog refused_full cmd o h = cc

get-update_client :
    (id : ClientId) (change : ClientSlot → ClientSlot) (s : Transport) (slot : ClientSlot)
    → get s.clients id ≡ some slot
    → get (update_client id change s).clients id ≡ some (change slot)
unfolding update_client update_slot
get-update_client id change s slot found =
    rw (found, update_slot)
      (ground (arith, get-insert s.clients id id (change slot), eqn_iff id id))

module _ (w : GameAnswers) (id : ClientId) (query_client_id : Option AppId) (event : ActivityCmd)
    (s : Transport) where
  noted_found :
      (slot : ClientSlot) (found : get s.clients id ≡ some slot) (v : IsBounded slot)
      → get (noted_state w id query_client_id event s).clients id
        ≡ some (base slot (new_record w id query_client_id event s) v (clears event))
  noted_found slot found v = elim (Bool-cases (clears event)) [
    | inl e ↦ rw e found
    | inr e ↦
        rw e (get-update_client id (noted (new_record w id query_client_id event s)) s slot found)
  ]

  -- The records of the client after `SET_ACTIVITY`. A publish that is delivered is tracked under its
  -- pid, a clear that is delivered frees its pid, and a command that is not delivered leaves every
  -- pid as it was.
  pub on_set_activity_tracks :
      (slot : ClientSlot)
      → get s.clients id ≡ some slot
      → IsBounded slot
      → (slot' : ClientSlot) × (get (on_set_activity w id query_client_id event s).1.clients id
          ≡ some slot')
        × IsBounded slot'
        × ((p : ℕ)
            → find_slot p slot'.published ≡ (
                if (delivery w id query_client_id event s).0
                  && eqn (new_record w id query_client_id event s).pid p
                then (if clears event then none else some (new_record w id query_client_id event s))
                else find_slot p slot.published))
  unfolding on_set_activity
  on_set_activity_tracks slot found v =
      let h = handled_lem w id query_client_id event s in
      let r = handled w id query_client_id event s in
      let new = new_record w id query_client_id event s in
      let c = clears event in
      let d = (delivery w id query_client_id event s).0 in
      let a = admission w id query_client_id event s in
      let same : a ≡ admits slot new v c =
        ap (λ (o : Option ClientSlot). admit c new o) found ∙ admit-admits slot new v c in
      let there : get r.2.clients id ≡ some (base slot new v c) =
        ap (λ (m : HashMap ClientId ClientSlot). get m id) h.2 ∙ noted_found slot found v in
      let b = has_backlog s.outlet.pending in
      let cmd = (fixed_command w query_client_id event).0 in
      let way_of =
        λ (x : Bool) (y : Option Admission). (forward_to_sink w (way x b y) cmd s.outlet).0 in
      let t = settled slot new v c d (λ publishes delivered.
        forward_to_sink_admitted w b (note_published new slot).1 cmd s.outlet (
          ap (way_of false) (sym (same ∙ ap (admits slot new v) publishes))
          ∙ ap (λ (x : Bool). way_of x a) (sym publishes)
          ∙ delivered)) in
      (
        settle d c new.pid (admits slot new v c) (base slot new v c),
        get-update_client id (settle r.1 c new.pid a) r.2 (base slot new v c) there
            ∙ ap (λ (x : Bool). some (settle x c new.pid a (base slot new v c))) h.0
            ∙ ap (λ (x : Option Admission). some (settle d c new.pid x (base slot new v c))) same,
        t.0,
        t.1,
      )
