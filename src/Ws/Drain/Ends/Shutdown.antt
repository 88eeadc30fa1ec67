-- ===== src/Ws/Drain/Ends/Shutdown.antt =====
-- The shutdown ends and leaves nothing behind.
use discord_rich_presence.Prelude.{
  ℕ, zero, suc, ◌+◌, ◌-◌, ◌%◌, ◌≤◌, ◌<◌, ◌≡◌, refl, ◌∙◌, inl, inr, Bool, true, false, Option, some,
  List, [], ◌∷◌, length, leb, drop, arith, Bool-cases,
}
use discord_rich_presence.Prelude.HashMap.{HashMap}
use discord_rich_presence.Types.Ids.{u64_mod}
use discord_rich_presence.Types.Cmd.{ActivityCmd}
use discord_rich_presence.Ws.Sink.{
  disconnect_clear_budget, PublishedSlot, PendingPayload, PendingEntry, clear, Answer, accepts,
  is_full, is_closed, Outlet, count_shed, accept, refuse, into_cmd, from_slot, stage, stage_clear,
  try_answered, try_emit, flush_pending, max_pending_commands,
}
use discord_rich_presence.Ws.Slots.{ClientSlot}
use discord_rich_presence.Ws.Handlers.{ClientId, Transport}
use discord_rich_presence.Ws.Pump.{has_backlog}
use discord_rich_presence.Ws.Drain.Ends.{DueBy, DueBy-append, DueBy-drop_one, flush_pending-DueBy}
use discord_rich_presence.Ws.Drain.{
  retry_outcome, emit_clear_retry, drain_batch, take_pending, drain_all, stage_published,
  drain_clients, shutdown,
}

stage-DueBy :
    (d now : ℕ) (p : PendingPayload) (o : Outlet)
    → now + disconnect_clear_budget ≤ d
    → DueBy d o.pending
    → DueBy d (stage now p o).pending
unfolding stage count_shed
stage-DueBy d now p o soon a =
    let e : PendingEntry = record { payload = p; deadline = now + disconnect_clear_budget } in
    elim (Bool-cases (leb max_pending_commands (length o.pending))) [
      | inl overflow ↦
          rw overflow
            (DueBy-append d (drop 1 o.pending) (e ∷ []) (DueBy-drop_one d o.pending a) (soon, tt))
      | inr room ↦ rw room (DueBy-append d o.pending (e ∷ []) a (soon, tt))
    ]

stage_published-DueBy :
    (d now : ℕ) (ps : List PublishedSlot) (o : Outlet)
    → now + disconnect_clear_budget ≤ d
    → DueBy d o.pending
    → DueBy d (stage_published now ps o).pending
unfolding stage_published stage_clear
stage_published-DueBy d now [] o soon a = a
stage_published-DueBy d now (p ∷ ps) o soon a =
    stage_published-DueBy d now ps (stage_clear now p o) soon
      (stage-DueBy d now (clear (from_slot p)) o soon a)

-- Draining leaves no client, a census of none, and a queue that is due in time.
drain_clients_lem :
    (d now : ℕ) (m : HashMap ClientId ClientSlot) (s : Transport)
    → now + disconnect_clear_budget ≤ d
    → DueBy d s.outlet.pending
    → s.total ≡ length m % u64_mod
    → ((drain_clients now m s).clients ≡ [])
      × ((drain_clients now m s).total ≡ 0)
      × DueBy d (drain_clients now m s).outlet.pending
unfolding drain_clients
drain_clients_lem d now [] s soon a census = (refl, omega (arith, census), a)
drain_clients_lem d now ((id, slot) ∷ m) s soon a census =
    drain_clients_lem d now m
      (record s {
        total = (s.total + u64_mod - 1) % u64_mod;
        outlet = stage_published now slot.published s.outlet;
      })
      soon (stage_published-DueBy d now slot.published s.outlet soon a) (omega (arith, census))

module _ (ask : ℕ → Answer) (clock : ℕ → ℕ) (d m : ℕ) (late : (n : ℕ) → m ≤ n → d ≤ clock n) where
  retry_outcome_ends :
      (deadline : ℕ) (again : ActivityCmd → Outlet → Option (Bool × Outlet)) (cmd : ActivityCmd)
      (o : Outlet) (a : Answer) (now : ℕ)
      → (leb deadline now ≡ false
          → (r : Bool × Outlet) × (again cmd (refuse o) ≡ some r) × (r.1.pending ≡ o.pending))
      → (r : Bool × Outlet) × (retry_outcome now deadline again (try_answered a cmd o) ≡ some r)
        × (r.1.pending ≡ o.pending)
  unfolding retry_outcome try_answered count_shed
  retry_outcome_ends deadline again cmd o accepts now ih = ((true, accept cmd o), refl, refl)
  retry_outcome_ends deadline again cmd o is_full now ih = elim (Bool-cases (leb deadline now)) [
    | inl over ↦ ((false, count_shed 1 (refuse o)), rw over refl, refl)
    | inr open_still ↦ rw open_still (ih open_still)
  ]
  retry_outcome_ends deadline again cmd o is_closed now ih =
      ((false, count_shed 1 (refuse o)), refl, refl)

  -- Fuel `k` is enough from the attempt at which `k` more bring the clock past the deadline.
  emit_clear_retry_from :
      (k deadline : ℕ) (cmd : ActivityCmd) (o : Outlet)
      → deadline ≤ d
      → m < o.tried + k
      → 0 < k
      → (r : Bool × Outlet) × (emit_clear_retry ask clock k deadline cmd o ≡ some r)
        × (r.1.pending ≡ o.pending)
  unfolding emit_clear_retry try_emit
  emit_clear_retry_from zero deadline cmd o due h pos = elim pos [ ]
  emit_clear_retry_from (suc k) deadline cmd o due h pos =
      retry_outcome_ends deadline (λ c t. emit_clear_retry ask clock k deadline c t) cmd o
        (ask o.tried) (clock o.tried)
        (λ early.
          emit_clear_retry_from k deadline cmd (refuse o) due (omega (arith, h))
            (ground (arith, late o.tried)))

  drain_batch_ends :
      (fuel : ℕ) (batch : List PendingEntry) (o : Outlet)
      → m < fuel
      → DueBy d batch
      → (t : Outlet) × (drain_batch ask clock fuel batch o ≡ some t) × (t.pending ≡ o.pending)
  unfolding drain_batch
  drain_batch_ends fuel [] o enough a = (o, refl, refl)
  drain_batch_ends fuel (e ∷ batch) o enough (due, a) =
      let (r, sent_one, same) =
        emit_clear_retry_from fuel e.deadline (into_cmd e.payload) o due (omega (arith, enough))
          (omega (arith, enough)) in
      let (t, rest, kept) = drain_batch_ends fuel batch r.1 enough a in
      (t, rw sent_one rest, kept ∙ same)

  drain_all_ends :
      (fuel : ℕ) (o : Outlet)
      → m < fuel
      → DueBy d o.pending
      → (t : Outlet) × (drain_all ask clock fuel 2 o ≡ some t) × (t.pending ≡ [])
  unfolding drain_all take_pending
  drain_all_ends fuel o enough a =
      let (t, done, empty) = drain_batch_ends fuel o.pending (record o { pending = [] }) enough a in
      elim (Bool-cases (has_backlog o.pending)) [
        | inl more ↦ (record t { pending = [] }, rw (more, done, empty) refl, refl)
        | inr none_left ↦ (record o { pending = [] }, rw none_left refl, refl)
      ]

  -- When the clock passes every deadline after some number `m` of attempts, a shutdown ends, with
  -- more than `m` attempts for each command and two batches, whatever the sink answers. No client is
  -- left, the census is zero, and nothing waits.
  pub shutdown_ends :
      (now fuel : ℕ) (s : Transport)
      → m < fuel
      → now + disconnect_clear_budget ≤ d
      → DueBy d s.outlet.pending
      → s.total ≡ length s.clients % u64_mod
      → (t : Transport) × (shutdown ask clock now fuel 2 s ≡ some t)
        × (t.clients ≡ [])
        × (t.total ≡ 0)
        × (t.outlet.pending ≡ [])
  unfolding shutdown
  shutdown_ends now fuel s enough soon a census =
      let s' = drain_clients now s.clients s in
      let (no_clients, none_counted, due) = drain_clients_lem d now s.clients s soon a census in
      let o = flush_pending ask s'.outlet in
      let (o', done, empty) =
        drain_all_ends fuel o enough (flush_pending-DueBy d ask s'.outlet due) in
      (record s' { outlet = o' }, rw done refl, no_clients, none_counted, empty)
