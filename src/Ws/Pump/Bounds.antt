-- ===== src/Ws/Pump/Bounds.antt =====
-- The queue of waiting commands never outgrows its bound.
use discord_rich_presence.Prelude.{
  ℕ, suc, ◌+◌, ◌≤◌, ◌<◌, ◌≡◌, refl, ap, Bool, not, List, [], ◌∷◌, length, drop, select, arith,
  length-append,
}
use discord_rich_presence.Types.Cmd.{ActivityCmd}
use discord_rich_presence.Ws.Sink.{
  max_pending_commands, disconnect_clear_budget, PublishedSlot, PendingPayload, PendingEntry,
  parked, clear, Answer, accepts, is_full, is_closed, Outlet, count_shed, stage, stage_publish,
  stage_clear, from_slot, clear_for_slot, try_answered, emit_answered, emit, try_emit,
  publish_outcome, emit_or_stage_publish, flush_pending, expire_pending, has_lapsed,
}
use discord_rich_presence.Ws.Sink.Order.{length-flush_pending-le}
use discord_rich_presence.Ws.Handlers.{
  GameAnswers, Forward, direct, staged, refused, forward_to_sink,
}
use discord_rich_presence.Ws.Pump.{clear_outcome, clear_published, retry_round}

abbrev pub Fits : Outlet → Type 0
Fits o = length o.pending ≤ max_pending_commands

length-drop_one : {A : Type 0} (xs : List A) → 0 < length xs → suc (length (drop 1 xs)) ≡ length xs
length-drop_one [] h = elim h [ ]
length-drop_one (x ∷ xs) h = refl

length-select-le : {A : Type 0} (p : A → Bool) (xs : List A) → length (select p xs) ≤ length xs
length-select-le p [] = omega arith
length-select-le p (x ∷ xs) = ground (arith, length-select-le p xs)

stage-Fits : (now : ℕ) (p : PendingPayload) (o : Outlet) → Fits o → Fits (stage now p o)
unfolding stage count_shed
stage-Fits now p o h =
    let e : PendingEntry = record { payload = p; deadline = now + disconnect_clear_budget } in
    ground (
      arith,
      length-append o.pending (e ∷ []),
      length-append (drop 1 o.pending) (e ∷ []),
      length-drop_one o.pending,
    )

module _ (w : GameAnswers) where
  clear_outcome-Fits :
      (p : PublishedSlot) (o : Outlet) (a : Answer)
      → Fits o
      → Fits (clear_outcome w p (try_answered a (clear_for_slot p) o))
  unfolding clear_outcome try_answered stage_clear count_shed
  clear_outcome-Fits p o accepts h = h
  clear_outcome-Fits p o is_full h =
      stage-Fits w.now (clear (from_slot p)) (record o { tried = o.tried + 1 }) h
  clear_outcome-Fits p o is_closed h = h

  pub clear_published-Fits :
      (ps : List PublishedSlot) (o : Outlet) → Fits o → Fits (clear_published w ps o)
  unfolding clear_published try_emit
  clear_published-Fits [] o h = h
  clear_published-Fits (p ∷ ps) o h =
      clear_published-Fits ps
        (clear_outcome w p (try_answered (w.ask o.tried) (clear_for_slot p) o))
        (clear_outcome-Fits p o (w.ask o.tried) h)

  emit_answered_pending :
      (a : Answer) (cmd : ActivityCmd) (o : Outlet) → (emit_answered a cmd o).1.pending ≡ o.pending
  unfolding emit_answered count_shed
  emit_answered_pending accepts cmd o = refl
  emit_answered_pending is_full cmd o = refl
  emit_answered_pending is_closed cmd o = refl

  pub emit_pending : (cmd : ActivityCmd) (o : Outlet) → (emit w.ask cmd o).1.pending ≡ o.pending
  unfolding emit
  emit_pending cmd o = emit_answered_pending (w.ask o.tried) cmd o

  publish_outcome-Fits :
      (a : Answer) (cmd : ActivityCmd) (o : Outlet)
      → Fits o
      → Fits (publish_outcome w.now (try_answered a cmd o)).1
  unfolding publish_outcome try_answered stage_publish count_shed
  publish_outcome-Fits accepts cmd o h = h
  publish_outcome-Fits is_full cmd o h =
      stage-Fits w.now (parked cmd) (record o { tried = o.tried + 1 }) h
  publish_outcome-Fits is_closed cmd o h = h

  pub forward_to_sink-Fits :
      (f : Forward) (cmd : ActivityCmd) (o : Outlet) → Fits o → Fits (forward_to_sink w f cmd o).1
  unfolding forward_to_sink emit_or_stage_publish try_emit
  forward_to_sink-Fits direct cmd o h = omega (arith, h, ap length (emit_pending cmd o))
  forward_to_sink-Fits staged cmd o h = publish_outcome-Fits (w.ask o.tried) cmd o h
  forward_to_sink-Fits refused cmd o h = h

  pub flush_pending-Fits : (o : Outlet) → Fits o → Fits (flush_pending w.ask o)
  flush_pending-Fits o h = omega (arith, h, length-flush_pending-le w.ask o)

  pub retry_round-Fits : (o : Outlet) → Fits o → Fits (retry_round w o)
  unfolding retry_round expire_pending count_shed
  retry_round-Fits o h =
      let keep = λ (e : PendingEntry). not (has_lapsed w.now e) in
      let f = flush_pending w.ask o in
      omega (arith, flush_pending-Fits o h, length-select-le keep f.pending)
