-- ===== src/Ws/Pump/Order.antt =====
-- No command overtakes those that wait, while a sink that is found full stays full for the event.
use discord_rich_presence.Prelude.{
  ℕ, suc, ◌+◌, ◌≤◌, ◌<◌, ◌≡◌, ◌≢◌, refl, ap, sym, ◌∙◌, ◌⊎◌, inl, inr, false, List, [], ◌∷◌, ◌++◌,
  length, arith, length-append, leb,
}
use mathlib.Core.List.{append_assoc, append-nil}
use discord_rich_presence.Types.Cmd.{ActivityCmd}
use discord_rich_presence.Ws.Sink.{
  disconnect_clear_budget, PendingEntry, max_pending_commands, PendingPayload, Answer, accepts,
  is_full, is_closed, Outlet, accept, refuse, into_cmd, stage, flush_pending,
}
use discord_rich_presence.Ws.Sink.Order.{
  waiting, stream, waiting-append, Flushed, drained, held, lost, flush_pending_lem,
  length-flush_pending-le,
}

-- The sink is not closed, and a sink that is found full stays full.
pub record IsSteady (ask : ℕ → Answer) : Type 0 where
  pub open_sink : (n : ℕ) → ask n ≢ is_closed
  pub stays_full : (n : ℕ) → ask n ≡ is_full → ask (n + 1) ≡ is_full

-- Nothing waits, or the sink is full.
abbrev pub IsHeld : (ℕ → Answer) → Outlet → Type 0
IsHeld ask o = (o.pending ≡ []) ⊎ (ask o.tried ≡ is_full)

stream-accept :
    (cmd : ActivityCmd) (o : Outlet) → o.pending ≡ [] → stream (accept cmd o) ≡ stream o ++ cmd ∷ []
stream-accept cmd o e = rw e (
    append-nil (o.emitted ++ cmd ∷ [])
    ∙ ap (λ (l : List ActivityCmd). l ++ cmd ∷ []) (sym (append-nil o.emitted)))

stream-stage :
    (now : ℕ) (p : PendingPayload) (o : Outlet)
    → length o.pending < max_pending_commands
    → stream (stage now p o) ≡ stream o ++ into_cmd p ∷ []
unfolding stage
stream-stage now p o h =
    let e : PendingEntry = record { payload = p; deadline = now + disconnect_clear_budget } in
    let room : leb max_pending_commands (length o.pending) ≡ false = ground arith in
    rw room (
      ap (λ (l : List ActivityCmd). o.emitted ++ l) (waiting-append o.pending (e ∷ []))
      ∙ sym (append_assoc o.emitted (waiting o.pending) (into_cmd p ∷ [])))

stage_room :
    (now : ℕ) (p : PendingPayload) (o : Outlet)
    → length o.pending < max_pending_commands
    → (length (stage now p o).pending ≡ suc (length o.pending))
      × ((stage now p o).dropped ≡ o.dropped)
      × ((stage now p o).tried ≡ o.tried)
unfolding stage
stage_room now p o h =
    let e : PendingEntry = record { payload = p; deadline = now + disconnect_clear_budget } in
    let room : leb max_pending_commands (length o.pending) ≡ false = ground arith in
    rw room (omega (arith, length-append o.pending (e ∷ [])), refl, refl)

-- The commands `cmds` have gone behind all that were there, sent or waiting; none is lost.
pub record Appended (ask : ℕ → Answer) (o t : Outlet) (cmds : List ActivityCmd) : Type 0 where
  pub in_order : stream t ≡ stream o ++ cmds
  pub kept : IsHeld ask t
  pub grown : length t.pending ≤ length o.pending + length cmds
  pub counted : t.dropped ≡ o.dropped

pub Appended-trans :
    (ask : ℕ → Answer) (o t u : Outlet) (xs ys : List ActivityCmd)
    → Appended ask o t xs
    → Appended ask t u ys
    → Appended ask o u (xs ++ ys)
Appended-trans ask o t u xs ys a b = record {
  in_order =
      b.in_order
      ∙ ap (λ (l : List ActivityCmd). l ++ ys) a.in_order
      ∙ append_assoc (stream o) xs ys;
  kept = b.kept;
  grown = omega (arith, a.grown, b.grown, length-append xs ys);
  counted = b.counted ∙ a.counted;
}

module _ (ask : ℕ → Answer) (steady : IsSteady ask) where
  pub accept-Appended :
      (cmd : ActivityCmd) (o : Outlet)
      → ask o.tried ≡ accepts
      → IsHeld ask o
      → Appended ask o (accept cmd o) (cmd ∷ [])
  accept-Appended cmd o e (inr refused) = cc
  accept-Appended cmd o e (inl none_waits) = record {
    in_order = stream-accept cmd o none_waits;
    kept = inl none_waits;
    grown = omega arith;
    counted = refl;
  }

  pub stage-Appended :
      (now : ℕ) (p : PendingPayload) (o : Outlet)
      → ask o.tried ≡ is_full
      → length o.pending < max_pending_commands
      → Appended ask o (stage now p (refuse o)) (into_cmd p ∷ [])
  stage-Appended now p o e room =
      let (l, d, t) = stage_room now p (refuse o) room in
      record {
        in_order = stream-stage now p (refuse o) room;
        kept = inr (rw t (steady.stays_full o.tried e));
        grown = omega (arith, l);
        counted = d;
      }

  Flushed-Appended :
      (o t : Outlet)
      → Flushed ask o t o.pending
      → length t.pending ≤ length o.pending
      → Appended ask o t []
  Flushed-Appended o t (drained p s d) l = record {
    in_order = rw p (append-nil t.emitted ∙ s ∙ sym (append-nil (stream o)));
    kept = inl p;
    grown = omega (arith, l);
    counted = d;
  }
  Flushed-Appended o t (held (n, tried, e) p s d) l = record {
    in_order = s ∙ sym (append-nil (stream o));
    kept = inr (ground (arith, tried, steady.stays_full n e));
    grown = omega (arith, l);
    counted = d;
  }
  Flushed-Appended o t (lost (n, tried, e) p ahead x behind q s d) l = absurd (steady.open_sink n e)

  pub flush_pending-Appended : (o : Outlet) → Appended ask o (flush_pending ask o) []
  flush_pending-Appended o =
      Flushed-Appended o (flush_pending ask o) (flush_pending_lem ask o)
        (length-flush_pending-le ask o)
