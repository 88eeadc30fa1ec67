-- ===== src/Ws/Pump/Clears.antt =====
-- When a connection is gone, every pid that it has published is cleared.
use discord_rich_presence.Prelude.{
  ℕ, suc, ◌+◌, ◌≤◌, ◌≡◌, refl, ap, sym, ◌∙◌, none, some, List, [], ◌∷◌, ◌++◌, length, arith,
  nat_key, eqn, if◌then◌else◌,
}
use discord_rich_presence.Prelude.HashMap.{get, get-remove}
use mathlib.Core.List.{append-nil}
use discord_rich_presence.Types.Cmd.{ActivityCmd}
use discord_rich_presence.Ws.Sink.{
  max_pending_commands, PublishedSlot, PendingEntry, PendingPayload, clear, Answer, accepts,
  is_full, is_closed, Outlet, into_cmd, rebuild, from_slot, clear_for_slot, stage_clear,
  try_answered, try_emit, flush_pending, flush_from, flushed,
}
use discord_rich_presence.Ws.Sink.Order.{stream, put_back_same}
use discord_rich_presence.Ws.Slots.{ClientSlot}
use discord_rich_presence.Ws.Handlers.{ClientId, Transport, GameAnswers}
use discord_rich_presence.Ws.Pump.{clear_outcome, clear_published, remove_found, remove_and_clear}
use discord_rich_presence.Ws.Pump.Order.{
  IsSteady, IsHeld, Appended, Appended-trans, accept-Appended, stage-Appended,
  flush_pending-Appended,
}

-- The clear that waits is the one that is sent at once.
rebuild-from_slot : (p : PublishedSlot) → rebuild (from_slot p) ≡ clear_for_slot p
unfolding rebuild from_slot clear_for_slot
rebuild-from_slot p = refl

abbrev pub clears_of : List PublishedSlot → List ActivityCmd
clears_of [] = []
clears_of (p ∷ ps) = clear_for_slot p ∷ clears_of ps

length-clears_of : (ps : List PublishedSlot) → length (clears_of ps) ≡ length ps
length-clears_of [] = refl
length-clears_of (p ∷ ps) = omega (arith, length-clears_of ps)

module _ (w : GameAnswers) (steady : IsSteady w.ask) where
  clear_outcome-Appended :
      (p : PublishedSlot) (o : Outlet) (a : Answer)
      → w.ask o.tried ≡ a
      → IsHeld w.ask o
      → suc (length o.pending) ≤ max_pending_commands
      → Appended w.ask o
          (clear_outcome w p (try_answered a (clear_for_slot p) o))
          (clear_for_slot p ∷ [])
  unfolding clear_outcome try_answered stage_clear into_cmd
  clear_outcome-Appended p o accepts e h room =
      accept-Appended w.ask steady (clear_for_slot p) o e h
  clear_outcome-Appended p o is_full e h room =
      rw (← rebuild-from_slot p)
        (stage-Appended w.ask steady w.now (clear (from_slot p)) o e (omega (arith, room)))
  clear_outcome-Appended p o is_closed e h room = absurd (steady.open_sink o.tried e)

  clear_published-Appended :
      (ps : List PublishedSlot) (o : Outlet)
      → IsHeld w.ask o
      → length o.pending + length ps ≤ max_pending_commands
      → Appended w.ask o (clear_published w ps o) (clears_of ps)
  unfolding clear_published try_emit
  clear_published-Appended [] o h room = record {
    in_order = sym (append-nil (stream o));
    kept = h;
    grown = omega arith;
    counted = refl;
  }
  clear_published-Appended (p ∷ ps) o h room =
      let t = clear_outcome w p (try_answered (w.ask o.tried) (clear_for_slot p) o) in
      let first : Appended w.ask o t (clear_for_slot p ∷ []) =
        clear_outcome-Appended p o (w.ask o.tried) refl h (omega (arith, room)) in
      Appended-trans w.ask o t (clear_published w ps t) (clear_for_slot p ∷ []) (clears_of ps) first
        (clear_published-Appended ps t first.kept (omega (arith, room, first.grown)))

  -- When a connection is gone, its clears go behind all that was sent or waits, one for each pid
  -- that it has published, oldest first; nothing is dropped. This is where the sink stays open,
  -- stays full while it is, and the queue has room for the clears.
  pub remove_and_clear_orders :
      (id : ClientId) (s : Transport) (slot : ClientSlot)
      → get s.clients id ≡ some slot
      → length s.outlet.pending + length slot.published ≤ max_pending_commands
      → (stream (remove_and_clear w id s).outlet ≡ stream s.outlet ++ clears_of slot.published)
        × ((remove_and_clear w id s).outlet.dropped ≡ s.outlet.dropped)
        × ((j : ClientId)
            → get (remove_and_clear w id s).clients j
              ≡ (if eqn id j then none else get s.clients j))
  unfolding remove_and_clear remove_found
  remove_and_clear_orders id s slot found room =
      let o = flush_pending w.ask s.outlet in
      let flush = flush_pending-Appended w.ask steady s.outlet in
      let all = clear_published-Appended slot.published o flush.kept (omega (arith, flush.grown)) in
      rw (found, remove_found)
        (
          all.in_order
              ∙ ap (λ (l : List ActivityCmd). l ++ clears_of slot.published)
                  (flush.in_order ∙ append-nil (stream s.outlet)),
          all.counted ∙ flush.counted,
          λ j. get-remove s.clients id j,
        )

flush_pending_held :
    (ask : ℕ → Answer) (o : Outlet) (e : PendingEntry) (q : List PendingEntry)
    → o.pending ≡ e ∷ q
    → ask o.tried ≡ is_full
    → flush_pending ask o ≡ record o { pending = e ∷ q; tried = o.tried + 1 }
unfolding flush_pending flush_from flushed try_emit try_answered
flush_pending_held ask o e q waits answer =
    rw (waits, flush_from, answer, try_answered, flushed)
      (ap
        (λ (x : PendingPayload). record o {
          pending = record e { payload = x } ∷ q;
          tried = o.tried + 1;
        })
        (put_back_same e.payload))

-- Where room appears in the sink after the flush has found it full, a clear overtakes everything
-- that waits, publishes of its own pid included.
pub clear_overtakes :
    (w : GameAnswers) (id : ClientId) (s : Transport) (slot : ClientSlot) (p : PublishedSlot)
    → get s.clients id ≡ some slot
    → slot.published ≡ p ∷ []
    → (e : PendingEntry) (q : List PendingEntry) → s.outlet.pending ≡ e ∷ q
    → w.ask s.outlet.tried ≡ is_full
    → w.ask (s.outlet.tried + 1) ≡ accepts
    → ((remove_and_clear w id s).outlet.emitted ≡ s.outlet.emitted ++ clear_for_slot p ∷ [])
      × ((remove_and_clear w id s).outlet.pending ≡ e ∷ q)
unfolding remove_and_clear remove_found clear_published clear_outcome try_emit try_answered
clear_overtakes w id s slot p found one e q waits answer later =
    let held = flush_pending_held w.ask s.outlet e q waits answer in
    rw (found, remove_found, one, held, clear_published, later, try_answered, clear_outcome)
      (refl, refl)
