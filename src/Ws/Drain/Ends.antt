-- ===== src/Ws/Drain/Ends.antt =====
-- The retries end: by the sink, or by the deadlines of what waits.
pub mod Shutdown
use mathlib.Core.Path.{subst}
use discord_rich_presence.Prelude.{
  ℕ, zero, suc, ◌+◌, ◌-◌, ◌%◌, ◌≤◌, ◌<◌, ◌≡◌, refl, sym, ap, ◌∙◌, inl, inr, Bool, true, false, not,
  Option, none, some, List, [], ◌∷◌, ◌++◌, length, leb, leb→le, drop, select, All, arith,
  if◌then◌else◌, Bool-cases, map_some, ◌>>=◌,
}
use discord_rich_presence.Prelude.HashMap.{HashMap}
use discord_rich_presence.Types.Ids.{u64_mod}
use discord_rich_presence.Types.Cmd.{ActivityCmd}
use discord_rich_presence.Ws.Sink.{
  disconnect_clear_budget, PublishedSlot, PendingPayload, PendingEntry, clear, Answer, accepts,
  is_full, is_closed, Outlet, count_shed, accept, refuse, into_cmd, from_slot, stage, stage_clear,
  try_answered, try_emit, flushed, flush_from, flush_pending, has_lapsed, expire_pending,
  max_pending_commands,
}
use discord_rich_presence.Ws.Slots.{ClientSlot}
use discord_rich_presence.Ws.Handlers.{ClientId, Transport, GameAnswers}
use discord_rich_presence.Ws.Pump.{retry_round, has_backlog}
use discord_rich_presence.Ws.Drain.{
  retry_loop, retry_outcome, emit_clear_retry, drain_batch, take_pending, drain_all,
  stage_published, drain_clients, shutdown,
}

-- No entry waits beyond the instant `d`.
abbrev pub DueBy : ℕ → List PendingEntry → Type 0
DueBy d = All (λ (e : PendingEntry). e.deadline ≤ d)

pub DueBy-append : (d : ℕ) (p q : List PendingEntry) → DueBy d p → DueBy d q → DueBy d (p ++ q)
DueBy-append d [] q a b = b
DueBy-append d (e ∷ p) q (h, a) b = (h, DueBy-append d p q a b)

pub DueBy-drop_one : (d : ℕ) (p : List PendingEntry) → DueBy d p → DueBy d (drop 1 p)
DueBy-drop_one d [] a = tt
DueBy-drop_one d (e ∷ p) (h, a) = a

DueBy-select :
    (d : ℕ) (keep : PendingEntry → Bool) (p : List PendingEntry)
    → DueBy d p
    → DueBy d (select keep p)
DueBy-select d keep [] a = tt
DueBy-select d keep (e ∷ p) (h, a) = elim (Bool-cases (keep e)) [
  | inl k ↦ rw k (h, DueBy-select d keep p a)
  | inr k ↦ rw k (DueBy-select d keep p a)
]

-- When all is due, nothing is kept.
select_lapsed :
    (d now : ℕ) (p : List PendingEntry)
    → d ≤ now
    → DueBy d p
    → select (λ (e : PendingEntry). not (has_lapsed now e)) p ≡ []
select_lapsed d now [] late a = refl
select_lapsed d now (e ∷ p) late (h, a) = ground (arith, select_lapsed d now p late a)

module _ (d : ℕ) (ask : ℕ → Answer) where
  flushed-DueBy :
      (e : PendingEntry) (rest : List PendingEntry) (later : Outlet → Outlet) (o : Outlet)
      (a : Answer)
      → e.deadline ≤ d
      → DueBy d rest
      → ((t : Outlet) → DueBy d (later t).pending)
      → DueBy d (flushed e rest later (try_answered a (into_cmd e.payload) o)).pending
  unfolding flushed try_answered count_shed
  flushed-DueBy e rest later o accepts h r ih = ih (accept (into_cmd e.payload) o)
  flushed-DueBy e rest later o is_full h r ih = (h, r)
  flushed-DueBy e rest later o is_closed h r ih = tt

  flush_from-DueBy :
      (q : List PendingEntry) (o : Outlet) → DueBy d q → DueBy d (flush_from ask q o).pending
  unfolding flush_from try_emit
  flush_from-DueBy [] o a = tt
  flush_from-DueBy (e ∷ rest) o (h, a) =
      flushed-DueBy e rest (λ t. flush_from ask rest t) o (ask o.tried) h a
        (λ t. flush_from-DueBy rest t a)

  pub flush_pending-DueBy : (o : Outlet) → DueBy d o.pending → DueBy d (flush_pending ask o).pending
  unfolding flush_pending
  flush_pending-DueBy o a = flush_from-DueBy o.pending o a

pub has_backlog-false : (q : List PendingEntry) → has_backlog q ≡ false → q ≡ []
has_backlog-false [] h = refl
has_backlog-false (e ∷ q) h = cc

-- The task that retries after a disconnect ends with an empty queue, at the latest in the round
-- whose clock has passed every deadline; here that is its last round.
pub retry_loop_ends :
    (w : ℕ → GameAnswers) (d fuel : ℕ) (o : Outlet)
    → d ≤ (w 0).now
    → DueBy d o.pending
    → (t : Outlet) × (retry_loop w (suc fuel) o ≡ some t) × (t.pending ≡ [])
unfolding retry_loop retry_round expire_pending count_shed
retry_loop_ends w d zero o late a =
    let f = flush_pending (w 0).ask o in
    let gone = select_lapsed d (w 0).now f.pending late (flush_pending-DueBy d (w 0).ask o a) in
    (retry_round (w 0) o, rw gone refl, gone)
retry_loop_ends w d (suc fuel) o late a =
    let v = w (suc fuel) in
    let o' = retry_round v o in
    let kept : DueBy d o'.pending =
      DueBy-select d (λ (e : PendingEntry). not (has_lapsed v.now e))
        (flush_pending v.ask o).pending (flush_pending-DueBy d v.ask o a) in
    elim (Bool-cases (has_backlog o'.pending)) [
      | inl more ↦ rw more (retry_loop_ends w d fuel o' late kept)
      | inr done ↦ (o', rw done refl, has_backlog-false o'.pending done)
    ]
