-- ===== src/Ws/Drain.antt =====
-- crates/rsrpc-transport-ws/src/transport.rs: what is retried when no event comes, and the
-- shutdown.
pub mod Ends
use discord_rich_presence.Prelude.{
  ℕ, zero, suc, ◌+◌, ◌-◌, ◌%◌, Bool, true, false, Option, none, some, List, [], ◌∷◌, leb,
  if◌then◌else◌, ◌>>=◌, map_some, is_none,
}
use discord_rich_presence.Prelude.HashMap.{HashMap}
use discord_rich_presence.Types.Ids.{u64_mod}
use discord_rich_presence.Types.Cmd.{ActivityCmd}
use discord_rich_presence.Ws.Sink.{
  PublishedSlot, PendingEntry, TryEmit, sent, full, closed, Answer, Outlet, count_shed, into_cmd,
  stage_clear, try_emit, flush_pending,
}
use discord_rich_presence.Ws.Slots.{ClientSlot}
use discord_rich_presence.Ws.Handlers.{ClientId, Transport, GameAnswers}
use discord_rich_presence.Ws.Pump.{retry_round, has_backlog}

-- The loop of `spawn_clear_retry`: what the outside answers in each round is given by the fuel left.
unfoldable pub retry_loop : (ℕ → GameAnswers) → ℕ → Outlet → Option Outlet
unfolding retry_round
retry_loop w zero o = none
retry_loop w (suc fuel) o =
    let o' = retry_round (w fuel) o in
    let more = retry_loop w fuel o' in if has_backlog o'.pending then more else some o'

-- The loop of `emit_clear_retry`: it ends when the sink takes the command or is closed, or the
-- deadline has passed. `clock` tells the time after each attempt.
unfoldable pub retry_outcome :
    ℕ
    → ℕ
    → (ActivityCmd → Outlet → Option (Bool × Outlet))
    → TryEmit × Outlet
    → Option (Bool × Outlet)
unfolding count_shed
retry_outcome now deadline again (sent, o) = some (true, o)
retry_outcome now deadline again (full cmd, o) =
    let more = again cmd o in if leb deadline now then some (false, count_shed 1 o) else more
retry_outcome now deadline again (closed, o) = some (false, count_shed 1 o)

unfoldable pub emit_clear_retry :
    (ℕ → Answer) → (ℕ → ℕ) → ℕ → ℕ → ActivityCmd → Outlet → Option (Bool × Outlet)
unfolding try_emit retry_outcome
emit_clear_retry ask clock zero deadline cmd o = none
emit_clear_retry ask clock (suc fuel) deadline cmd o =
    retry_outcome (clock o.tried) deadline (λ c t. emit_clear_retry ask clock fuel deadline c t)
      (try_emit ask cmd o)

-- The entries of one batch, one after the other.
unfoldable pub drain_batch : (ℕ → Answer) → (ℕ → ℕ) → ℕ → List PendingEntry → Outlet → Option Outlet
unfolding emit_clear_retry into_cmd
drain_batch ask clock fuel [] o = some o
drain_batch ask clock fuel (e ∷ batch) o =
    emit_clear_retry ask clock fuel e.deadline (into_cmd e.payload) o >>= λ r.
    drain_batch ask clock fuel batch r.1

-- `take_pending`: the queue as it is, and an empty one left behind.
unfoldable pub take_pending : Outlet → List PendingEntry × Outlet
take_pending o = (o.pending, record o { pending = [] })

-- The loop over batches.
unfoldable pub drain_all : (ℕ → Answer) → (ℕ → ℕ) → ℕ → ℕ → Outlet → Option Outlet
unfolding drain_batch take_pending
drain_all ask clock fuel zero o = none
drain_all ask clock fuel (suc rounds) o =
    let (batch, o') = take_pending o in
    let more = drain_batch ask clock fuel batch o' >>= λ t. drain_all ask clock fuel rounds t in
    if has_backlog batch then more else some o'

unfoldable pub stage_published : ℕ → List PublishedSlot → Outlet → Outlet
unfolding stage_clear
stage_published now [] o = o
stage_published now (p ∷ ps) o = stage_published now ps (stage_clear now p o)

-- `clients.drain()`: the census falls by one for each, and its pids are staged.
unfoldable pub drain_clients : ℕ → HashMap ClientId ClientSlot → Transport → Transport
unfolding stage_published
drain_clients now [] s = record s { clients = [] }
drain_clients now ((id, slot) ∷ m) s = drain_clients now m (record s {
  total = (s.total + u64_mod - 1) % u64_mod;
  outlet = stage_published now slot.published s.outlet;
})

-- `shutdown`, when the server is down and the pump has ended.
unfoldable pub shutdown : (ℕ → Answer) → (ℕ → ℕ) → ℕ → ℕ → ℕ → Transport → Option Transport
unfolding drain_clients flush_pending drain_all
shutdown ask clock now fuel rounds s =
    let s' = drain_clients now s.clients s in
    map_some (λ (o : Outlet). record s' { outlet = o })
      (drain_all ask clock fuel rounds (flush_pending ask s'.outlet))
