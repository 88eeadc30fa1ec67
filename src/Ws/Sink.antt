-- ===== src/Ws/Sink.antt =====
-- crates/rsrpc-transport-ws/src/transport.rs: the bounded sink and the queue of commands that wait
-- for it. The source passes the two along together; an `Outlet` is both.
pub mod Order
use discord_rich_presence.Prelude.{
  ℕ, ◌+◌, ◌%◌, ◌^◌, String, Bool, true, false, Option, none, some, List, [], ◌∷◌, ◌++◌, length, leb,
  drop, select, not, if◌then◌else◌, unwrap_or, ◌>>=◌,
}
use discord_rich_presence.Types.Ids.{AppId, u64_mod}
use discord_rich_presence.Types.Json.{Value}
use discord_rich_presence.Types.Cmd.{ActivityCmd, ActivityCmdArgs}

abbrev pub max_pending_commands : ℕ
max_pending_commands = 256

-- In milliseconds, as all instants here.
abbrev pub disconnect_clear_budget : ℕ
disconnect_clear_budget = 1000

-- One pid that a connection has published (handlers.rs).
pub record PublishedSlot : Type 0 where
  pub app_id : Option AppId
  pub pid : ℕ
  pub nonce : Value

pub record PendingClear : Type 0 where
  pub app_id : Option AppId
  pub pid : ℕ
  pub nonce : Value

pub data PendingPayload : Type 0 where
  parked : ActivityCmd → PendingPayload
  clear : PendingClear → PendingPayload

pub record PendingEntry : Type 0 where
  pub payload : PendingPayload
  pub deadline : ℕ

abbrev pub no_activity : ℕ → ActivityCmdArgs
no_activity pid = record { pid = some pid; activity = none; invite_code = none; user_id = none }

-- `PendingClear::into_cmd`
unfoldable pub rebuild : PendingClear → ActivityCmd
rebuild c = record {
  application_id = c.app_id;
  cmd = "SET_ACTIVITY";
  args = some (no_activity c.pid);
  payload = none;
  evt = none;
  nonce = c.nonce;
}

unfoldable pub from_slot : PublishedSlot → PendingClear
from_slot published = record {
  app_id = published.app_id;
  pid = published.pid;
  nonce = published.nonce;
}

unfoldable pub from_cmd : ActivityCmd → PendingClear
from_cmd cmd = record {
  app_id = cmd.application_id;
  pid = unwrap_or (cmd.args >>= λ args. args.pid) 0;
  nonce = cmd.nonce;
}

-- `clear_for_slot` (handlers.rs)
unfoldable pub clear_for_slot : PublishedSlot → ActivityCmd
clear_for_slot published = record {
  application_id = published.app_id;
  cmd = "SET_ACTIVITY";
  args = some (no_activity published.pid);
  payload = none;
  evt = none;
  nonce = published.nonce;
}

unfoldable pub into_cmd : PendingPayload → ActivityCmd
unfolding rebuild
into_cmd (parked cmd) = cmd
into_cmd (clear c) = rebuild c

-- What the channel answers to an attempt to send, after the wait where the attempt may wait.
pub data Answer : Type 0 where
  accepts : Answer
  is_full : Answer
  is_closed : Answer

pub data TryEmit : Type 0 where
  sent : TryEmit
  full : ActivityCmd → TryEmit
  closed : TryEmit

-- `emitted` holds what the channel has accepted, oldest first, and `tried` counts the attempts:
-- each may be answered otherwise.
pub record Outlet : Type 0 where
  pub pending : List PendingEntry
  pub emitted : List ActivityCmd
  pub dropped : ℕ
  pub tried : ℕ

unfoldable pub count_shed : ℕ → Outlet → Outlet
count_shed n o = record o { dropped = (o.dropped + n) % u64_mod }

abbrev pub accept : ActivityCmd → Outlet → Outlet
accept cmd o = record o { emitted = o.emitted ++ cmd ∷ []; tried = o.tried + 1 }

abbrev pub refuse : Outlet → Outlet
refuse o = record o { tried = o.tried + 1 }

-- The oldest entry is shed where the queue is full (the common part of `stage_publish` and
-- `stage_clear`).
unfoldable pub stage : ℕ → PendingPayload → Outlet → Outlet
unfolding count_shed
stage now payload o =
    let entry : PendingEntry = record {
      payload = payload;
      deadline = now + disconnect_clear_budget;
    } in
    if leb max_pending_commands (length o.pending)
    then record (count_shed 1 o) { pending = drop 1 o.pending ++ entry ∷ [] }
    else record o { pending = o.pending ++ entry ∷ [] }

unfoldable pub stage_publish : ℕ → ActivityCmd → Outlet → Outlet
unfolding stage
stage_publish now cmd o = stage now (parked cmd) o

unfoldable pub stage_clear : ℕ → PublishedSlot → Outlet → Outlet
unfolding stage from_slot
stage_clear now published o = stage now (clear (from_slot published)) o

-- `try_emit` and `emit` at the channel's answer.
unfoldable pub try_answered : Answer → ActivityCmd → Outlet → TryEmit × Outlet
try_answered accepts cmd o = (sent, accept cmd o)
try_answered is_full cmd o = (full cmd, refuse o)
try_answered is_closed cmd o = (closed, refuse o)

unfoldable pub emit_answered : Answer → ActivityCmd → Outlet → Bool × Outlet
unfolding count_shed
emit_answered accepts cmd o = (true, accept cmd o)
emit_answered is_full cmd o = (false, count_shed 1 (refuse o))
emit_answered is_closed cmd o = (false, count_shed 1 (refuse o))

-- A refused clear goes back as its metadata, a refused publish as the command.
abbrev pub put_back : PendingPayload → ActivityCmd → PendingPayload
put_back (parked _) cmd = parked cmd
put_back (clear _) cmd = clear (from_cmd cmd)

-- One round of `flush_pending`: on to the rest, or back with the entry, or the end of the queue.
unfoldable pub flushed :
    PendingEntry → List PendingEntry → (Outlet → Outlet) → TryEmit × Outlet → Outlet
unfolding from_cmd count_shed
flushed entry rest later (sent, o) = later o
flushed entry rest later (full cmd, o) = record o {
  pending = record entry { payload = put_back entry.payload cmd } ∷ rest;
}
flushed entry rest later (closed, o) = record (count_shed (length rest) o) { pending = [] }

-- A publish is staged where the sink is full, and counted where it is closed.
unfoldable pub publish_outcome : ℕ → TryEmit × Outlet → Bool × Outlet
unfolding stage_publish count_shed
publish_outcome now (sent, o) = (true, o)
publish_outcome now (full back, o) = (true, stage_publish now back o)
publish_outcome now (closed, o) = (false, count_shed 1 o)

module _ (ask : ℕ → Answer) where
  unfoldable pub try_emit : ActivityCmd → Outlet → TryEmit × Outlet
  unfolding try_answered
  try_emit cmd o = try_answered (ask o.tried) cmd o

  -- A bounded wait, and the command is dropped and counted when it does not go through.
  unfoldable pub emit : ActivityCmd → Outlet → Bool × Outlet
  unfolding emit_answered
  emit cmd o = emit_answered (ask o.tried) cmd o

  unfoldable pub emit_or_stage_publish : ℕ → ActivityCmd → Outlet → Bool × Outlet
  unfolding try_emit publish_outcome
  emit_or_stage_publish now cmd o = publish_outcome now (try_emit cmd o)

  -- The loop of `flush_pending`, over what is left of the queue.
  unfoldable pub flush_from : List PendingEntry → Outlet → Outlet
  unfolding try_emit into_cmd from_cmd count_shed flushed
  flush_from [] o = record o { pending = [] }
  flush_from (entry ∷ rest) o =
      flushed entry rest (λ t. flush_from rest t) (try_emit (into_cmd entry.payload) o)

  unfoldable pub flush_pending : Outlet → Outlet
  unfolding flush_from
  flush_pending o = flush_from o.pending o

abbrev pub has_lapsed : ℕ → PendingEntry → Bool
has_lapsed now entry = leb entry.deadline now

-- Entries whose own deadline has passed are shed.
unfoldable pub expire_pending : ℕ → Outlet → Outlet
unfolding count_shed
expire_pending now o =
    let expired = length (select (has_lapsed now) o.pending) in
    record (count_shed expired o) {
      pending = select (λ (e : PendingEntry). not (has_lapsed now e)) o.pending;
    }
