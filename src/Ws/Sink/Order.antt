-- ===== src/Ws/Sink/Order.antt =====
-- What waits for the sink keeps its order, and what becomes of it.
use discord_rich_presence.Prelude.{
  ℕ, suc, ◌+◌, ◌%◌, ◌≤◌, ◌≡◌, ◌≢◌, refl, ap, sym, ◌∙◌, List, [], ◌∷◌, ◌++◌, length, arith,
}
use mathlib.Core.List.{append_assoc, append-nil}
use discord_rich_presence.Types.Ids.{u64_mod}
use discord_rich_presence.Types.Cmd.{ActivityCmd}
use discord_rich_presence.Ws.Sink.{
  PendingPayload, parked, clear, PendingClear, PendingEntry, Answer, accepts, is_full, is_closed,
  Outlet, count_shed, accept, rebuild, from_cmd, into_cmd, put_back, try_answered, try_emit,
  flushed, flush_from, flush_pending,
}

-- The commands that a queue stands for.
abbrev pub waiting : List PendingEntry → List ActivityCmd
waiting [] = []
waiting (e ∷ q) = into_cmd e.payload ∷ waiting q

-- The commands that are sent and those that wait, oldest first.
abbrev pub stream : Outlet → List ActivityCmd
stream o = o.emitted ++ waiting o.pending

pub from_cmd-rebuild : (c : PendingClear) → from_cmd (rebuild c) ≡ c
unfolding from_cmd rebuild
from_cmd-rebuild c = refl

-- A refused entry goes back as it was.
pub put_back_same : (p : PendingPayload) → put_back p (into_cmd p) ≡ p
unfolding into_cmd
put_back_same (parked cmd) = refl
put_back_same (clear c) = ap clear (from_cmd-rebuild c)

pub waiting-append : (p q : List PendingEntry) → waiting (p ++ q) ≡ waiting p ++ waiting q
waiting-append [] q = refl
waiting-append (e ∷ p) q =
    ap (λ (l : List ActivityCmd). into_cmd e.payload ∷ l) (waiting-append p q)

pub length-waiting : (q : List PendingEntry) → length (waiting q) ≡ length q
length-waiting [] = refl
length-waiting (e ∷ q) = omega (arith, length-waiting q)

-- The attempt before the last count was answered so.
abbrev pub Last : (ℕ → Answer) → Outlet → Answer → Type 0
Last ask o a = (n : ℕ) × (o.tried ≡ suc n) × (ask n ≡ a)

-- What a flush of `queue` after `before` comes to. A closed sink ends the queue: an entry is lost
-- and not counted, and the entries behind it are counted.
pub data Flushed (ask : ℕ → Answer) (o t : Outlet) (queue : List PendingEntry) : Type 0 where
  drained :
      t.pending ≡ []
      → t.emitted ≡ o.emitted ++ waiting queue
      → t.dropped ≡ o.dropped
      → Flushed ask o t queue
  held :
      Last ask t is_full
      → t.pending ≢ []
      → stream t ≡ o.emitted ++ waiting queue
      → t.dropped ≡ o.dropped
      → Flushed ask o t queue
  lost :
      Last ask t is_closed
      → t.pending ≡ []
      → (ahead : List PendingEntry) → (e : PendingEntry) → (behind : List PendingEntry)
      → queue ≡ ahead ++ e ∷ behind
      → t.emitted ≡ o.emitted ++ waiting ahead
      → t.dropped ≡ (o.dropped + length behind) % u64_mod
      → Flushed ask o t queue

module _ (ask : ℕ → Answer) where
  shifted :
      (e : PendingEntry) (rest : List PendingEntry) (o t : Outlet)
      → Flushed ask (accept (into_cmd e.payload) o) t rest
      → Flushed ask o t (e ∷ rest)
  shifted e rest o t (drained p s d) =
      drained p (s ∙ append_assoc o.emitted (into_cmd e.payload ∷ []) (waiting rest)) d
  shifted e rest o t (held l p s d) =
      held l p (s ∙ append_assoc o.emitted (into_cmd e.payload ∷ []) (waiting rest)) d
  shifted e rest o t (lost l p ahead x behind q s d) =
      lost l p (e ∷ ahead) x behind (ap (λ (r : List PendingEntry). e ∷ r) q)
        (s ∙ append_assoc o.emitted (into_cmd e.payload ∷ []) (waiting ahead)) d

  flushed-Flushed :
      (e : PendingEntry) (rest : List PendingEntry) (later : Outlet → Outlet) (o : Outlet)
      (a : Answer)
      → ask o.tried ≡ a
      → ((t : Outlet) → Flushed ask t (later t) rest)
      → Flushed ask o (flushed e rest later (try_answered a (into_cmd e.payload) o)) (e ∷ rest)
  unfolding flushed try_answered count_shed
  flushed-Flushed e rest later o accepts q ih =
      let t = accept (into_cmd e.payload) o in shifted e rest o (later t) (ih t)
  flushed-Flushed e rest later o is_full q ih =
      let same = λ (p : PendingPayload). o.emitted ++ into_cmd p ∷ waiting rest in
      held (o.tried, omega arith, q) (cc) (ap same (put_back_same e.payload)) refl
  flushed-Flushed e rest later o is_closed q ih =
      lost (o.tried, omega arith, q) refl [] e rest refl (sym (append-nil o.emitted)) refl

  pub flush_from-Flushed :
      (queue : List PendingEntry) (o : Outlet) → Flushed ask o (flush_from ask queue o) queue
  unfolding flush_from try_emit
  flush_from-Flushed [] o = drained refl (sym (append-nil o.emitted)) refl
  flush_from-Flushed (e ∷ rest) o =
      flushed-Flushed e rest (λ t. flush_from ask rest t) o (ask o.tried) refl
        (flush_from-Flushed rest)

  -- A flush sends from the front of the queue until it is empty, or the sink is full and what
  -- waits stays as it was, or the sink is closed: then the entry that meets it and all behind it
  -- are gone, and only those behind it are counted.
  pub flush_pending_lem : (o : Outlet) → Flushed ask o (flush_pending ask o) o.pending
  unfolding flush_pending
  flush_pending_lem o = flush_from-Flushed o.pending o

  flushed_shorter :
      (e : PendingEntry) (rest : List PendingEntry) (later : Outlet → Outlet) (o : Outlet)
      (a : Answer)
      → ((t : Outlet) → length (later t).pending ≤ length rest)
      → length (flushed e rest later (try_answered a (into_cmd e.payload) o)).pending
        ≤ suc (length rest)
  unfolding flushed try_answered
  flushed_shorter e rest later o accepts ih = omega (arith, ih (accept (into_cmd e.payload) o))
  flushed_shorter e rest later o is_full ih = omega arith
  flushed_shorter e rest later o is_closed ih = omega arith

  length-flush_from-le :
      (queue : List PendingEntry) (o : Outlet)
      → length (flush_from ask queue o).pending ≤ length queue
  unfolding flush_from try_emit
  length-flush_from-le [] o = omega arith
  length-flush_from-le (e ∷ rest) o =
      flushed_shorter e rest (λ t. flush_from ask rest t) o (ask o.tried)
        (length-flush_from-le rest)

  pub length-flush_pending-le :
      (o : Outlet) → length (flush_pending ask o).pending ≤ length o.pending
  unfolding flush_pending
  length-flush_pending-le o = length-flush_from-le o.pending o
