-- ===== src/Detect/Channel.antt =====
-- crates/rsrpc-telemetry/src/lib.rs: a channel that counts its backlog, and sheds past a cap.
use discord_rich_presence.Prelude.{ℕ, ◌+◌, ◌-◌, ◌%◌, Bool, List, [], ◌∷◌, ◌++◌, leb, if◌then◌else◌}
use discord_rich_presence.Types.Ids.{u64_mod}

pub data SendChecked : Type 0 where
  sent : SendChecked
  shed : SendChecked
  closed : SendChecked

-- What the receiver does before each attempt to send, by the attempts so far: the values that it
-- takes, and whether it is gone.
pub record Receiver : Type 0 where
  pub takes : ℕ → ℕ
  pub gone : ℕ → Bool

-- `QueueGauge` and the channel: `accepted` holds every value that the channel has taken.
pub record Channel {ℓ} (A : Type ℓ) : Type ℓ where
  pub depth : ℕ
  pub dropped : ℕ
  pub accepted : List A
  pub tried : ℕ

module _ {ℓ} {A : Type ℓ} (r : Receiver) where
  -- The backlog when the attempt is made: each value that is taken releases its count.
  abbrev pub backlog : Channel A → ℕ
  backlog c = c.depth - r.takes c.tried

  abbrev pub after_try : Channel A → ℕ → Channel A
  after_try c depth = record c { depth = depth; tried = c.tried + 1 }

  -- `try_reserve` fails where the backlog stands at the cap.
  unfoldable pub send_checked : ℕ → A → Channel A → SendChecked × Channel A
  send_checked cap value c =
      let c' = after_try c (backlog c) in
      if leb cap (backlog c)
      then (if r.gone c.tried
          then (closed, c')
          else (shed, record c' { dropped = (c.dropped + 1) % u64_mod }))
      else if r.gone c.tried
      then (closed, c')
      else (sent, record c' { depth = backlog c + 1; accepted = c.accepted ++ value ∷ [] })
