-- ===== src/Tests/Texts.antt =====
-- Decimal ids, and the fix of a publication, at concrete values.
use discord_rich_presence.Prelude.{ℕ, ◌<◌, ◌≡◌, ◌⊎◌, ◌↔◌, inr, refl, some, arith}
use discord_rich_presence.Prelude.Int.{pos}
use discord_rich_presence.Types.Ids.{of_pid_checked, of_pid, parse_u64}
use discord_rich_presence.Types.Ids.Decimal.{parse_u64-of_pid}
use discord_rich_presence.Types.Fix.{normalize_timestamp, fix}
use discord_rich_presence.Types.Fix.Idempotent.{
  CmdIsStable, normalize_timestamp_settles_iff, fix-fix,
}
use discord_rich_presence.Tests.Fixtures.{publication}

parse_u64-of_pid_example :
    (of_pid_checked 4242 ≡ some (of_pid 4242)) × (parse_u64 (of_pid 4242) ≡ some 4242)
parse_u64-of_pid_example = parse_u64-of_pid 4242 (omega arith)

rendered : of_pid 4242 ≡ "4242"
unfolding of_pid
rendered = refl

stable : CmdIsStable 1700000000 publication
stable = record { settled = ((omega arith, inr (omega arith)), tt); plain = tt }

fix-fix_example : fix 1700000000 (fix 1700000000 publication) ≡ fix 1700000000 publication
fix-fix_example = fix-fix 1700000000 publication (omega arith) stable

-- One second after the epoch is scaled at each run.
normalize_timestamp_settles_iff_example :
    (normalize_timestamp (normalize_timestamp (pos 1) 4853600000) 4853600000
      ≡ normalize_timestamp (pos 1) 4853600000)
    ↔ ((◌≡◌ {A = ℕ} 1 0) ⊎ (4853600000 < 1000))
normalize_timestamp_settles_iff_example =
    normalize_timestamp_settles_iff 1 4853600000 (omega arith) (omega arith)
