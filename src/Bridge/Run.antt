-- ===== src/Bridge/Run.antt =====
-- The bridge over any sequence of inputs, each under its own answers from outside. The pumps take the
-- locks one after another; an input is handled as one step.
use discord_rich_presence.Prelude.{true, List, [], ◌∷◌, arith}
use discord_rich_presence.Types.Cmd.{ActivityCmd}
use discord_rich_presence.Protocol.Flood.{default_window, default_cap, new}
use discord_rich_presence.Bridge.Handoff.{ProcInput}
use discord_rich_presence.Bridge.Shared.{Shared}
use discord_rich_presence.Bridge.Router.{World}
use discord_rich_presence.Bridge.Pump.{command_step, proc_step, refresh_once}
use discord_rich_presence.Bridge.Invariant.Tables.{IsValid}
use discord_rich_presence.Bridge.Invariant.Inputs.{
  command_step-IsValid, proc_step-IsValid, refresh_once-IsValid,
}

-- What one of the pumps takes from its channel.
pub data Input : Type 0 where
  command : ActivityCmd → Input
  report : ProcInput → Input
  refresh : Input

-- The state that `Bridge::bind` makes.
unfoldable pub initial : Shared
initial = record {
  consumers = [];
  cache = [];
  activity_seq = 0;
  last_process = [];
  handoff = record { live_ipc = []; last_scans = [] };
  recent = new default_window default_cap;
  dirty = true;
  dropped_broadcasts = 0;
  sent = [];
}

unfoldable pub step : World → Input → Shared → Shared
step w (command cmd) s = command_step w cmd s
step w (report input) s = proc_step w input s
step w refresh s = refresh_once w s

unfoldable pub run : List (World × Input) → Shared → Shared
unfolding step
run [] s = s
run ((w, input) ∷ inputs) s = run inputs (step w input s)

step-IsValid : (w : World) (input : Input) (s : Shared) → IsValid s → IsValid (step w input s)
unfolding step
step-IsValid w (command cmd) s v = command_step-IsValid w cmd s v
step-IsValid w (report input) s v = proc_step-IsValid w input s v
step-IsValid w refresh s v = refresh_once-IsValid w s v

-- From a state where it is so, whatever commands, scanner reports and refreshes the bridge handles, in
-- any order and whatever the outside answers, the replay cache holds at most 50 payloads, the two
-- handoff tables and the table of generic cards at most 64 slots each, and the flood guard no more
-- than its cap, which is not 0; and none of these five tables holds a key twice.
pub run-IsValid : (inputs : List (World × Input)) (s : Shared) → IsValid s → IsValid (run inputs s)
unfolding run
run-IsValid [] s v = v
run-IsValid ((w, input) ∷ inputs) s v =
    run-IsValid inputs (step w input s) (step-IsValid w input s v)

pub initial-IsValid : IsValid initial
unfolding initial
initial-IsValid = record {
  cached = omega arith;
  cache_distinct = tt;
  handoff = record {
    owners = omega arith;
    scans = omega arith;
    owners_distinct = tt;
    scans_distinct = tt;
  };
  generic = omega arith;
  generic_distinct = tt;
  guard_cap = omega arith;
  guard = omega arith;
  guard_distinct = tt;
}
