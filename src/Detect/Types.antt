-- ===== src/Detect/Types.antt =====
-- crates/rsrpc-detect/src/types.rs: what the matchers read, hits and events.
use discord_rich_presence.Prelude.{
  ℕ, String, Bool, Option, List, ◌≡◌, ◌==◌, string_key, string_iff, if◌then◌else◌, arith,
}
use discord_rich_presence.Bridge.Handoff.{DetectSource}

pub data OsName : Type 0 where
  win32 : OsName
  linux : OsName
  darwin : OsName
  no_os : OsName
  exotic : String → OsName

unfoldable pub from_os : String → OsName
from_os os =
    if os == "win32"
    then win32
    else if os == "linux"
    then linux
    else if os == "darwin"
    then darwin
    else if os == ""
    then no_os
    else exotic os

unfoldable pub os_as_str : OsName → String
os_as_str win32 = "win32"
os_as_str linux = "linux"
os_as_str darwin = "darwin"
os_as_str no_os = ""
os_as_str (exotic os) = os

-- The tag of the database reads back.
pub os_as_str-from_os : (os : String) → os_as_str (from_os os) ≡ os
unfolding from_os os_as_str
os_as_str-from_os os =
    ground (
      arith,
      string_iff os "win32",
      string_iff os "linux",
      string_iff os "darwin",
      string_iff os "",
    )

pub record ScannedExe : Type 0 where
  pub name : String
  pub os : OsName
  pub is_launcher : Bool
  pub arguments : Option String

pub record ScannedEntry : Type 0 where
  pub id : String
  pub name : String
  pub executables : List ScannedExe
  pub steam_ids : List String
  pub aliases : List String

pub record ScannedHit : Type 0 where
  pub entry : ScannedEntry
  pub pid : ℕ
  pub start : ℕ
  pub source : DetectSource

-- One process as the scan reads it.
pub record Exec : Type 0 where
  pub pid : ℕ
  pub path : String
  pub arguments : Option String

pub data ProcessDetectedEvent : Type 0 where
  found : ScannedHit → ProcessDetectedEvent
  cleared : ProcessDetectedEvent
  removed : String → ℕ → ProcessDetectedEvent
