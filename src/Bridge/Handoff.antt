-- ===== src/Bridge/Handoff.antt =====
-- crates/rsrpc-bridge/src/handoff.rs: a live game's own presence takes its slot from generic
-- detection, and hands it back when it clears.
pub mod Owners
use discord_rich_presence.Prelude.{
  ℕ, zero, suc, String, Bool, true, false, Option, none, some, List, [], ◌∷◌, ◌==◌, nat_key,
  string_key, if◌then◌else◌, is_some_and, not,
}
use discord_rich_presence.Prelude.HashMap.{HashMap, get, contains_key, remove, retain}
use discord_rich_presence.Types.Ids.{AppId}
use discord_rich_presence.Bridge.Table.{is_process_alive, track}

-- crates/rsrpc-types/src/detect_source.rs
pub data DetectSource : Type 0 where
  automaton steam_app_id proton_automaton steam_library exe_stem folder cwd_joined : DetectSource

unfoldable pub source_as_str : DetectSource → String
source_as_str automaton = "automaton"
source_as_str steam_app_id = "steam-app-id"
source_as_str proton_automaton = "proton-automaton"
source_as_str steam_library = "steam-library"
source_as_str exe_stem = "exe-stem"
source_as_str folder = "folder"
source_as_str cwd_joined = "cwd-joined"

pub record ScannedGame : Type 0 where
  pub id : AppId
  pub name : String
  pub pid : ℕ
  pub start : ℕ
  pub source : DetectSource
  pub process_start_ms : Option ℕ

pub data ProcInput : Type 0 where
  detected : ScannedGame → ProcInput
  removed : AppId → ℕ → ProcInput
  cleared : ProcInput

pub record HandoffState : Type 0 where
  pub live_ipc : HashMap AppId ℕ
  pub last_scans : HashMap AppId ScannedGame

-- What the process table and the maps' iteration answer while an operation runs.
pub record Probe : Type 0 where
  pub exists : ℕ → Bool
  pub start : ℕ → ℕ

abbrev pub alive : Probe → ℕ → Bool
alive probe = is_process_alive probe.exists

unfoldable pub note_publish : Probe → HandoffState → AppId → ℕ → HandoffState
unfolding track
note_publish probe h app_id pid = record h {
  live_ipc = track probe.start (alive probe) h.live_ipc app_id pid;
}

unfoldable pub note_clear : HandoffState → AppId → ℕ → HandoffState × Bool
note_clear h app_id pid =
    if is_some_and (get h.live_ipc app_id) (λ owner. owner == pid)
    then (record h { live_ipc = remove h.live_ipc app_id }, true)
    else (h, false)

unfoldable pub note_remove : HandoffState → AppId → ℕ → HandoffState × Option ScannedGame
note_remove h app_id pid =
    if is_some_and (get h.last_scans app_id) (λ known. known.pid == pid)
    then (record h { last_scans = remove h.last_scans app_id }, get h.last_scans app_id)
    else (h, none)

unfoldable pub note_scan : Probe → HandoffState → Option ScannedGame → HandoffState
unfolding track
note_scan probe h (some game) = record h {
  last_scans = track probe.start (λ known. alive probe known.pid) h.last_scans game.id game;
}
note_scan probe h none = record h { last_scans = [] }

-- The apps that `pid` owns, in iteration order.
unfoldable pub owned_by : ℕ → HashMap AppId ℕ → List AppId
owned_by pid [] = []
owned_by pid ((app, owner) ∷ m) = if owner == pid then app ∷ owned_by pid m else owned_by pid m

unfoldable pub note_clear_pid : HandoffState → ℕ → HandoffState × List AppId
unfolding owned_by
note_clear_pid h pid = (
  record h { live_ipc = retain (λ owner. not (owner == pid)) h.live_ipc },
  owned_by pid h.live_ipc,
)

abbrev pub is_suppressed : HandoffState → AppId → Bool
is_suppressed h app_id = contains_key h.live_ipc app_id

abbrev pub owner_of : HandoffState → AppId → Option ℕ
owner_of h app_id = get h.live_ipc app_id

abbrev pub resume_for : HandoffState → AppId → Option ScannedGame
resume_for h app_id = get h.last_scans app_id
