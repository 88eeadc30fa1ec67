-- ===== src/Ipc/Pids.antt =====
-- crates/rsrpc-transport-ipc/src/frame.rs: the pids that a connection has published.
pub mod Tracked
use discord_rich_presence.Prelude.{
  ℕ, Bool, true, false, List, [], ◌∷◌, ◌++◌, length, leb, ◌==◌, nat_key, contains, if◌then◌else◌,
}

abbrev pub max_tracked_pids : ℕ
max_tracked_pids = 16

-- `history.remove(pos)` at the first place of the pid.
unfoldable pub remove_first : ℕ → List ℕ → List ℕ
remove_first pid [] = []
remove_first pid (p ∷ ps) = if p == pid then ps else p ∷ remove_first pid ps

-- The history afterwards, and whether the pid is admitted.
unfoldable pub admit_pid : List ℕ → ℕ → List ℕ × Bool
unfolding remove_first
admit_pid history pid =
    if contains history pid
    then (remove_first pid history ++ pid ∷ [], true)
    else if leb max_tracked_pids (length history)
    then (history, false)
    else (history ++ pid ∷ [], true)

abbrev pub without_oldest : List ℕ → List ℕ
without_oldest [] = []
without_oldest (p ∷ ps) = ps

unfoldable pub track_pid : List ℕ → ℕ → List ℕ
track_pid history pid =
    let (history', admitted) = admit_pid history pid in
    if admitted then history' else without_oldest history' ++ pid ∷ []

-- The pids to clear when the connection is lost: the history, oldest first, and the current pid.
unfoldable pub clear_pids : List ℕ → ℕ → List ℕ
clear_pids history current = if contains history current then history else history ++ current ∷ []
