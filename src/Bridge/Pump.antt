-- ===== src/Bridge/Pump.antt =====
-- crates/rsrpc-bridge/src/bridge.rs: the pumps, one function for what each does with an input.
pub mod Cards
pub mod Cleared
pub mod Slots
use Prim.Native.String.{compare as text_compare}
use Prim.Native.Nat.{compare, Ordering}
use discord_rich_presence.Prelude.{
  ℕ, String, Bool, true, false, Option, none, some, List, [], ◌∷◌, string_key, map, ◌==◌,
  if◌then◌else◌, not, is_some_and,
}
use discord_rich_presence.Prelude.HashMap.{HashMap, get, contains_key, remove}
use discord_rich_presence.Types.Ids.{AppId, SocketId, of_app}
use discord_rich_presence.Types.Cmd.{ActivityCmd}
use discord_rich_presence.Protocol.Cached.{CachedActivity, empty_cached}
use discord_rich_presence.Bridge.Handoff.{
  ScannedGame, ProcInput, detected, removed, cleared, alive, note_scan, note_remove, owner_of,
}
use discord_rich_presence.Bridge.Replay.{ReplayCache, cache_entry_pid}
use discord_rich_presence.Bridge.Shared.{Shared, broadcast_raw, send_to_all}
use discord_rich_presence.Bridge.Router.{
  World, count_drop, publish_or_count, track_process, generic_payload, take_matching_process,
  handle_set_activity,
}

-- `command_pump`: an activity is handled, any other command fans out as it is.
unfoldable pub command_step : World → ActivityCmd → Shared → Shared
command_step w cmd s =
    if cmd.cmd == "SET_ACTIVITY"
    then handle_set_activity w cmd s
    else broadcast_raw w.accepts w.cmd_codec cmd s

-- Withdraws the card of a socket.
unfoldable pub clear_card : World → ℕ → SocketId → Shared → Shared
unfolding publish_or_count
clear_card w pid socket_id s = publish_or_count w (empty_cached w.codec pid socket_id) socket_id s

unfoldable pub clear_cards : World → List (ℕ × SocketId) → Shared → Shared
clear_cards w [] s = s
clear_cards w ((pid, socket_id) ∷ cards) s = clear_cards w cards (clear_card w pid socket_id s)

-- The order of `(pid, app_id)` pairs.
abbrev pub before : ℕ × AppId → ℕ × AppId → Bool
before a b = elim (compare a.0 b.0) [
  | Ordering.lt ↦ true
  | Ordering.gt ↦ false
  | Ordering.eq ↦ elim (text_compare a.1 b.1) [ Ordering.gt ↦ false | _ ↦ true ]
]

unfoldable pub insert_sorted : ℕ × AppId → List (ℕ × AppId) → List (ℕ × AppId)
insert_sorted a [] = a ∷ []
insert_sorted a (b ∷ bs) = if before a b then a ∷ b ∷ bs else b ∷ insert_sorted a bs

-- `take_process_clear`: the publications that `drain` empties, sorted.
unfoldable pub outstanding : HashMap AppId ℕ → List (ℕ × AppId)
unfolding insert_sorted
outstanding [] = []
outstanding ((app_id, pid) ∷ m) = insert_sorted (pid, app_id) (outstanding m)

-- The cards of the cache whose pid is known and dead.
unfoldable pub ghosts : World → ReplayCache → List (ℕ × SocketId)
ghosts w [] = []
ghosts w ((id, (payload, seq)) ∷ m) = elim (cache_entry_pid id payload) [
  | none ↦ ghosts w m
  | some pid ↦ elim (alive w.probe pid) [ true ↦ ghosts w m | false ↦ (pid, id) ∷ ghosts w m ]
]

-- Every generic card goes, and the scans are forgotten.
unfoldable pub withdraw_all : World → Shared → Shared
unfolding clear_cards outstanding
withdraw_all w s =
    clear_cards w (map (λ (c : ℕ × AppId). (c.0, of_app c.1)) (outstanding s.last_process))
      (record s { handoff = note_scan w.probe s.handoff none; last_process = [] })

-- The scanner sees no game: every generic card goes, then every card of a dead process.
unfoldable pub on_cleared : World → Shared → Shared
unfolding withdraw_all ghosts
on_cleared w s = let s' = withdraw_all w s in clear_cards w (ghosts w s'.cache) s'

-- A live owner keeps the slot: a generic card that is shown is withdrawn.
unfoldable pub yield_slot : World → ScannedGame → Shared → Shared
unfolding clear_card
yield_slot w game s = elim (get s.last_process game.id) [
  | none ↦ record s { last_process = remove s.last_process game.id }
  | some pid ↦
      clear_card w pid (of_app game.id) (record s { last_process = remove s.last_process game.id })
]

unfoldable pub show_generic : World → ScannedGame → Shared → Shared
unfolding publish_or_count track_process
show_generic w game s =
    publish_or_count w (generic_payload w game) (of_app game.id)
      (track_process w game.id game.pid s)

unfoldable pub on_detected : World → ScannedGame → Shared → Shared
unfolding yield_slot show_generic
on_detected w game s =
    let s' = record s { handoff = note_scan w.probe s.handoff (some game) } in
    elim (owner_of s'.handoff game.id) [
      | some owner ↦ yield_slot w game s'
      | none ↦ if contains_key s'.last_process game.id then s' else show_generic w game s'
    ]

unfoldable pub on_removed : World → AppId → ℕ → Shared → Shared
unfolding clear_card
on_removed w app_id pid s =
    let (handoff, _) = note_remove s.handoff app_id pid in
    let (last_process, found) = take_matching_process s.last_process app_id pid in
    let s' = record s { handoff = handoff; last_process = last_process } in
    elim found [ none ↦ s' | some pid' ↦ clear_card w pid' (of_app app_id) s' ]

unfoldable pub proc_step : World → ProcInput → Shared → Shared
unfolding on_detected on_removed on_cleared
proc_step w (detected game) s = on_detected w game s
proc_step w (removed app_id pid) s = on_removed w app_id pid s
proc_step w cleared s = on_cleared w s

unfoldable pub resend : World → ReplayCache → Shared → Shared
resend w [] s = s
resend w ((id, (payload, seq)) ∷ m) s = resend w m (send_to_all w.accepts payload s)

-- `refresh_once`: every consumer gets the cached payloads again; the snapshot is dirty either way.
unfoldable pub refresh_once : World → Shared → Shared
unfolding resend
refresh_once w s = elim s.consumers [
  | [] ↦ record s { dirty = true }
  | _ ∷ _ ↦ record (resend w s.cache s) { dirty = true }
]
