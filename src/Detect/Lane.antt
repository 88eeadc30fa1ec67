-- ===== src/Detect/Lane.antt =====
-- crates/rsrpc-detect/src/{runtime,scan,scanner}.rs: what the scan thread keeps between two scans,
-- and how it reports the difference.
pub mod Follows
pub mod Ticks
pub mod Ghosts
use discord_rich_presence.Prelude.{
  ℕ, suc, ◌+◌, ◌-◌, ◌*◌, ◌^◌, String, Bool, true, false, not, ◌||◌, ◌&&◌, Option, none, some, List,
  [], ◌∷◌, ◌++◌, map, length, leb, ltb, ◌==◌, nat_key, string_key, pair_key, list_key, contains,
  select, if◌then◌else◌,
}
use text.Mathlib.Text.{is_lt, is_le}
use Prim.Native.String.{compare}
use discord_rich_presence.Detect.Types.{
  ScannedEntry, ScannedHit, ProcessDetectedEvent, found, cleared, removed,
}
use discord_rich_presence.Detect.Channel.{
  SendChecked, sent, shed, closed, Receiver, Channel, send_checked,
}

-- An application id with a pid.
abbrev pub GameSlot : Type 0
GameSlot = String × ℕ

abbrev pub slot_of : ScannedHit → GameSlot
slot_of hit = (hit.entry.id, hit.pid)

-- The slots that are gone.
unfoldable pub removed_slots : List GameSlot → List GameSlot → List GameSlot
removed_slots previous current = select (λ (p : GameSlot). not (contains current p)) previous

-- Pairs are sorted by id, then by pid.
abbrev pub slot_le : GameSlot → GameSlot → Bool
slot_le a b = is_lt (compare a.0 b.0) || (a.0 == b.0 && leb a.1 b.1)

unfoldable pub insert_slot : GameSlot → List GameSlot → List GameSlot
insert_slot a [] = a ∷ []
insert_slot a (b ∷ slots) = if slot_le a b then a ∷ b ∷ slots else b ∷ insert_slot a slots

-- The table of a scan.
unfoldable pub snapshot_of : List ScannedHit → List GameSlot
unfolding insert_slot
snapshot_of [] = []
snapshot_of (hit ∷ hits) = insert_slot (slot_of hit) (snapshot_of hits)

pub data SnapshotDelivery : Type 0 where
  complete : SnapshotDelivery
  shed_one : SnapshotDelivery
  gone : SnapshotDelivery

abbrev pub snapshot_event_cap : ℕ
snapshot_event_cap = 128

abbrev pub exec_event_cap : ℕ
exec_event_cap = 128

abbrev pub Events : Type 0
Events = Channel ProcessDetectedEvent

-- What goes on after the outcome of one send: the rest only after a success.
abbrev pub if_sent :
    SendChecked × Events → (Events → SnapshotDelivery × Events) → SnapshotDelivery × Events
if_sent (sent, c) rest = rest c
if_sent (shed, c) rest = (shed_one, c)
if_sent (closed, c) rest = (gone, c)

-- The table is recorded only where the delivery is complete.
unfoldable pub record_if_complete : SnapshotDelivery → List GameSlot → List GameSlot → List GameSlot
record_if_complete complete last snapshot = snapshot
record_if_complete shed_one last snapshot = last
record_if_complete gone last snapshot = last

unfoldable pub advance_snapshot_lane :
    List GameSlot
    → List GameSlot
    → (List GameSlot → SnapshotDelivery × Events)
    → SnapshotDelivery × List GameSlot × Events
unfolding removed_slots record_if_complete
advance_snapshot_lane last snapshot deliver =
    let (delivery, c) = deliver (removed_slots last snapshot) in
    (delivery, record_if_complete delivery last snapshot, c)

module _ (r : Receiver) where
  -- The three loops of `deliver_snapshot`, each before what comes after it.
  unfoldable pub send_removed :
      List GameSlot → (Events → SnapshotDelivery × Events) → Events → SnapshotDelivery × Events
  unfolding send_checked
  send_removed [] rest c = rest c
  send_removed ((id, pid) ∷ slots) rest c =
      if_sent (send_checked r snapshot_event_cap (removed id pid) c)
        (λ d. send_removed slots rest d)

  unfoldable pub send_detected :
      List ScannedHit → (Events → SnapshotDelivery × Events) → Events → SnapshotDelivery × Events
  unfolding send_checked
  send_detected [] rest c = rest c
  send_detected (hit ∷ hits) rest c =
      if_sent (send_checked r snapshot_event_cap (found hit) c) (λ d. send_detected hits rest d)

  unfoldable pub send_cleared : Bool → Events → SnapshotDelivery × Events
  unfolding send_checked
  send_cleared false c = (complete, c)
  send_cleared true c = if_sent (send_checked r snapshot_event_cap cleared c) (λ d. (complete, d))

  unfoldable pub deliver_snapshot :
      List GameSlot → List ScannedHit → Bool → Events → SnapshotDelivery × Events
  unfolding send_removed send_detected send_cleared
  deliver_snapshot removed_now detected all_gone c =
      send_removed removed_now (λ d. send_detected detected (λ e. send_cleared all_gone e) d) c

-- What the scan thread and the watcher share and keep.
pub record Lane : Type 0 where
  pub last_emitted : List GameSlot
  pub scan_dirty : Bool
  pub detected_pids : List ℕ
  pub idle_ticks : ℕ
  pub events : Events

unfoldable pub apply_ignore_list : List ScannedHit → List String → List ScannedHit
apply_ignore_list detected ignored =
    select (λ (hit : ScannedHit). not (contains ignored hit.entry.id)) detected

abbrev pub no_hits : List ScannedHit → Bool
no_hits [] = true
no_hits (hit ∷ hits) = false

-- `saturating_add` on a u32
abbrev pub next_idle : ℕ → ℕ
next_idle n = if ltb n (2 ^ 32 - 1) then n + 1 else n

-- One tick of the scan loop, after the scan has succeeded.
unfoldable pub scan_tick : Receiver → List String → List ScannedHit → Lane → SnapshotDelivery × Lane
unfolding apply_ignore_list snapshot_of advance_snapshot_lane deliver_snapshot
scan_tick r ignored hits lane =
    let detected = apply_ignore_list hits ignored in
    let snapshot = snapshot_of detected in
    let emit = not (snapshot == lane.last_emitted) || lane.scan_dirty in
    let (delivery, last, events) =
      if emit
      then advance_snapshot_lane lane.last_emitted snapshot
          (λ gone_slots. deliver_snapshot r gone_slots detected (no_hits detected) lane.events)
      else (complete, lane.last_emitted, lane.events) in
    (
      delivery,
      record lane {
        last_emitted = last;
        scan_dirty = false;
        detected_pids = map (λ (hit : ScannedHit). hit.pid) detected;
        idle_ticks = if no_hits detected then next_idle lane.idle_ticks else 0;
        events = events;
      },
    )

unfoldable pub exec_hit_ignored : List String → ScannedHit → Bool
exec_hit_ignored ignored hit = contains ignored hit.entry.id

abbrev pub still_there : SendChecked → Bool
still_there sent = true
still_there shed = true
still_there closed = false

-- Whether the lane goes on: only a receiver that is gone ends it.
unfoldable pub publish_exec_hit : Receiver → ScannedHit → ℕ → Events → Bool × Events
unfolding send_checked
publish_exec_hit r hit cap c =
    let (outcome, c') = send_checked r cap (found hit) c in (still_there outcome, c')

-- An `Exec` event whose process is matched (`spawn_proc_watcher`).
unfoldable pub on_exec : Receiver → List String → ScannedHit → Lane → Bool × Lane
unfolding exec_hit_ignored publish_exec_hit
on_exec r ignored hit lane =
    if exec_hit_ignored ignored hit
    then (true, lane)
    else (let (alive, events) = publish_exec_hit r hit exec_event_cap lane.events in
        (
          alive,
          record lane {
            scan_dirty = true;
            detected_pids =
                if contains lane.detected_pids hit.pid
                then lane.detected_pids
                else hit.pid ∷ lane.detected_pids;
            events = events;
          },
        ))

-- An `Exit` event: whether the scan is woken. `due` says that the last scan is a second old.
unfoldable pub should_wake_on_exit : Bool → ℕ → Lane → Bool × Lane
should_wake_on_exit due pid lane =
    if not (contains lane.detected_pids pid)
    then (false, lane)
    else if due
    then (
      true,
      record lane { detected_pids = select (λ (p : ℕ). not (p == pid)) lane.detected_pids },
    )
    else (false, lane)

-- Durations in milliseconds. Where the product overflows, the cap is taken, as where it passes it.
abbrev pub max_backoff : ℕ
max_backoff = 30000

abbrev pub min_of : ℕ → ℕ → ℕ
min_of a b = if leb a b then a else b

unfoldable pub idle_wait : ℕ → ℕ → ℕ
idle_wait base idle_ticks = min_of (base * 2 ^ min_of idle_ticks 4) max_backoff

unfoldable pub scan_cadence : ℕ → ℕ → Bool → ℕ
unfolding idle_wait
scan_cadence base idle_ticks watcher_live = if watcher_live then idle_wait base idle_ticks else base

abbrev pub is_gone : SnapshotDelivery → Bool
is_gone complete = false
is_gone shed_one = false
is_gone gone = true

-- An early wake ends the idle stretch.
abbrev pub after_wait : Bool → Lane → Lane
after_wait woken lane = record lane { idle_ticks = if woken then 0 else lane.idle_ticks }

-- The scan loop over what the scans find, each with whether its wait is cut short. A scan that fails
-- is skipped. The loop ends when the receiver is gone.
unfoldable pub scan_loop :
    Receiver → List String → List (Option (List ScannedHit) × Bool) → Lane → Lane
unfolding scan_tick
scan_loop r ignored [] lane = lane
scan_loop r ignored ((none, woken) ∷ scans) lane = scan_loop r ignored scans lane
scan_loop r ignored ((some hits, woken) ∷ scans) lane =
    let (delivery, lane') = scan_tick r ignored hits lane in
    let more = scan_loop r ignored scans (after_wait woken lane') in
    if is_gone delivery then lane' else more
