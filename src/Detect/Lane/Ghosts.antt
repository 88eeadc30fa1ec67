-- ===== src/Detect/Lane/Ghosts.antt =====
-- A slot that the consumer holds and the lane has not recorded is never taken back, while the scans
-- find something else.
use discord_rich_presence.Prelude.{
  ℕ, ◌≡◌, ap, ◌∙◌, inl, inr, String, Bool, true, false, Option, none, some, List, [], ◌∷◌, ◌++◌,
  ◌<◌, leb, pair_key, nat_key, string_key, pair_eq_iff, contains, if◌then◌else◌, Bool-cases, arith,
}
use discord_rich_presence.Detect.Types.{ScannedHit, ProcessDetectedEvent, found, removed}
use discord_rich_presence.Detect.Channel.{
  SendChecked, sent, shed, closed, Receiver, backlog, send_checked,
}
use discord_rich_presence.Detect.Lane.{
  GameSlot, slot_of, removed_slots, SnapshotDelivery, complete, shed_one, gone, Events, if_sent,
  send_removed, send_detected, send_cleared, deliver_snapshot, record_if_complete, Lane,
  apply_ignore_list, no_hits, scan_tick, scan_loop, snapshot_event_cap, is_gone, after_wait,
  on_exec, publish_exec_hit, exec_hit_ignored, exec_event_cap,
}
use discord_rich_presence.Detect.Lane.Follows.{
  holds_after, holds_from, holds, holds_from-append, is_sent, send_checked_accepted,
  contains-removed_slots,
}
use discord_rich_presence.Detect.Lane.Ticks.{table, tick_cases, delivery_of}

module _ (r : Receiver) (p : GameSlot) where
  send_keeps :
      (cap : ℕ) (e : ProcessDetectedEvent) (c : Events)
      → holds_after p e true ≡ true
      → holds c p ≡ true
      → holds (send_checked r cap e c).1 p ≡ true
  send_keeps cap e c keeps h = elim (Bool-cases (is_sent (send_checked r cap e c).0)) [
    | inl went ↦
        ap (λ (l : List ProcessDetectedEvent). holds_from false l p)
          (send_checked_accepted r cap e c
            ∙ ap (λ (b : Bool). if b then c.accepted ++ e ∷ [] else c.accepted) went)
        ∙ holds_from-append false c.accepted (e ∷ []) p
        ∙ ap (λ (b : Bool). holds_after p e b) h
        ∙ keeps
    | inr stopped ↦
        ap (λ (l : List ProcessDetectedEvent). holds_from false l p)
          (send_checked_accepted r cap e c
            ∙ ap (λ (b : Bool). if b then c.accepted ++ e ∷ [] else c.accepted) stopped)
        ∙ h
  ]

  abbrev Keeps : (Events → SnapshotDelivery × Events) → Type 0
  Keeps rest = (d : Events) → holds d p ≡ true → holds (rest d).1 p ≡ true

  if_sent-Keeps :
      (x : SendChecked × Events) (rest : Events → SnapshotDelivery × Events)
      → Keeps rest
      → holds x.1 p ≡ true
      → holds (if_sent x rest).1 p ≡ true
  if_sent-Keeps (sent, c) rest k h = k c h
  if_sent-Keeps (shed, c) rest k h = h
  if_sent-Keeps (closed, c) rest k h = h

  send_removed-Keeps :
      (slots : List GameSlot) (rest : Events → SnapshotDelivery × Events)
      → contains slots p ≡ false
      → Keeps rest
      → Keeps (send_removed r slots rest)
  unfolding send_removed
  send_removed-Keeps [] rest apart k c h = k c h
  send_removed-Keeps ((id, pid) ∷ slots) rest apart k c h =
      if_sent-Keeps (send_checked r snapshot_event_cap (removed id pid) c)
        (λ d. send_removed r slots rest d)
        (λ d held. send_removed-Keeps slots rest (ground arith) k d held)
        (send_keeps snapshot_event_cap (removed id pid) c (ground arith) h)

  send_detected-Keeps :
      (hits : List ScannedHit) (rest : Events → SnapshotDelivery × Events)
      → Keeps rest
      → Keeps (send_detected r hits rest)
  unfolding send_detected
  send_detected-Keeps [] rest k c h = k c h
  send_detected-Keeps (hit ∷ hits) rest k c h =
      if_sent-Keeps (send_checked r snapshot_event_cap (found hit) c)
        (λ d. send_detected r hits rest d) (λ d held. send_detected-Keeps hits rest k d held)
        (send_keeps snapshot_event_cap (found hit) c (ground arith) h)

  deliver_snapshot-Keeps :
      (slots : List GameSlot) (hits : List ScannedHit) (all_gone : Bool)
      → contains slots p ≡ false
      → all_gone ≡ false
      → Keeps (deliver_snapshot r slots hits all_gone)
  unfolding deliver_snapshot send_cleared
  deliver_snapshot-Keeps slots hits true apart some_left = absurd (cc)
  deliver_snapshot-Keeps slots hits false apart some_left =
      send_removed-Keeps slots (λ d. send_detected r hits (λ e. send_cleared r false e) d) apart
        (send_detected-Keeps hits (λ e. send_cleared r false e) (λ d h. h))

  -- The consumer holds the slot, and the lane has not recorded it.
  abbrev pub IsGhost : Lane → Type 0
  IsGhost lane = (holds lane.events p ≡ true) × (contains lane.last_emitted p ≡ false)

  recorded_apart :
      (d : SnapshotDelivery) (last snapshot : List GameSlot)
      → contains last p ≡ false
      → contains snapshot p ≡ false
      → contains (record_if_complete d last snapshot) p ≡ false
  unfolding record_if_complete
  recorded_apart complete last snapshot a b = b
  recorded_apart shed_one last snapshot a b = a
  recorded_apart gone last snapshot a b = a

  scan_tick-IsGhost :
      (ignored : List String) (hits : List ScannedHit) (lane : Lane)
      → no_hits (apply_ignore_list hits ignored) ≡ false
      → contains (table ignored hits) p ≡ false
      → IsGhost lane
      → IsGhost (scan_tick r ignored hits lane).1
  scan_tick-IsGhost ignored hits lane some_left apart (held, unrecorded) =
      let snapshot = table ignored hits in
      let detected = apply_ignore_list hits ignored in
      let gone_slots = removed_slots lane.last_emitted snapshot in
      let stays : contains gone_slots p ≡ false =
        ground (arith, contains-removed_slots lane.last_emitted snapshot p) in
      tick_cases r ignored hits lane
        (λ delivery last events. (holds events p ≡ true) × (contains last p ≡ false))
        (λ emitted. (
          deliver_snapshot-Keeps gone_slots detected (no_hits detected) stays some_left lane.events
              held,
          recorded_apart (delivery_of r ignored hits lane).0 lane.last_emitted snapshot unrecorded
              apart,
        ))
        (λ quiet. (held, unrecorded))

  -- Each scan that succeeds finds something, but not the slot.
  abbrev pub FindOthers : List String → List (Option (List ScannedHit) × Bool) → Type 0
  FindOthers ignored [] = Unit
  FindOthers ignored ((none, woken) ∷ scans) = FindOthers ignored scans
  FindOthers ignored ((some hits, woken) ∷ scans) =
      (no_hits (apply_ignore_list hits ignored) ≡ false)
      × (contains (table ignored hits) p ≡ false)
      × FindOthers ignored scans

  -- While the scans find other games and not the slot, a consumer that holds it holds it for good,
  -- whatever is delivered.
  pub scan_loop-IsGhost :
      (ignored : List String) (scans : List (Option (List ScannedHit) × Bool)) (lane : Lane)
      → FindOthers ignored scans
      → IsGhost lane
      → IsGhost (scan_loop r ignored scans lane)
  unfolding scan_loop
  scan_loop-IsGhost ignored [] lane others g = g
  scan_loop-IsGhost ignored ((none, woken) ∷ scans) lane others g =
      scan_loop-IsGhost ignored scans lane others g
  scan_loop-IsGhost ignored ((some hits, woken) ∷ scans) lane (some_left, apart, others) g =
      let t = scan_tick r ignored hits lane in
      let now = scan_tick-IsGhost ignored hits lane some_left apart g in
      elim (Bool-cases (is_gone t.0)) [
        | inl over ↦ rw over now
        | inr on ↦ rw on (scan_loop-IsGhost ignored scans (after_wait woken t.1) others now)
      ]

module _ (r : Receiver) (ignored : List String) (hit : ScannedHit) (lane : Lane) where
  on_exec-IsGhost :
      exec_hit_ignored ignored hit ≡ false
      → backlog r lane.events < exec_event_cap
      → r.gone lane.events.tried ≡ false
      → contains lane.last_emitted (slot_of hit) ≡ false
      → IsGhost r (slot_of hit) (on_exec r ignored hit lane).1
  unfolding on_exec publish_exec_hit send_checked
  on_exec-IsGhost shown room there unrecorded =
      let fits : leb exec_event_cap (backlog r lane.events) ≡ false = ground arith in
      rw (shown, fits, there)
        (
          ground (
            arith,
            holds_from-append false lane.events.accepted (found hit ∷ []) (slot_of hit),
            pair_eq_iff (slot_of hit) (slot_of hit),
          ),
          unrecorded,
        )

  -- A game that is reported when it starts, and that no scan sees, is held by the consumer for good
  -- while the scans find other games: the scan that the report forces does not take it back.
  pub on_exec_ghost :
      exec_hit_ignored ignored hit ≡ false
      → backlog r lane.events < exec_event_cap
      → r.gone lane.events.tried ≡ false
      → contains lane.last_emitted (slot_of hit) ≡ false
      → (scans : List (Option (List ScannedHit) × Bool)) → FindOthers r (slot_of hit) ignored scans
      → holds (scan_loop r ignored scans (on_exec r ignored hit lane).1).events (slot_of hit) ≡ true
  on_exec_ghost shown room there unrecorded scans others =
      (scan_loop-IsGhost r (slot_of hit) ignored scans (on_exec r ignored hit lane).1 others
        (on_exec-IsGhost shown room there unrecorded)).0
