-- ===== src/Detect/Lane/Ticks.antt =====
-- The table that the scan thread records, and what a consumer holds.
use discord_rich_presence.Prelude.{
  ◌≡◌, refl, sym, ap, ◌∙◌, inl, inr, String, Bool, true, false, not, ◌||◌, ◌&&◌, List, [], ◌∷◌,
  ◌++◌, ◌==◌, pair_key, list_key, nat_key, string_key, list_eq_iff, contains, if◌then◌else◌,
  Bool-cases, arith,
}
use discord_rich_presence.Detect.Types.{ScannedHit, ProcessDetectedEvent, cleared}
use discord_rich_presence.Detect.Channel.{Receiver}
use discord_rich_presence.Detect.Lane.{
  GameSlot, removed_slots, snapshot_of, SnapshotDelivery, complete, Events, deliver_snapshot,
  record_if_complete, advance_snapshot_lane, Lane, apply_ignore_list, no_hits, scan_tick,
}
use discord_rich_presence.Detect.Lane.Follows.{
  holds_from, holds, holds_from-append, removed_events, found_events, end_events,
  deliver_snapshot_complete, contains-removed_slots, holds_from-removed_events,
  holds_from-found_events,
}

-- The consumer holds just the slots that the lane has recorded.
abbrev pub Agrees : Lane → Type 0
Agrees lane = (p : GameSlot) → holds lane.events p ≡ contains lane.last_emitted p

-- The table of a scan, without the ignored games.
abbrev pub table : List String → List ScannedHit → List GameSlot
table ignored hits = snapshot_of (apply_ignore_list hits ignored)

abbrev delivered_events :
    List GameSlot → List ScannedHit → List ProcessDetectedEvent → List ProcessDetectedEvent
delivered_events gone_slots hits before =
    ((before ++ removed_events gone_slots) ++ found_events hits) ++ end_events (no_hits hits)

-- What is held after the events of one scan: the table, and what was held and is not recorded,
-- unless the scan found nothing.
holds-delivered :
    (last : List GameSlot) (hits : List ScannedHit) (before : List ProcessDetectedEvent)
    (p : GameSlot)
    → holds_from false (delivered_events (removed_slots last (snapshot_of hits)) hits before) p ≡ (
        if no_hits hits
        then false
        else contains (snapshot_of hits) p || holds_from false before p && not (contains last p))
holds-delivered last hits before p =
    let gone_slots = removed_slots last (snapshot_of hits) in
    let first = before ++ removed_events gone_slots in
    let second = first ++ found_events hits in
    let a = holds_from-append false before (removed_events gone_slots) p in
    let b = holds_from-removed_events (holds_from false before p) gone_slots p in
    let c = holds_from-append false first (found_events hits) p in
    let d = holds_from-found_events (holds_from false first p) hits p in
    let f = contains-removed_slots last (snapshot_of hits) p in
    elim (Bool-cases (no_hits hits)) [
      | inl nothing ↦ rw nothing (holds_from-append false second (cleared ∷ []) p)
      | inr something ↦ rw something (ground (arith, holds_from-append false second [] p))
    ]

-- No slot is recorded of a scan that found nothing.
contains-no_hits :
    (hits : List ScannedHit) (p : GameSlot)
    → no_hits hits ≡ true
    → contains (snapshot_of hits) p ≡ false
unfolding snapshot_of
contains-no_hits [] p h = refl
contains-no_hits (hit ∷ hits) p h = cc

module _ (r : Receiver) (ignored : List String) (hits : List ScannedHit) (lane : Lane) where
  abbrev pub detected : List ScannedHit
  detected = apply_ignore_list hits ignored

  abbrev pub delivery_of : SnapshotDelivery × Events
  delivery_of =
      deliver_snapshot r (removed_slots lane.last_emitted (snapshot_of detected)) detected
        (no_hits detected) lane.events

  abbrev pub emits : Bool
  emits = not (snapshot_of detected == lane.last_emitted) || lane.scan_dirty

  -- A tick either sends its events or leaves table and channel as they were.
  pub tick_cases :
      (P : SnapshotDelivery → List GameSlot → Events → Type 0)
      → (emits ≡ true
          → P delivery_of.0
              (record_if_complete delivery_of.0 lane.last_emitted (snapshot_of detected))
              delivery_of.1)
      → (emits ≡ false → P complete lane.last_emitted lane.events)
      → P
          (scan_tick r ignored hits lane).0
          (scan_tick r ignored hits lane).1.last_emitted
          (scan_tick r ignored hits lane).1.events
  unfolding scan_tick advance_snapshot_lane
  tick_cases P sends rests = elim (Bool-cases emits) [
    | inl e ↦ rw e (sends e)
    | inr e ↦ rw e (rests e)
  ]

  -- A scan whose events are all delivered: a consumer that held just the recorded slots holds just
  -- the slots of the scan, and they are recorded.
  pub scan_tick_refines :
      Agrees lane
      → (scan_tick r ignored hits lane).0 ≡ complete
      → Agrees (scan_tick r ignored hits lane).1
        × ((scan_tick r ignored hits lane).1.last_emitted ≡ table ignored hits)
  unfolding record_if_complete
  scan_tick_refines agrees =
      tick_cases
        (λ delivery last events.
          delivery ≡ complete
          → ((p : GameSlot) → holds events p ≡ contains last p) × (last ≡ table ignored hits))
        (λ emitted done.
          let snapshot = snapshot_of detected in
          let now : record_if_complete delivery_of.0 lane.last_emitted snapshot ≡ snapshot =
            ap (λ (x : SnapshotDelivery). record_if_complete x lane.last_emitted snapshot) done in
          let all =
            deliver_snapshot_complete r (removed_slots lane.last_emitted snapshot) detected
              (no_hits detected) lane.events done in
          (
            λ p.
                ap (λ (l : List ProcessDetectedEvent). holds_from false l p) all
                ∙ holds-delivered lane.last_emitted detected lane.events.accepted p
                ∙ settled p
                ∙ ap (λ (l : List GameSlot). contains l p) (sym now),
            now,
          ))
        (λ quiet done. (agrees, unchanged quiet))
    where
      unchanged : emits ≡ false → lane.last_emitted ≡ snapshot_of detected
      unchanged quiet =
          sym ((list_eq_iff (snapshot_of detected) lane.last_emitted).0 (ground (arith, quiet)))

      settled :
          (p : GameSlot)
          → (if no_hits detected
              then false
              else contains (snapshot_of detected) p
                || holds lane.events p && not (contains lane.last_emitted p))
            ≡ contains (snapshot_of detected) p
      settled p = ground (arith, agrees p, contains-no_hits detected p)
