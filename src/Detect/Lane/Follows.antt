-- ===== src/Detect/Lane/Follows.antt =====
-- What a consumer that follows the events holds, after a scan.
use mathlib.Core.List.{append_assoc, append-nil}
use discord_rich_presence.Prelude.{
  ℕ, ◌≡◌, refl, sym, ap, ◌∙◌, inl, inr, Bool, true, false, not, ◌||◌, ◌&&◌, List, [], ◌∷◌, ◌++◌,
  ◌==◌, pair_key, nat_key, string_key, pair_eq, pair_eq_iff, contains, if◌then◌else◌, Bool-cases,
  arith,
}
use discord_rich_presence.Detect.Types.{ScannedHit, ProcessDetectedEvent, found, cleared, removed}
use discord_rich_presence.Detect.Channel.{SendChecked, sent, shed, closed, Receiver, send_checked}
use discord_rich_presence.Detect.Lane.{
  GameSlot, slot_of, removed_slots, insert_slot, slot_le, snapshot_of, SnapshotDelivery, complete,
  Events, if_sent, send_removed, send_detected, send_cleared, deliver_snapshot, snapshot_event_cap,
}

-- Whether the card of the slot `p` is held after an event, and after many.
abbrev pub holds_after : GameSlot → ProcessDetectedEvent → Bool → Bool
holds_after p (found hit) b = if slot_of hit == p then true else b
holds_after p cleared b = false
holds_after p (removed id pid) b = if pair_eq (id, pid) p then false else b

abbrev pub holds_from : Bool → List ProcessDetectedEvent → GameSlot → Bool
holds_from b [] p = b
holds_from b (e ∷ es) p = holds_from (holds_after p e b) es p

-- What is held after all that a channel has accepted.
abbrev pub holds : Events → GameSlot → Bool
holds c = holds_from false c.accepted

pub holds_from-append :
    (b : Bool) (xs ys : List ProcessDetectedEvent) (p : GameSlot)
    → holds_from b (xs ++ ys) p ≡ holds_from (holds_from b xs p) ys p
holds_from-append b [] ys p = refl
holds_from-append b (x ∷ xs) ys p = holds_from-append (holds_after p x b) xs ys p

abbrev pub removed_events : List GameSlot → List ProcessDetectedEvent
removed_events [] = []
removed_events ((id, pid) ∷ slots) = removed id pid ∷ removed_events slots

abbrev pub found_events : List ScannedHit → List ProcessDetectedEvent
found_events [] = []
found_events (hit ∷ hits) = found hit ∷ found_events hits

abbrev pub end_events : Bool → List ProcessDetectedEvent
end_events true = cleared ∷ []
end_events false = []

abbrev pub is_sent : SendChecked → Bool
is_sent sent = true
is_sent shed = false
is_sent closed = false

pub send_checked_accepted :
    (r : Receiver) (cap : ℕ) (e : ProcessDetectedEvent) (c : Events)
    → (send_checked r cap e c).1.accepted
      ≡ (if is_sent (send_checked r cap e c).0 then c.accepted ++ e ∷ [] else c.accepted)
unfolding send_checked
send_checked_accepted r cap e c = ground arith

-- A step that comes to a complete delivery was sent, and what follows it decides.
if_sent_complete :
    (x : SendChecked × Events) (rest : Events → SnapshotDelivery × Events)
    → (if_sent x rest).0 ≡ complete
    → (is_sent x.0 ≡ true) × (if_sent x rest ≡ rest x.1)
if_sent_complete (sent, c) rest h = (refl, refl)
if_sent_complete (shed, c) rest h = cc
if_sent_complete (closed, c) rest h = cc

module _ (r : Receiver) where
  -- One event in front of a complete delivery.
  sent_first :
      (e : ProcessDetectedEvent) (c : Events) (rest : Events → SnapshotDelivery × Events)
      → (if_sent (send_checked r snapshot_event_cap e c) rest).0 ≡ complete
      → (d : Events) × (d.accepted ≡ c.accepted ++ e ∷ [])
        × (if_sent (send_checked r snapshot_event_cap e c) rest ≡ rest d)
        × ((rest d).0 ≡ complete)
  sent_first e c rest h =
      let x = send_checked r snapshot_event_cap e c in
      let (went, same) = if_sent_complete x rest h in
      (
        x.1,
        send_checked_accepted r snapshot_event_cap e c
            ∙ ap (λ (b : Bool). if b then c.accepted ++ e ∷ [] else c.accepted) went,
        same,
        ap (λ (y : SnapshotDelivery × Events). y.0) (sym same) ∙ h,
      )

  send_removed_complete :
      (slots : List GameSlot) (rest : Events → SnapshotDelivery × Events) (c : Events)
      → (send_removed r slots rest c).0 ≡ complete
      → (d : Events) × (d.accepted ≡ c.accepted ++ removed_events slots)
        × (send_removed r slots rest c ≡ rest d)
        × ((rest d).0 ≡ complete)
  unfolding send_removed
  send_removed_complete [] rest c h = (c, sym (append-nil c.accepted), refl, h)
  send_removed_complete ((id, pid) ∷ slots) rest c h =
      let (d, a, s, k) = sent_first (removed id pid) c (λ x. send_removed r slots rest x) h in
      let (d', a', s', k') = send_removed_complete slots rest d k in
      (
        d',
        a'
            ∙ ap (λ (l : List ProcessDetectedEvent). l ++ removed_events slots) a
            ∙ append_assoc c.accepted (removed id pid ∷ []) (removed_events slots),
        s ∙ s',
        k',
      )

  send_detected_complete :
      (hits : List ScannedHit) (rest : Events → SnapshotDelivery × Events) (c : Events)
      → (send_detected r hits rest c).0 ≡ complete
      → (d : Events) × (d.accepted ≡ c.accepted ++ found_events hits)
        × (send_detected r hits rest c ≡ rest d)
        × ((rest d).0 ≡ complete)
  unfolding send_detected
  send_detected_complete [] rest c h = (c, sym (append-nil c.accepted), refl, h)
  send_detected_complete (hit ∷ hits) rest c h =
      let (d, a, s, k) = sent_first (found hit) c (λ x. send_detected r hits rest x) h in
      let (d', a', s', k') = send_detected_complete hits rest d k in
      (
        d',
        a'
            ∙ ap (λ (l : List ProcessDetectedEvent). l ++ found_events hits) a
            ∙ append_assoc c.accepted (found hit ∷ []) (found_events hits),
        s ∙ s',
        k',
      )

  send_cleared_complete :
      (all_gone : Bool) (c : Events)
      → (send_cleared r all_gone c).0 ≡ complete
      → (send_cleared r all_gone c).1.accepted ≡ c.accepted ++ end_events all_gone
  unfolding send_cleared
  send_cleared_complete false c h = sym (append-nil c.accepted)
  send_cleared_complete true c h =
      let (d, a, s, k) = sent_first cleared c (λ x. (complete, x)) h in
      ap (λ (y : SnapshotDelivery × Events). y.1.accepted) s ∙ a

  -- A complete delivery has sent everything, in order.
  pub deliver_snapshot_complete :
      (slots : List GameSlot) (hits : List ScannedHit) (all_gone : Bool) (c : Events)
      → (deliver_snapshot r slots hits all_gone c).0 ≡ complete
      → (deliver_snapshot r slots hits all_gone c).1.accepted
        ≡ ((c.accepted ++ removed_events slots) ++ found_events hits) ++ end_events all_gone
  unfolding deliver_snapshot
  deliver_snapshot_complete slots hits all_gone c h =
      let last = λ (e : Events). send_cleared r all_gone e in
      let (d, a, s, k) = send_removed_complete slots (λ x. send_detected r hits last x) c h in
      let (e, a', s', k') = send_detected_complete hits last d k in
      ap (λ (y : SnapshotDelivery × Events). y.1.accepted) (s ∙ s')
      ∙ send_cleared_complete all_gone e k'
      ∙ ap (λ (l : List ProcessDetectedEvent). l ++ end_events all_gone)
          (a' ∙ ap (λ (l : List ProcessDetectedEvent). l ++ found_events hits) a)

pub contains-insert_slot :
    (a : GameSlot) (l : List GameSlot) (p : GameSlot)
    → contains (insert_slot a l) p ≡ (pair_eq a p || contains l p)
unfolding insert_slot
contains-insert_slot a [] p = refl
contains-insert_slot a (b ∷ l) p = elim (Bool-cases (slot_le a b)) [
  | inl first ↦ rw first refl
  | inr later ↦ rw (later, contains-insert_slot a l p) (ground arith)
]

pub contains-removed_slots :
    (previous current : List GameSlot) (p : GameSlot)
    → contains (removed_slots previous current) p
      ≡ (contains previous p && not (contains current p))
unfolding removed_slots
contains-removed_slots [] current p = refl
contains-removed_slots (a ∷ previous) current p =
    ground (arith, pair_eq_iff a p, contains-removed_slots previous current p)

pub holds_from-removed_events :
    (b : Bool) (slots : List GameSlot) (p : GameSlot)
    → holds_from b (removed_events slots) p ≡ (b && not (contains slots p))
holds_from-removed_events b [] p = ground arith
holds_from-removed_events b ((id, pid) ∷ slots) p =
    ground (arith, holds_from-removed_events (if pair_eq (id, pid) p then false else b) slots p)

pub holds_from-found_events :
    (b : Bool) (hits : List ScannedHit) (p : GameSlot)
    → holds_from b (found_events hits) p ≡ (b || contains (snapshot_of hits) p)
unfolding snapshot_of
holds_from-found_events b [] p = ground arith
holds_from-found_events b (hit ∷ hits) p = ground (
  arith,
  holds_from-found_events (if pair_eq (slot_of hit) p then true else b) hits p,
  contains-insert_slot (slot_of hit) (snapshot_of hits) p,
)
