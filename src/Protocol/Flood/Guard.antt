-- ===== src/Protocol/Flood/Guard.antt =====
-- What the flood guard drops, and that it stays bounded.
use discord_rich_presence.Prelude.{
  Bytes, ℕ, ◌-◌, ◌≤◌, ◌<◌, ◌≡◌, ◌≢◌, ◌↔◌, refl, true, false, Option, none, some, arith, length,
  nat_key, string_key, option_key, list_key, pair_key, list_eq_iff, pair_eq_iff, Option-cases, inl,
  inr,
}
use discord_rich_presence.Prelude.HashMap.{
  HashMap, get, insert, retain, get-insert, get-remove, length-insert-le, length-insert_present,
  length-remove-le, length-remove-lt, length-retain-le, get-next_key, next_key, Distinct,
}
use discord_rich_presence.Prelude.HashMap.Keeps.{insert-Distinct, remove-Distinct, retain-Distinct}
use discord_rich_presence.Protocol.Flood.{
  Slot, RecentActivities, is_fresh, repeats, evict_one, make_room, should_drop,
}

-- The record that an earlier publish left.
pub record WasRecorded (r : RecentActivities) (slot : Slot) (bytes : Bytes) (now : ℕ) : Type 0 where
  pub at : ℕ
  pub found : get r.entries slot ≡ some (bytes, at)
  pub recent : now - at < r.window

repeats_found :
    (r : RecentActivities) (slot : Slot) (bytes : Bytes) (now : ℕ)
    → repeats r slot bytes now ≡ true
    → WasRecorded r slot bytes now
unfolding repeats
repeats_found r slot bytes now h = elim (Option-cases (get r.entries slot)) [
  | inl miss ↦ absurd (ground (arith, miss))
  | inr (e, hit) ↦ record {
    at = e.1;
    found = ground (arith, list_eq_iff e.0 bytes);
    recent = ground (arith, list_eq_iff e.0 bytes);
  }
]

found_repeats :
    (r : RecentActivities) (slot : Slot) (bytes : Bytes) (now : ℕ)
    → WasRecorded r slot bytes now
    → repeats r slot bytes now ≡ true
unfolding repeats
found_repeats r slot bytes now w = ground (arith, w.found, w.recent, list_eq_iff bytes bytes)

-- A publish is dropped exactly when the same bytes stand recorded for its connection and the
-- record is younger than the window.
pub should_drop_iff :
    (start : ℕ) (r : RecentActivities) (slot : Slot) (bytes : Bytes) (now : ℕ)
    → ((should_drop start r slot (some bytes) now).1 ≡ true) ↔ WasRecorded r slot bytes now
unfolding should_drop
should_drop_iff start r slot bytes now = (
  λ h. repeats_found r slot bytes now (ground arith),
  λ w. ground (arith, found_repeats r slot bytes now w),
)

length-evict_one :
    (start : ℕ) (m : HashMap Slot (Bytes × ℕ))
    → 0 < length m
    → length (evict_one start m) < length m
unfolding evict_one
length-evict_one start m h =
    let (k, found, present) = get-next_key start m h in
    ground (arith, found, length-remove-lt m k present)

length-make_room :
    (start : ℕ) (r : RecentActivities) (slot : Slot) (now : ℕ)
    → 0 < r.cap
    → length r.entries ≤ r.cap
    → length (make_room start r slot now) ≤ r.cap
unfolding make_room
length-make_room start r slot now h k =
    let live = retain (is_fresh r now) r.entries in
    ground (arith, length-retain-le (is_fresh r now) r.entries, length-evict_one start live)

make_room_new :
    (start : ℕ) (r : RecentActivities) (slot : Slot) (now : ℕ)
    → 0 < r.cap
    → length r.entries ≤ r.cap
    → get r.entries slot ≡ none
    → length (make_room start r slot now) < r.cap
unfolding make_room
make_room_new start r slot now h k e =
    let live = retain (is_fresh r now) r.entries in
    ground (arith, e, length-retain-le (is_fresh r now) r.entries, length-evict_one start live)

make_room_known :
    (start : ℕ) (r : RecentActivities) (slot : Slot) (now : ℕ)
    → get r.entries slot ≢ none
    → make_room start r slot now ≡ r.entries
unfolding make_room
make_room_known start r slot now e = ground arith

recorded_bound :
    (start : ℕ) (r : RecentActivities) (slot : Slot) (e : Bytes × ℕ) (now : ℕ)
    → 0 < r.cap
    → length r.entries ≤ r.cap
    → length (insert (make_room start r slot now) slot e) ≤ r.cap
recorded_bound start r slot e now h k = elim (Option-cases (get r.entries slot)) [
  | inl miss ↦ omega (
    arith,
    length-insert-le (make_room start r slot now) slot e,
    make_room_new start r slot now h k miss,
  )
  | inr (x, hit) ↦
      let known : get r.entries slot ≢ none = λ q. ground (arith, hit, q) in
      rw (make_room_known start r slot now known)
        (omega (arith, length-insert_present r.entries slot e known))
]

-- The guard's map never outgrows its cap, whatever is published or cleared.
pub length-should_drop-le :
    (start : ℕ) (r : RecentActivities) (slot : Slot) (payload : Option Bytes) (now : ℕ)
    → 0 < r.cap
    → length r.entries ≤ r.cap
    → length (should_drop start r slot payload now).0.entries ≤ r.cap
unfolding should_drop
length-should_drop-le start r slot none now h k = omega (arith, length-remove-le r.entries slot)
length-should_drop-le start r slot (some bytes) now h k =
    ground (arith, recorded_bound start r slot (bytes, now) now h k)

evict_one-Distinct :
    (start : ℕ) (m : HashMap Slot (Bytes × ℕ)) → Distinct m → Distinct (evict_one start m)
unfolding evict_one
evict_one-Distinct start m d = elim (Option-cases (next_key start m)) [
  | inl empty ↦ rw (empty, evict_one) d
  | inr (victim, first) ↦ rw (first, evict_one) (remove-Distinct m victim d)
]

make_room-Distinct :
    (start : ℕ) (r : RecentActivities) (slot : Slot) (now : ℕ)
    → Distinct r.entries
    → Distinct (make_room start r slot now)
unfolding make_room
make_room-Distinct start r slot now d =
    let live = retain (is_fresh r now) r.entries in
    let kept : Distinct live = retain-Distinct (is_fresh r now) r.entries d in
    ground (arith, d, kept, evict_one-Distinct start live kept)

-- The guard's map never holds a key twice.
pub should_drop-Distinct :
    (start : ℕ) (r : RecentActivities) (slot : Slot) (payload : Option Bytes) (now : ℕ)
    → Distinct r.entries
    → Distinct (should_drop start r slot payload now).0.entries
unfolding should_drop
should_drop-Distinct start r slot none now d = remove-Distinct r.entries slot d
should_drop-Distinct start r slot (some bytes) now d = ground (
  arith,
  d,
  insert-Distinct (make_room start r slot now) slot (bytes, now)
      (make_room-Distinct start r slot now d),
)

-- A publish that passes is remembered: the same bytes are dropped until the window has passed.
pub should_drop_repeat :
    (start start' : ℕ) (r : RecentActivities) (slot : Slot) (bytes : Bytes) (now later : ℕ)
    → (should_drop start r slot (some bytes) now).1 ≡ false
    → later - now < r.window
    → (should_drop start' (should_drop start r slot (some bytes) now).0 slot (some bytes) later).1
      ≡ true
unfolding should_drop repeats
should_drop_repeat start start' r slot bytes now later h k = ground (
  arith,
  get-insert (make_room start r slot now) slot slot (bytes, now),
  pair_eq_iff slot slot,
  list_eq_iff bytes bytes,
)

-- A clear is never dropped, and whatever its connection publishes next passes.
pub should_drop_after_clear :
    (start start' : ℕ) (r : RecentActivities) (slot : Slot) (bytes : Bytes) (now later : ℕ)
    → ((should_drop start r slot none now).1 ≡ false)
      × ((should_drop start' (should_drop start r slot none now).0 slot (some bytes) later).1
          ≡ false)
unfolding should_drop repeats
should_drop_after_clear start start' r slot bytes now later =
    (refl, ground (arith, get-remove r.entries slot slot, pair_eq_iff slot slot))

pub cap-should_drop :
    (start : ℕ) (r : RecentActivities) (slot : Slot) (payload : Option Bytes) (now : ℕ)
    → (should_drop start r slot payload now).0.cap ≡ r.cap
unfolding should_drop
cap-should_drop start r slot none now = refl
cap-should_drop start r slot (some bytes) now = ground arith
