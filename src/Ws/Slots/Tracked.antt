-- ===== src/Ws/Slots/Tracked.antt =====
-- The records of a connection are bounded, one for each pid, and a publish that is rolled back
-- leaves them as they were.
use discord_rich_presence.Prelude.{
  ℕ, suc, ◌≤◌, ◌≡◌, ◌≢◌, refl, Bool, true, false, Option, none, some, List, [], ◌∷◌, ◌++◌, length,
  leb, ltb, not, is_none, ◌||◌, ◌&&◌, eqn, eqn_iff, if◌then◌else◌, arith, length-append,
  Option-cases, Bool-cases, inl, inr,
}
use discord_rich_presence.Ws.Sink.{PublishedSlot}
use discord_rich_presence.Ws.Slots.{
  max_tracked_slots, ClientSlot, Admission, admitted, refused_full, find_slot, remove_slot,
  note_new, note_published, forget_published, rollback_publish,
}

abbrev pub OneEach : List PublishedSlot → Type 0
OneEach [] = Unit
OneEach (e ∷ rest) = (find_slot e.pid rest ≡ none) × OneEach rest

pub record IsBounded (s : ClientSlot) : Type 0 where
  pub bounded : length s.published ≤ max_tracked_slots
  pub one_each : OneEach s.published

pub find_slot-snoc :
    (p : ℕ) (l : List PublishedSlot) (e : PublishedSlot)
    → find_slot p (l ++ e ∷ [])
      ≡ (elim (find_slot p l) [ some x ↦ some x | none ↦ if eqn e.pid p then some e else none ])
unfolding find_slot
find_slot-snoc p [] e = ground arith
find_slot-snoc p (x ∷ l) e = ground (arith, find_slot-snoc p l e)

find_slot_pid :
    (p : ℕ) (l : List PublishedSlot) (x : PublishedSlot) → find_slot p l ≡ some x → x.pid ≡ p
unfolding find_slot
find_slot_pid p [] x h = cc
find_slot_pid p (e ∷ l) x h = ground (arith, eqn_iff e.pid p, find_slot_pid p l x)

pub find_slot-remove_slot :
    (p q : ℕ) (l : List PublishedSlot)
    → OneEach l
    → find_slot p (remove_slot q l) ≡ (if eqn q p then none else find_slot p l)
unfolding find_slot remove_slot
find_slot-remove_slot p q [] d = ground arith
find_slot-remove_slot p q (e ∷ l) d =
    ground
      (arith, find_slot-remove_slot p q l d.1, d.0, eqn_iff e.pid q, eqn_iff e.pid p, eqn_iff q p)

OneEach-snoc :
    (l : List PublishedSlot) (e : PublishedSlot)
    → OneEach l
    → find_slot e.pid l ≡ none
    → OneEach (l ++ e ∷ [])
unfolding find_slot
OneEach-snoc [] e d h = (refl, tt)
OneEach-snoc (x ∷ l) e d h = (
  ground (arith, d.0, find_slot-snoc x.pid l e, eqn_iff e.pid x.pid, eqn_iff x.pid e.pid),
  OneEach-snoc l e d.1 (ground arith),
)

OneEach-remove_slot : (q : ℕ) (l : List PublishedSlot) → OneEach l → OneEach (remove_slot q l)
unfolding remove_slot
OneEach-remove_slot q [] d = tt
OneEach-remove_slot q (e ∷ l) d =
    ground (arith, d.0, d.1, find_slot-remove_slot e.pid q l d.1, OneEach-remove_slot q l d.1)

length-remove_slot-le : (q : ℕ) (l : List PublishedSlot) → length (remove_slot q l) ≤ length l
unfolding remove_slot
length-remove_slot-le q [] = omega arith
length-remove_slot-le q (e ∷ l) = ground (arith, length-remove_slot-le q l)

length-remove_slot :
    (q : ℕ) (l : List PublishedSlot)
    → find_slot q l ≢ none
    → suc (length (remove_slot q l)) ≡ length l
unfolding find_slot remove_slot
length-remove_slot q [] h = absurd (h refl)
length-remove_slot q (e ∷ l) h = ground (arith, length-remove_slot q l)

-- Whether a record is admitted.
abbrev pub is_admitted : Admission → Bool
is_admitted (admitted d) = true
is_admitted refused_full = false

pub forget_published-IsBounded :
    (q : ℕ) {s : ClientSlot} → IsBounded s → IsBounded (forget_published q s)
unfolding forget_published
forget_published-IsBounded q {s} v = record {
  bounded = omega (arith, v.bounded, length-remove_slot-le q s.published);
  one_each = OneEach-remove_slot q s.published v.one_each;
}

module _ (s : ClientSlot) (new : PublishedSlot) (v : IsBounded s) where
  replaced :
      find_slot new.pid s.published ≢ none
      → IsBounded (record s { published = remove_slot new.pid s.published ++ new ∷ [] })
  replaced h =
      let l = s.published in
      record {
        bounded = omega (
          arith,
          v.bounded,
          length-remove_slot new.pid l h,
          length-append (remove_slot new.pid l) (new ∷ []),
        );
        one_each =
            OneEach-snoc (remove_slot new.pid l) new (OneEach-remove_slot new.pid l v.one_each)
              (ground (arith, find_slot-remove_slot new.pid new.pid l v.one_each));
      }

  appended :
      find_slot new.pid s.published ≡ none
      → leb max_tracked_slots (length s.published) ≡ false
      → IsBounded (record s { published = s.published ++ new ∷ [] })
  appended h room = record {
    bounded = ground (arith, length-append s.published (new ∷ []));
    one_each = OneEach-snoc s.published new v.one_each h;
  }

  pub note_published-IsBounded : IsBounded (note_published new s).0
  unfolding note_published note_new
  note_published-IsBounded = elim (Option-cases (find_slot new.pid s.published)) [
    | inl new_pid ↦ elim (Bool-cases (leb max_tracked_slots (length s.published))) [
      | inl full ↦ rw (new_pid, note_new, full) v
      | inr room ↦ rw (new_pid, note_new, room) (appended new_pid room)
    ]
    | inr (old, e) ↦ rw (e, note_new) (replaced (cc))
  ]

  -- A publish is admitted exactly when its pid is tracked or fewer than sixteen are, and then its
  -- record is the one of its pid; the records of the other pids stay.
  pub note_published_lem :
      (is_admitted (note_published new s).1
        ≡ not (is_none (find_slot new.pid s.published))
          || ltb (length s.published) max_tracked_slots)
      × ((p : ℕ)
          → find_slot p (note_published new s).0.published ≡ (
              if is_admitted (note_published new s).1 && eqn new.pid p
              then some new
              else find_slot p s.published))
  unfolding note_published note_new
  note_published_lem = elim (Option-cases (find_slot new.pid s.published)) [
    | inl new_pid ↦ elim (Bool-cases (leb max_tracked_slots (length s.published))) [
      | inl full ↦ rw (new_pid, note_new, full) (ground arith, λ p. ground arith)
      | inr room ↦
          rw (new_pid, note_new, room)
            (
              ground arith,
              λ p. ground (arith, find_slot-snoc p s.published new, new_pid, eqn_iff new.pid p),
            )
    ]
    | inr (old, e) ↦
        rw (e, note_new)
          (
            ground arith,
            λ p. ground (
              arith,
              find_slot-snoc p (remove_slot new.pid s.published) new,
              find_slot-remove_slot p new.pid s.published v.one_each,
            ),
          )
  ]

  displaced_found :
      (d : Option PublishedSlot)
      → (note_published new s).1 ≡ admitted d
      → find_slot new.pid s.published ≡ d
  unfolding note_published note_new
  displaced_found d h = elim (Option-cases (find_slot new.pid s.published)) [
    | inl new_pid ↦ ground (arith, new_pid, h)
    | inr (old, e) ↦ ground (arith, e, h)
  ]

  -- A publish that is admitted and then not delivered leaves the record of every pid as it was.
  pub rollback_publish-note_published :
      (d : Option PublishedSlot)
      → (note_published new s).1 ≡ admitted d
      → (p : ℕ)
      → find_slot p (rollback_publish new.pid d (note_published new s).0).published
        ≡ find_slot p s.published
  unfolding rollback_publish forget_published
  rollback_publish-note_published none h p =
      let t = (note_published new s).0 in
      ground (
        arith,
        displaced_found none h,
        note_published_lem.1 p,
        find_slot-remove_slot p new.pid t.published note_published-IsBounded.one_each,
        eqn_iff new.pid p,
      )
  rollback_publish-note_published (some old) h p =
      let t = (note_published new s).0 in
      ground (
        arith,
        displaced_found (some old) h,
        note_published_lem.1 p,
        find_slot-remove_slot p new.pid t.published note_published-IsBounded.one_each,
        find_slot-snoc p (remove_slot new.pid t.published) old,
        find_slot_pid new.pid s.published old,
        eqn_iff new.pid p,
      )

  pub rollback_publish-IsBounded :
      (d : Option PublishedSlot)
      → (note_published new s).1 ≡ admitted d
      → IsBounded (rollback_publish new.pid d (note_published new s).0)
  unfolding rollback_publish forget_published
  rollback_publish-IsBounded none h = forget_published-IsBounded new.pid note_published-IsBounded
  rollback_publish-IsBounded (some old) h =
      let t = (note_published new s).0 in
      let w = note_published-IsBounded in
      let r = remove_slot new.pid t.published in
      let found : find_slot new.pid t.published ≢ none =
        ground (arith, note_published_lem.1 new.pid, h, eqn_iff new.pid new.pid) in
      record {
        bounded = omega (
          arith,
          w.bounded,
          length-remove_slot new.pid t.published found,
          length-append r (old ∷ []),
        );
        one_each = OneEach-snoc r old (OneEach-remove_slot new.pid t.published w.one_each) (
            ground (
              arith,
              displaced_found (some old) h,
              find_slot_pid new.pid s.published old,
              find_slot-remove_slot old.pid new.pid t.published w.one_each,
              eqn_iff new.pid old.pid,
            ));
      }
