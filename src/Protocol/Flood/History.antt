-- ===== src/Protocol/Flood/History.antt =====
-- What the flood guard drops, told from what has been offered to it and not from its table.
use discord_rich_presence.Prelude.{
  Bytes, ℕ, suc, ◌-◌, ◌≤◌, ◌<◌, ◌≡◌, ◌≢◌, ◌⊎◌, ◌↔◌, ◌∙◌, sym, ap, refl, inl, inr, Bool, true, false,
  Option, none, some, List, [], ◌∷◌, arith, length, nat_key, string_key, option_key, list_key,
  pair_key, pair_eq_iff, ◌==◌, if◌then◌else◌, Option-cases, Bool-cases,
}
use discord_rich_presence.Prelude.HashMap.{
  get, get-insert, get-remove, length-insert-le, length-remove-le,
}
use discord_rich_presence.Protocol.Flood.{Slot, RecentActivities, new, make_room, should_drop}
use discord_rich_presence.Protocol.Flood.Guard.{WasRecorded, should_drop_iff}

-- A publish, or a clear, which has no payload; and where the map's iteration starts then.
pub record Attempt : Type 0 where
  pub slot : Slot
  pub payload : Option Bytes
  pub at : ℕ
  pub start : ℕ

module _ (window cap : ℕ) where
  -- The guard after the attempts, of which the newest stands first.
  unfoldable pub after : List Attempt → RecentActivities
  after [] = new window cap
  after (p ∷ h) = (should_drop p.start (after h) p.slot p.payload p.at).0

  abbrev pub drops : List Attempt → Attempt → Bool
  drops h p = (should_drop p.start (after h) p.slot p.payload p.at).1

  -- The bytes passed the guard at a time for the slot, which has neither been cleared since nor had
  -- another publish pass.
  pub data Stands : List Attempt → Slot → Bytes → ℕ → Type 0 where
    passed :
        {h : List Attempt} {slot : Slot} {bytes : Bytes} {t : ℕ} {p : Attempt}
        → p.slot ≡ slot
        → p.payload ≡ some bytes
        → p.at ≡ t
        → drops h p ≡ false
        → Stands (p ∷ h) slot bytes t
    later :
        {h : List Attempt} {slot : Slot} {bytes : Bytes} {t : ℕ} {p : Attempt}
        → (p.slot ≢ slot) ⊎ (drops h p ≡ true)
        → Stands h slot bytes t
        → Stands (p ∷ h) slot bytes t

  make_room_free :
      (start : ℕ) (r : RecentActivities) (slot : Slot) (now : ℕ)
      → length r.entries < r.cap
      → make_room start r slot now ≡ r.entries
  unfolding make_room
  make_room_free start r slot now h = ground arith

  step_shape :
      (start : ℕ) (r : RecentActivities) (slot : Slot) (payload : Option Bytes) (now : ℕ)
      → length r.entries < r.cap
      → let t = (should_drop start r slot payload now).0 in
        (t.window ≡ r.window) × (t.cap ≡ r.cap) × (length t.entries ≤ suc (length r.entries))
  unfolding should_drop
  step_shape start r slot none now room =
      (refl, refl, omega (arith, length-remove-le r.entries slot))
  step_shape start r slot (some bytes) now room = (
    ground arith,
    ground arith,
    ground
        (arith, make_room_free start r slot now room, length-insert-le r.entries slot (bytes, now)),
  )

  after_shape :
      (h : List Attempt)
      → length h ≤ cap
      → ((after h).window ≡ window) × ((after h).cap ≡ cap) × (length (after h).entries ≤ length h)
  unfolding after
  after_shape [] few = (refl, refl, omega arith)
  after_shape (p ∷ h) few =
      let (same_window, same_cap, small) = after_shape h (omega (arith, few)) in
      let (w, c, l) =
        step_shape p.start (after h) p.slot p.payload p.at (omega (arith, small, same_cap, few)) in
      (w ∙ same_window, c ∙ same_cap, omega (arith, l, small))

  room_after : (h : List Attempt) → length h < cap → length (after h).entries < (after h).cap
  room_after h few =
      let (same_window, same_cap, small) = after_shape h (omega (arith, few)) in
      omega (arith, same_cap, small, few)

  -- What a step records for the slot of the attempt, and for another slot.
  step_clear :
      (r : RecentActivities) (p : Attempt) (slot : Slot)
      → p.payload ≡ none
      → get (should_drop p.start r p.slot p.payload p.at).0.entries slot
        ≡ (if p.slot == slot then none else get r.entries slot)
  unfolding should_drop
  step_clear r p slot cleared = rw (cleared, should_drop) (get-remove r.entries p.slot slot)

  step_dropped :
      (r : RecentActivities) (p : Attempt) (bytes : Bytes)
      → p.payload ≡ some bytes
      → (should_drop p.start r p.slot p.payload p.at).1 ≡ true
      → (should_drop p.start r p.slot p.payload p.at).0 ≡ r
  unfolding should_drop
  step_dropped r p bytes offered dropped = ground (arith, offered)

  step_passed :
      (r : RecentActivities) (p : Attempt) (bytes : Bytes) (slot : Slot)
      → length r.entries < r.cap
      → p.payload ≡ some bytes
      → (should_drop p.start r p.slot p.payload p.at).1 ≡ false
      → get (should_drop p.start r p.slot p.payload p.at).0.entries slot
        ≡ (if p.slot == slot then some (bytes, p.at) else get r.entries slot)
  unfolding should_drop
  step_passed r p bytes slot room offered kept = ground (
    arith,
    offered,
    make_room_free p.start r p.slot p.at room,
    get-insert r.entries p.slot slot (bytes, p.at),
  )

  clear_kept : (h : List Attempt) (p : Attempt) → p.payload ≡ none → drops h p ≡ false
  unfolding should_drop
  clear_kept h p cleared = rw (cleared, should_drop) refl

  -- An attempt changes nothing for another slot.
  step_apart :
      (h : List Attempt) (p : Attempt) (slot : Slot)
      → length h < cap
      → p.slot ≢ slot
      → get (after (p ∷ h)).entries slot ≡ get (after h).entries slot
  unfolding after
  step_apart h p slot few apart = elim (Option-cases p.payload) [
    | inl cleared ↦
        step_clear (after h) p slot cleared ∙ ground (arith, pair_eq_iff p.slot slot, apart)
    | inr (b, offered) ↦ elim (Bool-cases (drops h p)) [
      | inl dropped ↦
          ap (λ (r : RecentActivities). get r.entries slot)
            (step_dropped (after h) p b offered dropped)
      | inr kept ↦
          step_passed (after h) p b slot (room_after h few) offered kept
          ∙ ground (arith, pair_eq_iff p.slot slot, apart)
    ]
  ]

  -- What is dropped changes nothing.
  drops_same : (h : List Attempt) (p : Attempt) → drops h p ≡ true → after (p ∷ h) ≡ after h
  unfolding after
  drops_same h p dropped = elim (Option-cases p.payload) [
    | inl cleared ↦ absurd (ground (arith, clear_kept h p cleared, dropped))
    | inr (b, offered) ↦ step_dropped (after h) p b offered dropped
  ]

  -- The table has what stands.
  Stands-get :
      (h : List Attempt) (slot : Slot) (bytes : Bytes) (t : ℕ)
      → length h ≤ cap
      → Stands h slot bytes t
      → get (after h).entries slot ≡ some (bytes, t)
  unfolding after
  Stands-get [] slot bytes t few stands = elim stands [ ]
  Stands-get (p ∷ h) slot bytes t few (passed same offered now kept) =
      step_passed (after h) p bytes slot (room_after h (omega (arith, few))) offered kept
      ∙ ground (arith, pair_eq_iff p.slot slot, same, now)
  Stands-get (p ∷ h) slot bytes t few (later (inl apart) stands) =
      step_apart h p slot (omega (arith, few)) apart
      ∙ Stands-get h slot bytes t (omega (arith, few)) stands
  Stands-get (p ∷ h) slot bytes t few (later (inr dropped) stands) =
      ap (λ (r : RecentActivities). get r.entries slot) (drops_same h p dropped)
      ∙ Stands-get h slot bytes t (omega (arith, few)) stands

  -- What the table has stands.
  get-Stands :
      (h : List Attempt) (slot : Slot) (bytes : Bytes) (t : ℕ)
      → length h ≤ cap
      → get (after h).entries slot ≡ some (bytes, t)
      → Stands h slot bytes t
  unfolding after get
  get-Stands [] slot bytes t few found = absurd (cc)
  get-Stands (p ∷ h) slot bytes t few found =
      let fewer : length h < cap = omega (arith, few) in
      let before : get (after h).entries slot ≡ some (bytes, t) → Stands h slot bytes t =
        get-Stands h slot bytes t (omega (arith, few)) in
      elim (Bool-cases (p.slot == slot)) [
        | inr other ↦
            let apart : p.slot ≢ slot = λ e. ground (arith, pair_eq_iff p.slot slot, e, other) in
            later (inl apart) (before (sym (step_apart h p slot fewer apart) ∙ found))
        | inl same ↦ elim (Bool-cases (drops h p)) [
          | inl dropped ↦ later (inr dropped) (
              before (
                sym (ap (λ (r : RecentActivities). get r.entries slot) (drops_same h p dropped))
                ∙ found))
          | inr kept ↦ elim (Option-cases p.payload) [
            | inl cleared ↦
                absurd (ground (arith, step_clear (after h) p slot cleared, same, found))
            | inr (b, offered) ↦
                let recorded = step_passed (after h) p b slot (room_after h fewer) offered kept in
                let now : Option (Bytes × ℕ) = some (b, p.at) in
                let e : now ≡ some (bytes, t) = ground (arith, recorded, same, found) in
                passed (ground (arith, pair_eq_iff p.slot slot, same)) (offered ∙ ground (arith, e))
                  (ground (arith, e)) kept
          ]
        ]
      ]

  -- Where no more has been offered to a new guard, over all slots, than its cap: a publish is dropped
  -- exactly when the same bytes passed for its slot less than the window ago and the slot has neither
  -- been cleared since nor had another publish pass.
  pub drops_iff :
      (h : List Attempt) (p : Attempt)
      → length h ≤ cap
      → (drops h p ≡ true) ↔ (
          (bytes : Bytes) × (t : ℕ) × (p.payload ≡ some bytes)
          × Stands h p.slot bytes t
          × (p.at - t < window))
  drops_iff h p few = elim (Option-cases p.payload) [
    | inl cleared ↦ (
      λ dropped. absurd (ground (arith, clear_kept h p cleared, dropped)),
      λ (bytes, t, offered, stands, recent). absurd (cc),
    )
    | inr (b, offered) ↦
        let (same_window, same_cap, small) = after_shape h few in
        let guard = should_drop_iff p.start (after h) p.slot b p.at in
        (
          λ dropped.
              let r : WasRecorded (after h) p.slot b p.at =
                guard.0 (ground (arith, offered, dropped)) in
              (
                b,
                r.at,
                offered,
                get-Stands h p.slot b r.at few r.found,
                omega (arith, r.recent, same_window),
              ),
          λ (bytes, t, given, stands, recent).
              let same : bytes ≡ b = ground (arith, given, offered) in
              let found = Stands-get h p.slot bytes t few stands in
              ground (
                arith,
                offered,
                guard.1 (record {
                  at = t;
                  found = found ∙ ap (λ (x : Bytes). some (x, t)) same;
                  recent = omega (arith, recent, same_window);
                }),
              ),
        )
  ]
