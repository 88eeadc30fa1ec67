-- ===== src/Bridge/Table/Bound.antt =====
-- The tables stay bounded, and what is lost when they are full.
use discord_rich_presence.Prelude.{
  ℕ, zero, suc, ◌≤◌, ◌<◌, ◌≡◌, ◌⊎◌, inl, inr, refl, Bool, true, none, some, ltb, Key, length,
  if◌then◌else◌, arith, Bool-cases, ltb→lt, is_some_and, sym, ap,
}
use mathlib.Core.Path.{subst}
use discord_rich_presence.Prelude.HashMap.{
  HashMap, Distinct, get, insert, remove, retain, get-next_key, get-insert, get-remove, get-retain,
  length-insert-le, length-remove-lt,
}
use discord_rich_presence.Prelude.HashMap.Keeps.{insert-Distinct, remove-Distinct, retain-Distinct}
use discord_rich_presence.Bridge.Table.{max_handoff_entries, evict, purge, track}

module _ {ℓ κ} {K : Type ℓ} {V : Type κ} ⦃key : Key K⦄ (start : ℕ → ℕ) where
  -- A round of the loop ends it, or removes an entry.
  evict_once :
      (fuel : ℕ) (m : HashMap K V)
      → ((evict start (suc fuel) m ≡ m) × (length m ≤ max_handoff_entries))
        ⊎ ((victim : K) × (evict start (suc fuel) m ≡ evict start fuel (remove m victim))
            × (length (remove m victim) < length m))
  unfolding evict
  evict_once fuel m = elim (Bool-cases (ltb max_handoff_entries (length m))) [
    | inr fits ↦ inl (ground arith, ground arith)
    | inl over ↦
        let big : max_handoff_entries < length m = ltb→lt _ _ over in
        let (victim, found, present) = get-next_key (start (length m)) m (omega arith) in
        inr (victim, ground (arith, over, found), length-remove-lt m victim present)
  ]

  -- With its length as fuel the loop ends by its test.
  length-evict-le :
      (fuel : ℕ) (m : HashMap K V)
      → length m ≤ fuel
      → length (evict start fuel m) ≤ max_handoff_entries
  unfolding evict
  length-evict-le zero m h = omega arith
  length-evict-le (suc fuel) m h = elim (evict_once fuel m) [
    | inl (done, fits) ↦ omega (arith, ap length done)
    | inr (victim, more, fewer) ↦ rw more (length-evict-le fuel (remove m victim) (omega arith))
  ]

  -- A table within the bound is left alone.
  evict_small :
      (fuel : ℕ) (m : HashMap K V) → length m ≤ max_handoff_entries → evict start fuel m ≡ m
  unfolding evict
  evict_small zero m h = refl
  evict_small (suc fuel) m h = ground arith

  -- Eviction only removes.
  evict-get :
      (fuel : ℕ) (m : HashMap K V) (j : K)
      → (get (evict start fuel m) j ≡ none) ⊎ (get (evict start fuel m) j ≡ get m j)
  unfolding evict
  evict-get zero m j = inr refl
  evict-get (suc fuel) m j = elim (evict_once fuel m) [
    | inl (done, fits) ↦ inr (ap (λ t. get t j) done)
    | inr (victim, more, fewer) ↦
        ground (arith, more, evict-get fuel (remove m victim) j, get-remove m victim j)
  ]

  evict-Distinct : (fuel : ℕ) (m : HashMap K V) → Distinct m → Distinct (evict start fuel m)
  unfolding evict
  evict-Distinct zero m d = d
  evict-Distinct (suc fuel) m d = elim (evict_once fuel m) [
    | inl (done, fits) ↦ subst Distinct (sym done) d
    | inr (victim, more, fewer) ↦
        subst Distinct (sym more)
          (evict-Distinct fuel (remove m victim) (remove-Distinct m victim d))
  ]

  module _ (alive : V → Bool) (m : HashMap K V) (k : K) (v : V) where
    -- A table never holds more than 64 entries after an insertion, whatever it held before.
    pub length-track-le : length (track start alive m k v) ≤ max_handoff_entries
    unfolding track
    length-track-le =
        let grown = insert (purge alive m) k v in length-evict-le (length grown) grown (omega arith)

    pub track-Distinct : Distinct m → Distinct (track start alive m k v)
    unfolding track
    track-Distinct d =
        let grown = insert (purge alive m) k v in
        evict-Distinct (length grown) grown
          (insert-Distinct (purge alive m) k v (ground (arith, retain-Distinct alive m d)))

    -- An entry of the table is the new one or an old one.
    pub track-get :
        (j : K)
        → Distinct m
        → (get (track start alive m k v) j ≡ none)
          ⊎ (get (track start alive m k v) j ≡ (if key.eqb k j then some v else get m j))
    unfolding track
    track-get j d =
        let grown = insert (purge alive m) k v in
        ground (
          arith,
          evict-get (length grown) grown j,
          get-insert (purge alive m) k j v,
          get-retain alive m j d,
        )

    -- If fewer than 64 entries are live, insertion loses no live entry.
    pub track_live :
        (j : K)
        → Distinct m
        → length (retain alive m) < max_handoff_entries
        → (key.eqb k j ≡ true) ⊎ (is_some_and (get m j) alive ≡ true)
        → get (track start alive m k v) j ≡ (if key.eqb k j then some v else get m j)
    unfolding track
    track_live j d room live =
        let grown = insert (purge alive m) k v in
        let fits : length (purge alive m) < max_handoff_entries = ground arith in
        rw (evict_small (length grown) grown (omega (arith, length-insert-le (purge alive m) k v)))
          (ground (arith, get-insert (purge alive m) k j v, get-retain alive m j d))
