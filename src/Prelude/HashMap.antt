-- ===== src/Prelude/HashMap.antt =====
-- Rust's `HashMap`, as an association list in iteration order. The order is not specified by the
-- language: where the program takes "the first key", the position that the iteration starts at is
-- an argument.
pub mod Keeps
use Prim.Native.Nat.{ℕ, zero, suc, ◌+◌, ◌%◌, ◌≤◌, ◌<◌}
use mathlib.Core.Path.{◌≡◌, refl}
use mathlib.Core.Logic.{◌≢◌}
use mathlib.Core.Bool.{Bool, true, false, not}
use mathlib.Core.List.{List, [], ◌∷◌}
use mathlib.Core.Option.{Option, none, some}
use native.Mathlib.Nat.{mod-lt}
use native.Mathlib.Omega.{arith}
use discord_rich_presence.Prelude.Tests.{if◌then◌else◌, is_none, map_some, unwrap_or, is_some_and}
use discord_rich_presence.Prelude.Keys.{Key}
use discord_rich_presence.Prelude.Lists.{length, get_elem?, get_elem?_lt}

abbrev pub HashMap {ℓ κ} : Type ℓ → Type κ → Type (ℓ ⊔ κ)
HashMap K V = List (K × V)

module _ {ℓ κ} {K : Type ℓ} {V : Type κ} ⦃key : Key K⦄ where
  unfoldable pub get : HashMap K V → K → Option V
  get [] k = none
  get ((j, v) ∷ m) k = if key.eqb j k then some v else get m k

  abbrev pub contains_key : HashMap K V → K → Bool
  contains_key m k = not (is_none (get m k))

  unfoldable pub insert : HashMap K V → K → V → HashMap K V
  insert [] k v = (k, v) ∷ []
  insert ((j, w) ∷ m) k v = if key.eqb j k then (k, v) ∷ m else (j, w) ∷ insert m k v

  unfoldable pub remove : HashMap K V → K → HashMap K V
  remove [] k = []
  remove ((j, v) ∷ m) k = let rest = remove m k in if key.eqb j k then rest else (j, v) ∷ rest

  unfoldable pub retain : (V → Bool) → HashMap K V → HashMap K V
  retain p [] = []
  retain p ((j, v) ∷ m) = let rest = retain p m in if p v then (j, v) ∷ rest else rest

  -- `keys().next()`, where the iteration starts at position `start`.
  unfoldable pub next_key : ℕ → HashMap K V → Option K
  next_key start m = map_some (λ e. e.0) (get_elem? m (start % length m))

  -- No key twice.
  abbrev pub Distinct : HashMap K V → Type κ
  Distinct [] = Unit
  Distinct ((j, v) ∷ m) = (get m j ≡ none) × Distinct m

  pub get-insert :
      (m : HashMap K V) (k j : K) (v : V)
      → get (insert m k v) j ≡ (if key.eqb k j then some v else get m j)
  unfolding get insert
  get-insert [] k j v = refl
  get-insert ((i, w) ∷ m) k j v =
      ground (arith, key.eqb_iff k j, key.eqb_iff i k, key.eqb_iff i j, get-insert m k j v)

  pub get-remove :
      (m : HashMap K V) (k j : K) → get (remove m k) j ≡ (if key.eqb k j then none else get m j)
  unfolding get remove
  get-remove [] k j = ground arith
  get-remove ((i, w) ∷ m) k j =
      ground (arith, key.eqb_iff k j, key.eqb_iff i k, key.eqb_iff i j, get-remove m k j)

  pub get-retain :
      (p : V → Bool) (m : HashMap K V) (j : K)
      → Distinct m
      → get (retain p m) j ≡ (if is_some_and (get m j) p then get m j else none)
  unfolding get retain
  get-retain p [] j d = refl
  get-retain p ((i, w) ∷ m) j d = ground (arith, key.eqb_iff i j, get-retain p m j d.1)

  pub length-insert-le : (m : HashMap K V) (k : K) (v : V) → length (insert m k v) ≤ length m + 1
  unfolding insert
  length-insert-le [] k v = omega arith
  length-insert-le ((i, w) ∷ m) k v = ground (arith, length-insert-le m k v)

  pub length-insert_present :
      (m : HashMap K V) (k : K) (v : V) → get m k ≢ none → length (insert m k v) ≡ length m
  unfolding insert get
  length-insert_present [] k v h = absurd (h refl)
  length-insert_present ((i, w) ∷ m) k v h = ground (arith, length-insert_present m k v)

  pub length-remove-le : (m : HashMap K V) (k : K) → length (remove m k) ≤ length m
  unfolding remove
  length-remove-le [] k = omega arith
  length-remove-le ((i, w) ∷ m) k = ground (arith, length-remove-le m k)

  pub length-remove-lt : (m : HashMap K V) (k : K) → get m k ≢ none → length (remove m k) < length m
  unfolding remove get
  length-remove-lt [] k h = absurd (h refl)
  length-remove-lt ((i, w) ∷ m) k h = ground (arith, length-remove-le m k, length-remove-lt m k)

  pub length-retain-le : (p : V → Bool) (m : HashMap K V) → length (retain p m) ≤ length m
  unfolding retain
  length-retain-le p [] = omega arith
  length-retain-le p ((i, w) ∷ m) = ground (arith, length-retain-le p m)

  get_elem?-get : (m : HashMap K V) (i : ℕ) {e : K × V} → get_elem? m i ≡ some e → get m e.0 ≢ none
  unfolding get
  get_elem?-get [] i h = cc
  get_elem?-get ((j, w) ∷ m) zero {e} h = ground (arith, key.eqb_iff j e.0)
  get_elem?-get ((j, w) ∷ m) (suc i) {e} h = ground (arith, key.eqb_iff j e.0, get_elem?-get m i h)

  -- A map that is not empty has a first key, and the key is in the map.
  pub get-next_key :
      (start : ℕ) (m : HashMap K V)
      → 0 < length m
      → (k : K) × (next_key start m ≡ some k) × (get m k ≢ none)
  unfolding next_key
  get-next_key start m h =
      let (e, found) = get_elem?_lt m (start % length m) (mod-lt start h) in
      (e.0, rw found, get_elem?-get m (start % length m) found)
