-- ===== src/Prelude/HashMap/Keeps.antt =====
-- The operations keep the keys of a map distinct.
use mathlib.Core.Path.{refl}
use mathlib.Core.Bool.{Bool}
use mathlib.Core.List.{[], ◌∷◌}
use native.Mathlib.Omega.{arith}
use discord_rich_presence.Prelude.Keys.{Key}
use discord_rich_presence.Prelude.HashMap.{
  HashMap, Distinct, get, insert, remove, retain, get-insert, get-remove, get-retain,
}

module _ {ℓ κ} {K : Type ℓ} {V : Type κ} ⦃key : Key K⦄ where
  pub insert-Distinct : (m : HashMap K V) (k : K) (v : V) → Distinct m → Distinct (insert m k v)
  unfolding insert get
  insert-Distinct [] k v d = (refl, tt)
  insert-Distinct ((i, w) ∷ m) k v d =
      ground
        (arith, key.eqb_iff i k, key.eqb_iff k i, get-insert m k i v, insert-Distinct m k v d.1)

  pub remove-Distinct : (m : HashMap K V) (k : K) → Distinct m → Distinct (remove m k)
  unfolding remove
  remove-Distinct [] k d = tt
  remove-Distinct ((i, w) ∷ m) k d =
      ground (arith, key.eqb_iff i k, key.eqb_iff k i, get-remove m k i, remove-Distinct m k d.1)

  pub retain-Distinct : (p : V → Bool) (m : HashMap K V) → Distinct m → Distinct (retain p m)
  unfolding retain
  retain-Distinct p [] d = tt
  retain-Distinct p ((i, w) ∷ m) d = ground (arith, get-retain p m i d.1, retain-Distinct p m d.1)
