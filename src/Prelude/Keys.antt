-- ===== src/Prelude/Keys.antt =====
-- Types whose equality is tested by the program (`Eq` in Rust), and the instances that the maps use.
use Prim.Native.Nat.{ℕ}
use Prim.Native.String.{String}
use mathlib.Core.Path.{◌≡◌}
use mathlib.Core.Logic.{◌↔◌}
use mathlib.Core.Bool.{Bool, true, false, ◌&&◌}
use mathlib.Core.Option.{Option, none, some}
use mathlib.Core.List.{List, [], ◌∷◌}
use native.Mathlib.Omega.{arith}
use text.Mathlib.Text.{◌==◌ as str_eq}
use text.Mathlib.TextEquality.{eq_iff}
use discord_rich_presence.Prelude.Tests.{eqn, eqn_iff}

pub record Key {ℓ} (A : Type ℓ) : Type ℓ where
  pub eqb : A → A → Bool
  pub eqb_iff : (a b : A) → (eqb a b ≡ true) ↔ (a ≡ b)

infix 50 ◌==◌
abbrev pub ◌==◌ {ℓ} : {A : Type ℓ} ⦃key : Key A⦄ → A → A → Bool
◌==◌ ⦃key⦄ = key.eqb

instance abbrev pub nat_key : Key ℕ
nat_key = record { eqb = eqn; eqb_iff = eqn_iff }

instance abbrev pub string_key : Key String
string_key = record { eqb = str_eq; eqb_iff = eq_iff }

pub string_iff : (a b : String) → (str_eq a b ≡ true) ↔ (a ≡ b)
string_iff = eq_iff

module _ {ℓ} {A : Type ℓ} ⦃key : Key A⦄ where
  unfoldable pub option_eq : Option A → Option A → Bool
  option_eq none none = true
  option_eq (some a) (some b) = key.eqb a b
  option_eq none (some b) = false
  option_eq (some a) none = false

  pub option_eq_iff : (a b : Option A) → (option_eq a b ≡ true) ↔ (a ≡ b)
  unfolding option_eq
  option_eq_iff none none = ground arith
  option_eq_iff (some a) (some b) = ground (arith, key.eqb_iff a b)
  option_eq_iff none (some b) = ground arith
  option_eq_iff (some a) none = ground arith

  unfoldable pub list_eq : List A → List A → Bool
  list_eq [] [] = true
  list_eq (a ∷ as') (b ∷ bs) = key.eqb a b && list_eq as' bs
  list_eq [] (b ∷ bs) = false
  list_eq (a ∷ as') [] = false

  pub list_eq_iff : (a b : List A) → (list_eq a b ≡ true) ↔ (a ≡ b)
  unfolding list_eq
  list_eq_iff [] [] = ground arith
  list_eq_iff (a ∷ as') (b ∷ bs) = ground (arith, key.eqb_iff a b, list_eq_iff as' bs)
  list_eq_iff [] (b ∷ bs) = ground arith
  list_eq_iff (a ∷ as') [] = ground arith

  instance abbrev pub option_key : Key (Option A)
  option_key = record { eqb = option_eq; eqb_iff = option_eq_iff }

  instance abbrev pub list_key : Key (List A)
  list_key = record { eqb = list_eq; eqb_iff = list_eq_iff }

module _ {ℓ} {A B : Type ℓ} ⦃ka : Key A⦄ ⦃kb : Key B⦄ where
  unfoldable pub pair_eq : A × B → A × B → Bool
  pair_eq p q = ka.eqb p.0 q.0 && kb.eqb p.1 q.1

  pub pair_eq_iff : (p q : A × B) → (pair_eq p q ≡ true) ↔ (p ≡ q)
  unfolding pair_eq
  pair_eq_iff (a, b) (c, d) = ground (arith, ka.eqb_iff a c, kb.eqb_iff b d)

  instance abbrev pub pair_key : Key (A × B)
  pair_key = record { eqb = pair_eq; eqb_iff = pair_eq_iff }
