-- ===== src/Detect/Paths/Tails.antt =====
-- A path that ends with a name, and how a name reads as a part of a path.
use mathlib.Core.List.{append-nil}
use discord_rich_presence.Prelude.{
  lower, Bytes, ◌-◌, ◌≤◌, ◌≡◌, refl, sym, ap, ◌∙◌, true, ◌||◌, [], ◌∷◌, ◌++◌, map, length,
  length-append, take-append-drop, length-drop, take, drop, eqn_iff, arith,
}
use discord_rich_presence.Detect.Paths.{
  folded_name, same_folded, starts_with_separator, ends_at_component, names_tail,
}

-- The name reads as this part of the path.
abbrev pub Reads : Bytes → Bytes → Type 0
Reads part name = map lower part ≡ map folded_name name

-- What stands before the name ends a component, or the name brings its separator.
abbrev pub Fronts : Bytes → Bytes → Type 0
Fronts front name = (ends_at_component front || starts_with_separator name) ≡ true

-- The path is `front`, then the name, then `rest`.
pub record NamesPart (path name rest : Bytes) : Type 0 where
  pub front : Bytes
  pub part : Bytes
  pub splits : path ≡ front ++ (part ++ rest)
  pub reads : Reads part name
  pub fronts : Fronts front name

pub same_folded-Reads :
    (part name : Bytes) → length part ≡ length name → same_folded part name ≡ true → Reads part name
unfolding same_folded
same_folded-Reads [] [] l h = refl
same_folded-Reads [] (n ∷ name) l h = absurd (omega arith)
same_folded-Reads (p ∷ part) [] l h = absurd (omega arith)
same_folded-Reads (p ∷ part) (n ∷ name) l h =
    ground (arith, eqn_iff (lower p) (folded_name n), same_folded-Reads part name)

pub Reads-same_folded :
    (part name : Bytes)
    → Reads part name
    → (length part ≡ length name) × (same_folded part name ≡ true)
unfolding same_folded
Reads-same_folded [] [] h = (refl, refl)
Reads-same_folded [] (n ∷ name) h = absurd (cc)
Reads-same_folded (p ∷ part) [] h = absurd (cc)
Reads-same_folded (p ∷ part) (n ∷ name) h =
    ground (arith, eqn_iff (lower p) (folded_name n), Reads-same_folded part name)

pub take-append : (xs ys : Bytes) → take (length xs) (xs ++ ys) ≡ xs
take-append [] ys = refl
take-append (x ∷ xs) ys = ap (λ (l : Bytes). x ∷ l) (take-append xs ys)

pub drop-append : (xs ys : Bytes) → drop (length xs) (xs ++ ys) ≡ ys
drop-append [] ys = refl
drop-append (x ∷ xs) ys = drop-append xs ys

pub names_tail-NamesPart :
    (path name : Bytes) → names_tail path name ≡ true → NamesPart path name []
unfolding names_tail
names_tail-NamesPart path name h =
    let at = length path - length name in
    let fits : length name ≤ length path = ground arith in
    record {
      front = take at path;
      part = drop at path;
      splits = sym (
          ap (λ (l : Bytes). take at path ++ l) (append-nil (drop at path))
          ∙ take-append-drop at path);
      reads =
          same_folded-Reads (drop at path) name (omega (arith, length-drop at path)) (ground arith);
      fronts = ground arith;
    }

pub NamesPart-names_tail :
    (path name : Bytes) → NamesPart path name [] → names_tail path name ≡ true
unfolding names_tail
NamesPart-names_tail path name n =
    let whole : path ≡ n.front ++ n.part =
      n.splits ∙ ap (λ (l : Bytes). n.front ++ l) (append-nil n.part) in
    let r = Reads-same_folded n.part name n.reads in
    let at : length path - length name ≡ length n.front =
      omega (arith, ap length whole, length-append n.front n.part, r.0) in
    let fits : length name ≤ length path =
      omega (arith, ap length whole, length-append n.front n.part, r.0) in
    let before : take (length n.front) path ≡ n.front =
      ap (take (length n.front)) whole ∙ take-append n.front n.part in
    let after : drop (length n.front) path ≡ n.part =
      ap (drop (length n.front)) whole ∙ drop-append n.front n.part in
    rw (at, before, after, r.1, n.fronts) (ground arith)
