-- ===== src/Detect/Paths/Bundles.antt =====
-- The bundles that names_a_bundle finds in a path.
use discord_rich_presence.Prelude.{
  Bytes, ℕ, ◌≤◌, ◌≡◌, refl, sym, ap, ◌∙◌, inl, inr, Bool, true, false, ◌||◌, ◌&&◌, [], ◌∷◌, ◌++◌,
  length, length-append, take-append-drop, length-take, take, drop, leb, leb→le, eqn, arith,
  Bool-cases,
}
use discord_rich_presence.Detect.Paths.{
  same_folded, starts_with_separator, ends_at_component, starts_with_bundle_interior, names_window,
  any_window,
}
use discord_rich_presence.Detect.Paths.Tails.{
  Reads, same_folded-Reads, Reads-same_folded, take-append, drop-append,
}

-- Whether a front that goes on after a component's end, or not, ends a component.
abbrev ends_from : Bool → Bytes → Bool
ends_from b [] = b
ends_from b (c ∷ front) = ends_from (eqn c b'/') front

ends_at_component-ends_from : (front : Bytes) → ends_at_component front ≡ ends_from true front
unfolding ends_at_component
ends_at_component-ends_from [] = refl
ends_at_component-ends_from (c ∷ []) = refl
ends_at_component-ends_from (c ∷ d ∷ front) = ends_at_component-ends_from (d ∷ front)

-- A bundle: the name stands in the path, and its interior follows.
pub record NamesBundle (b : Bool) (path name : Bytes) : Type 0 where
  pub front : Bytes
  pub part : Bytes
  pub rest : Bytes
  pub splits : path ≡ front ++ (part ++ rest)
  pub reads : Reads part name
  pub fronts : (ends_from b front || starts_with_separator name) ≡ true
  pub interior : starts_with_bundle_interior rest ≡ true

all_four :
    (a b c d : Bool) → (a && b && c && d) ≡ true → (a ≡ true) × (b ≡ true) × (c ≡ true) × (d ≡ true)
all_four a b c d h = ground (arith, h)

or_right : (a b : Bool) → b ≡ true → (a || b) ≡ true
or_right true b h = refl
or_right false b h = h

window_here :
    (b : Bool) (path name : Bytes) → names_window b path name ≡ true → NamesBundle b path name
unfolding names_window
window_here b path name h =
    let n = length name in
    let (long_enough, same, fronted, inside) =
      all_four (leb n (length path)) (same_folded (take n path) name)
        (b || starts_with_separator name) (starts_with_bundle_interior (drop n path)) h in
    let fits : n ≤ length path = leb→le n (length path) long_enough in
    record {
      front = [];
      part = take n path;
      rest = drop n path;
      splits = sym (take-append-drop n path);
      reads = same_folded-Reads (take n path) name (length-take n path fits) same;
      fronts = fronted;
      interior = inside;
    }

window_later :
    (b : Bool) (p : ℕ) (path name : Bytes)
    → NamesBundle (eqn p b'/') path name
    → NamesBundle b (p ∷ path) name
window_later b p path name n = record {
  front = p ∷ n.front;
  part = n.part;
  rest = n.rest;
  splits = ap (λ (l : Bytes). p ∷ l) n.splits;
  reads = n.reads;
  fronts = n.fronts;
  interior = n.interior;
}

pub any_window-NamesBundle :
    (b : Bool) (path name : Bytes) → any_window b path name ≡ true → NamesBundle b path name
unfolding any_window
any_window-NamesBundle b [] name h = window_here b [] name h
any_window-NamesBundle b (p ∷ path) name h = elim (Bool-cases (names_window b (p ∷ path) name)) [
  | inl here ↦ window_here b (p ∷ path) name here
  | inr later ↦
      window_later b p path name
        (any_window-NamesBundle (eqn p b'/') path name (ground (arith, later)))
]

here_window :
    (b : Bool) (part rest name : Bytes)
    → Reads part name
    → (b || starts_with_separator name) ≡ true
    → starts_with_bundle_interior rest ≡ true
    → names_window b (part ++ rest) name ≡ true
unfolding names_window
here_window b part rest name reads fronts interior =
    let r = Reads-same_folded part name reads in
    let fits : length name ≤ length (part ++ rest) = omega (arith, length-append part rest, r.0) in
    let before : take (length name) (part ++ rest) ≡ part =
      ap (λ (k : ℕ). take k (part ++ rest)) (sym r.0) ∙ take-append part rest in
    let after : drop (length name) (part ++ rest) ≡ rest =
      ap (λ (k : ℕ). drop k (part ++ rest)) (sym r.0) ∙ drop-append part rest in
    rw (before, after, r.1, fronts, interior) (ground arith)

any_window_first :
    (b : Bool) (path name : Bytes) → names_window b path name ≡ true → any_window b path name ≡ true
unfolding any_window
any_window_first b [] name h = h
any_window_first b (p ∷ path) name h = ground (arith, h)

any_window_found :
    (b : Bool) (front part rest name : Bytes)
    → Reads part name
    → (ends_from b front || starts_with_separator name) ≡ true
    → starts_with_bundle_interior rest ≡ true
    → any_window b (front ++ (part ++ rest)) name ≡ true
unfolding any_window
any_window_found b [] part rest name reads fronts interior =
    any_window_first b (part ++ rest) name (here_window b part rest name reads fronts interior)
any_window_found b (c ∷ front) part rest name reads fronts interior =
    or_right (names_window b (c ∷ (front ++ (part ++ rest))) name)
      (any_window (eqn c b'/') (front ++ (part ++ rest)) name)
      (any_window_found (eqn c b'/') front part rest name reads fronts interior)

pub NamesBundle-any_window :
    (path name : Bytes) → NamesBundle true path name → any_window true path name ≡ true
NamesBundle-any_window path name n =
    ap (λ (l : Bytes). any_window true l name) n.splits
    ∙ any_window_found true n.front n.part n.rest name n.reads n.fronts n.interior
