-- ===== src/Ws/Pump/Counted.antt =====
-- The clients of the transport: bounded slots, and a census that counts them.
use mathlib.Core.Path.{subst}
use discord_rich_presence.Prelude.{
  ℕ, suc, ◌+◌, ◌-◌, ◌%◌, ◌≡◌, ◌≢◌, refl, sym, ap, ◌∙◌, inl, inr, false, Option, none, some, [], ◌∷◌,
  length, arith, nat_key, eqn, eqn_iff, Bool-cases,
}
use discord_rich_presence.Prelude.HashMap.{
  HashMap, get, insert, remove, Distinct, get-insert, get-remove, length-insert_present,
}
use discord_rich_presence.Prelude.HashMap.Keeps.{insert-Distinct, remove-Distinct}
use discord_rich_presence.Types.Ids.{u64_mod}
use discord_rich_presence.Ws.Slots.{ClientSlot}
use discord_rich_presence.Ws.Slots.Tracked.{IsBounded}
use discord_rich_presence.Ws.Handlers.{ClientId, Transport}
use discord_rich_presence.Ws.Pump.{Details, new_slot, update_slot, update_client}

-- The clients: each slot is bounded, no id is there twice, and the census counts them.
pub record AreCounted (clients : HashMap ClientId ClientSlot) (total : ℕ) : Type 0 where
  pub slots : (id : ClientId) (slot : ClientSlot) → get clients id ≡ some slot → IsBounded slot
  pub unique : Distinct clients
  pub census : total ≡ length clients % u64_mod

length-insert_new :
    (m : HashMap ClientId ClientSlot) (k : ClientId) (v : ClientSlot)
    → get m k ≡ none
    → length (insert m k v) ≡ suc (length m)
unfolding insert get
length-insert_new [] k v h = refl
length-insert_new ((i, w) ∷ m) k v h = ground (arith, length-insert_new m k v)

remove_absent : (m : HashMap ClientId ClientSlot) (k : ClientId) → get m k ≡ none → remove m k ≡ m
unfolding remove get
remove_absent [] k h = refl
remove_absent ((i, w) ∷ m) k h = ground (arith, remove_absent m k)

length-remove :
    (m : HashMap ClientId ClientSlot) (k : ClientId)
    → Distinct m
    → get m k ≢ none
    → suc (length (remove m k)) ≡ length m
unfolding remove get
length-remove [] k d h = absurd (h refl)
length-remove ((i, w) ∷ m) k d h =
    ground (arith, eqn_iff i k, d.0, remove_absent m i, remove_absent m k, length-remove m k d.1)

pub empty_IsBounded : (d : Details) → IsBounded (new_slot d)
empty_IsBounded d = record { bounded = omega arith; one_each = tt }

module _ {m : HashMap ClientId ClientSlot} {total : ℕ} (v : AreCounted m total)
    (id : ClientId) where
  -- A slot that is put under an id.
  pub insert_slots :
      (slot : ClientSlot)
      → IsBounded slot
      → (j : ClientId) (x : ClientSlot) → get (insert m id slot) j ≡ some x
      → IsBounded x
  insert_slots slot b j x h = elim (Bool-cases (eqn id j)) [
    | inl same ↦
        let e : some slot ≡ some x = ground (arith, get-insert m id j slot, same, h) in
        let q : slot ≡ x = ground (arith, e) in subst IsBounded q b
    | inr apart ↦ v.slots j x (ground (arith, get-insert m id j slot, apart, h))
  ]

  pub insert_new-AreCounted :
      (slot : ClientSlot)
      → IsBounded slot
      → get m id ≡ none
      → AreCounted (insert m id slot) ((total + 1) % u64_mod)
  insert_new-AreCounted slot b new = record {
    slots = insert_slots slot b;
    unique = insert-Distinct m id slot v.unique;
    census = omega (arith, v.census, length-insert_new m id slot new);
  }

  pub remove-AreCounted :
      get m id ≢ none → AreCounted (remove m id) ((total + u64_mod - 1) % u64_mod)
  remove-AreCounted there = record {
    slots = λ j x h. v.slots j x (ground (arith, get-remove m id j, h));
    unique = remove-Distinct m id v.unique;
    census = omega (arith, v.census, length-remove m id v.unique there);
  }

-- A change of one client keeps the others.
pub record Changes (id : ClientId) (s t : Transport) : Type 0 where
  pub others : (j : ClientId) → eqn id j ≡ false → get t.clients j ≡ get s.clients j
  pub unique : Distinct s.clients → Distinct t.clients
  pub size : length t.clients ≡ length s.clients
  pub total : t.total ≡ s.total

update_slot-Changes :
    (id : ClientId) (o : Option ClientSlot) (change : ClientSlot → ClientSlot) (s : Transport)
    → get s.clients id ≡ o
    → Changes id s (update_slot id o change s)
unfolding update_slot
update_slot-Changes id none change s e = record {
  others = λ j h. refl;
  unique = λ d. d;
  size = refl;
  total = refl;
}
update_slot-Changes id (some slot) change s e = record {
  others = λ j h. ground (arith, get-insert s.clients id j (change slot), h);
  unique = insert-Distinct s.clients id (change slot);
  size = length-insert_present s.clients id (change slot) (cc);
  total = refl;
}

pub update_client-Changes :
    (id : ClientId) (change : ClientSlot → ClientSlot) (s : Transport)
    → Changes id s (update_client id change s)
unfolding update_client
update_client-Changes id change s = update_slot-Changes id (get s.clients id) change s refl

pub Changes-trans :
    (id : ClientId) (s t u : Transport) → Changes id s t → Changes id t u → Changes id s u
Changes-trans id s t u a b = record {
  others = λ j h. b.others j h ∙ a.others j h;
  unique = λ d. b.unique (a.unique d);
  size = b.size ∙ a.size;
  total = b.total ∙ a.total;
}

pub Changes-AreCounted :
    (id : ClientId) (s t : Transport) (slot : ClientSlot)
    → Changes id s t
    → get t.clients id ≡ some slot
    → IsBounded slot
    → AreCounted s.clients s.total
    → AreCounted t.clients t.total
Changes-AreCounted id s t slot c found b v = record {
  slots = λ j x h. elim (Bool-cases (eqn id j)) [
    | inl same ↦
        let q : slot ≡ x = ground (arith, eqn_iff id j, same, h, found) in subst IsBounded q b
    | inr apart ↦ v.slots j x (ground (arith, c.others j apart, h))
  ];
  unique = c.unique v.unique;
  census = omega (arith, v.census, c.total, ap (λ (n : ℕ). n % u64_mod) c.size);
}

pub same_Changes :
    (id : ClientId) (s t : Transport) → t.clients ≡ s.clients → t.total ≡ s.total → Changes id s t
same_Changes id s t c n = record {
  others = λ j h. ap (λ (m : HashMap ClientId ClientSlot). get m j) c;
  unique = λ d. subst Distinct (sym c) d;
  size = ap length c;
  total = n;
}
