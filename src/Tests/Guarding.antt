-- ===== src/Tests/Guarding.antt =====
-- The flood guard, at a guard of two slots.
use discord_rich_presence.Prelude.{
  ◌≡◌, ◌-◌, ◌<◌, ◌↔◌, Bytes, arith, ℕ, refl, true, false, none, some, [], ◌∷◌, pair_eq, option_eq,
  list_eq, nat_key, string_key,
}
use discord_rich_presence.Prelude.HashMap.{get}
use discord_rich_presence.Protocol.Flood.{RecentActivities, should_drop}
use discord_rich_presence.Protocol.Flood.History.{Attempt, Stands, drops, drops_iff}

abbrev full : RecentActivities
full = record {
  window = 5000;
  cap = 2;
  entries = ((some "7", 42), (1 ∷ [], 100)) ∷ ((none, 43), (2 ∷ [], 200)) ∷ [];
}

changed : (should_drop 0 full (some "7", 42) (some (5 ∷ [])) 900).1 ≡ false
unfolding should_drop get pair_eq option_eq list_eq
changed = refl

-- The connection publishes, and publishes the same again.
abbrev offered : Attempt
offered = record { slot = (some "7", 42); payload = some (1 ∷ []); at = 100; start = 0 }

abbrev repeated : Attempt
repeated = record { slot = (some "7", 42); payload = some (1 ∷ []); at = 900; start = 0 }

drops_iff_example : (drops 5000 2 (offered ∷ []) repeated ≡ true) ↔ (
    (bytes : Bytes) × (t : ℕ) × (repeated.payload ≡ some bytes)
    × Stands 5000 2 (offered ∷ []) repeated.slot bytes t
    × (repeated.at - t < 5000))
drops_iff_example = drops_iff 5000 2 (offered ∷ []) repeated (omega arith)
