-- ===== src/Bridge/Table.antt =====
-- crates/rsrpc-bridge/src/handoff.rs: the bound that the handoff tables and the table of generic
-- publications share. A full table drops its dead owners, then arbitrary entries.
pub mod Bound
use discord_rich_presence.Prelude.{
  ℕ, zero, suc, Bool, true, false, none, some, ltb, leb, Key, length, if◌then◌else◌,
}
use discord_rich_presence.Prelude.HashMap.{HashMap, insert, remove, retain, next_key}

abbrev pub max_handoff_entries : ℕ
max_handoff_entries = 64

-- A pid is looked up by `probe`, `/proc/<pid>` on Linux; pid 0 is never alive.
unfoldable pub is_process_alive : (ℕ → Bool) → ℕ → Bool
is_process_alive probe zero = false
is_process_alive probe (suc pid) = probe (suc pid)

module _ {ℓ κ} {K : Type ℓ} {V : Type κ} ⦃key : Key K⦄ where
  -- `while map.len() > MAX_HANDOFF_ENTRIES { … }`, on fuel. `start n` is where the iteration of a
  -- map of `n` entries starts.
  unfoldable pub evict : (ℕ → ℕ) → ℕ → HashMap K V → HashMap K V
  evict start zero m = m
  evict start (suc fuel) m = elim (ltb max_handoff_entries (length m)) [
    | false ↦ m
    | true ↦ elim (next_key (start (length m)) m) [
      | none ↦ m
      | some victim ↦ evict start fuel (remove m victim)
    ]
  ]

  -- `if map.len() >= MAX_HANDOFF_ENTRIES { map.retain(…) }`
  unfoldable pub purge : (V → Bool) → HashMap K V → HashMap K V
  purge alive m = if leb max_handoff_entries (length m) then retain alive m else m

  -- Purge, insert, evict. An entry is removed in each round, so its length is fuel enough.
  unfoldable pub track : (ℕ → ℕ) → (V → Bool) → HashMap K V → K → V → HashMap K V
  unfolding evict purge
  track start alive m k v =
      let grown = insert (purge alive m) k v in evict start (length grown) grown
