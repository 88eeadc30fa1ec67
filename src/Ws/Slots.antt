-- ===== src/Ws/Slots.antt =====
-- crates/rsrpc-transport-ws/src/transport.rs: what a connection has published.
pub mod Tracked
use discord_rich_presence.Prelude.{
  ℕ, Bool, true, false, Option, none, some, List, [], ◌∷◌, ◌++◌, length, leb, eqn, if◌then◌else◌,
}
use discord_rich_presence.Types.Ids.{AppId}
use discord_rich_presence.Types.Json.{Value}
use discord_rich_presence.Ws.Sink.{PublishedSlot}

abbrev pub max_tracked_slots : ℕ
max_tracked_slots = 16

-- The responder is left out: replies are addressed by the client's id.
pub record ClientSlot : Type 0 where
  pub published : List PublishedSlot
  pub query_client_id : Option AppId

pub data Admission : Type 0 where
  admitted : Option PublishedSlot → Admission
  refused_full : Admission

-- `position` of the pid: the record that is there.
unfoldable pub find_slot : ℕ → List PublishedSlot → Option PublishedSlot
find_slot pid [] = none
find_slot pid (entry ∷ rest) = if eqn entry.pid pid then some entry else find_slot pid rest

-- `remove` at that position.
unfoldable pub remove_slot : ℕ → List PublishedSlot → List PublishedSlot
remove_slot pid [] = []
remove_slot pid (entry ∷ rest) = if eqn entry.pid pid then rest else entry ∷ remove_slot pid rest

-- The new record, after the one that was there is looked up.
unfoldable pub note_new : Option PublishedSlot → PublishedSlot → ClientSlot → ClientSlot × Admission
unfolding remove_slot
note_new (some displaced) new s = (
  record s { published = remove_slot new.pid s.published ++ new ∷ [] },
  admitted (some displaced),
)
note_new none new s =
    if leb max_tracked_slots (length s.published)
    then (s, refused_full)
    else (record s { published = s.published ++ new ∷ [] }, admitted none)

unfoldable pub note_published : PublishedSlot → ClientSlot → ClientSlot × Admission
unfolding find_slot note_new
note_published new s = note_new (find_slot new.pid s.published) new s

unfoldable pub forget_published : ℕ → ClientSlot → ClientSlot
unfolding remove_slot
forget_published pid s = record s { published = remove_slot pid s.published }

unfoldable pub rollback_publish : ℕ → Option PublishedSlot → ClientSlot → ClientSlot
unfolding forget_published
rollback_publish pid none s = forget_published pid s
rollback_publish pid (some old) s =
    let s' = forget_published pid s in record s' { published = s'.published ++ old ∷ [] }
