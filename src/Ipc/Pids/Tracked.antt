-- ===== src/Ipc/Pids/Tracked.antt =====
-- The history is bounded, holds no pid twice, and forgets nothing that was admitted.
use discord_rich_presence.Prelude.{
  eqn_iff, ℕ, suc, ◌≤◌, ◌≡◌, refl, Bool, true, false, ◌||◌, ◌&&◌, not, List, [], ◌∷◌, ◌++◌, length,
  leb, ltb, ◌==◌, nat_key, contains, Bool-cases, inl, inr, if◌then◌else◌, arith, length-append,
}
use discord_rich_presence.Ipc.Pids.{track_pid, max_tracked_pids, remove_first, admit_pid}

abbrev pub AreDistinct : List ℕ → Type 0
AreDistinct [] = Unit
AreDistinct (p ∷ ps) = (contains ps p ≡ false) × AreDistinct ps

pub contains-append :
    (ps qs : List ℕ) (p : ℕ) → contains (ps ++ qs) p ≡ (contains ps p || contains qs p)
contains-append [] qs p = refl
contains-append (x ∷ ps) qs p = ground (arith, contains-append ps qs p)

pub contains-remove_first :
    (ps : List ℕ) (pid p : ℕ)
    → AreDistinct ps
    → contains (remove_first pid ps) p ≡ (contains ps p && not (p == pid))
unfolding remove_first
contains-remove_first [] pid p d = refl
contains-remove_first (x ∷ ps) pid p d = ground (arith, d.0, contains-remove_first ps pid p d.1)

AreDistinct-snoc :
    (ps : List ℕ) (p : ℕ) → AreDistinct ps → contains ps p ≡ false → AreDistinct (ps ++ p ∷ [])
AreDistinct-snoc [] p d h = (refl, tt)
AreDistinct-snoc (x ∷ ps) p d h =
    (ground (arith, d.0, contains-append ps (p ∷ []) x), AreDistinct-snoc ps p d.1 (ground arith))

AreDistinct-remove_first :
    (ps : List ℕ) (pid : ℕ) → AreDistinct ps → AreDistinct (remove_first pid ps)
unfolding remove_first
AreDistinct-remove_first [] pid d = tt
AreDistinct-remove_first (x ∷ ps) pid d =
    ground
      (arith, d.0, d.1, contains-remove_first ps pid x d.1, AreDistinct-remove_first ps pid d.1)

length-remove_first :
    (ps : List ℕ) (pid : ℕ)
    → contains ps pid ≡ true
    → suc (length (remove_first pid ps)) ≡ length ps
unfolding remove_first
length-remove_first [] pid h = cc
length-remove_first (x ∷ ps) pid h = ground (arith, length-remove_first ps pid)

-- What the connection keeps of its published pids.
pub record IsTracked (history : List ℕ) : Type 0 where
  pub bounded : length history ≤ max_tracked_pids
  pub distinct : AreDistinct history

new_pid :
    (history : List ℕ) (pid : ℕ)
    → IsTracked history
    → contains history pid ≡ false
    → let r : List ℕ × Bool =
        if leb max_tracked_pids (length history)
        then (history, false)
        else (history ++ pid ∷ [], true) in
      IsTracked r.0
      × ((p : ℕ) → contains r.0 p ≡ (contains history p || r.1 && pid == p))
      × (r.1 ≡ ltb (length history) max_tracked_pids)
new_pid history pid v new = elim (Bool-cases (leb max_tracked_pids (length history))) [
  | inl full ↦ rw full (v, λ p. ground arith, ground arith)
  | inr room ↦ rw room (
      (
        record {
          bounded = ground (arith, length-append history (pid ∷ []));
          distinct = AreDistinct-snoc history pid v.distinct new;
        },
        λ p. ground (arith, contains-append history (pid ∷ []) p),
        ground arith,
      ))
]

-- A pid is admitted exactly when it is tracked already or fewer than sixteen are. Afterwards the
-- same pids are tracked, and the new one if it is admitted; the history keeps its bound of sixteen
-- and holds no pid twice.
pub admit_pid_lem :
    (history : List ℕ) (pid : ℕ)
    → IsTracked history
    → IsTracked (admit_pid history pid).0
      × ((p : ℕ)
          → contains (admit_pid history pid).0 p
            ≡ (contains history p || (admit_pid history pid).1 && pid == p))
      × ((admit_pid history pid).1
          ≡ (contains history pid || ltb (length history) max_tracked_pids))
unfolding admit_pid
admit_pid_lem history pid v = elim (Bool-cases (contains history pid)) [
  | inl old ↦ rw old (
      (
        record {
          bounded = omega (
            arith,
            v.bounded,
            length-remove_first history pid old,
            length-append (remove_first pid history) (pid ∷ []),
          );
          distinct =
              AreDistinct-snoc (remove_first pid history) pid
                (AreDistinct-remove_first history pid v.distinct)
                (ground (arith, contains-remove_first history pid pid v.distinct));
        },
        λ p. ground (
          arith,
          contains-append (remove_first pid history) (pid ∷ []) p,
          contains-remove_first history pid p v.distinct,
        ),
        ground arith,
      ))
  | inr new ↦ rw new (new_pid history pid v new)
]

-- Tracking a pid that was just admitted keeps the same pids, in the same bounds.
pub track_pid-admit_pid :
    (history : List ℕ) (pid : ℕ)
    → IsTracked history
    → (admit_pid history pid).1 ≡ true
    → IsTracked (track_pid (admit_pid history pid).0 pid)
      × ((p : ℕ)
          → contains (track_pid (admit_pid history pid).0 pid) p ≡ (contains history p || pid == p))
unfolding track_pid
track_pid-admit_pid history pid v admitted =
    let first = admit_pid_lem history pid v in
    let h = (admit_pid history pid).0 in
    let second = admit_pid_lem h pid first.0 in
    let known : contains h pid ≡ true = ground (arith, first.1 pid, admitted, eqn_iff pid pid) in
    let again : (admit_pid h pid).1 ≡ true = ground (arith, second.2, known) in
    rw again (second.0, λ p. ground (arith, second.1 p, first.1 p, again, admitted))
