-- ===== src/Bridge/Replay/Prune.antt =====
-- The replay cache is bounded, and pruning spares what was published last.
use mathlib.Core.Path.{subst}
use discord_rich_presence.Prelude.{
  ℕ, zero, suc, ◌≤◌, ◌<◌, ◌≡◌, ◌≢◌, ◌⊎◌, inl, inr, refl, sym, ap, none, some, [], ◌∷◌, ltb, leb,
  length, string_key, string_iff, if◌then◌else◌, arith, Bool-cases, Option-cases, ltb→lt, ◌==◌, ◌∙◌,
}
use discord_rich_presence.Prelude.HashMap.{Distinct, get, remove, get-remove, length-remove-lt}
use discord_rich_presence.Prelude.HashMap.Keeps.{remove-Distinct}
use discord_rich_presence.Types.Ids.{SocketId}
use discord_rich_presence.Protocol.Cached.{CachedActivity}
use discord_rich_presence.Bridge.Replay.{
  Entry, ReplayCache, max_cached_activities, older, oldest, prune, prune_cache,
}

-- The oldest key is in the cache, and its entry carries the sequence number that was found.
oldest_found :
    (m : ReplayCache) (v : SocketId × ℕ)
    → Distinct m
    → oldest m ≡ some v
    → (payload : CachedActivity) × (get m v.0 ≡ some (payload, v.1))
unfolding oldest get
oldest_found [] v d h = absurd (ground arith)
oldest_found ((id, (payload, seq)) ∷ m) v d h =
    let here : (if id == id then some (payload, seq) else get m id) ≡ some (payload, seq) =
      rw ((string_iff id id).1 refl) in
    elim (Option-cases (oldest m)) [
      | inl alone ↦ (payload, ground (arith, here, alone))
      | inr (f, more) ↦
          let (p, found) = oldest_found m f d.1 more in
          elim (Bool-cases (leb seq f.1)) [
            | inl le ↦ (payload, ground (arith, here, more, le))
            | inr gt ↦ (p, ground (arith, found, more, gt, string_iff id f.0))
          ]
    ]

oldest-none : (m : ReplayCache) (j : SocketId) → oldest m ≡ none → get m j ≡ none
unfolding oldest get
oldest-none [] j h = refl
oldest-none ((id, (payload, seq)) ∷ m) j h = absurd (ground arith)

oldest_least :
    (m : ReplayCache) (v : SocketId × ℕ) (j : SocketId) (e : Entry)
    → oldest m ≡ some v
    → get m j ≡ some e
    → v.1 ≤ e.1
unfolding oldest get
oldest_least [] v j e h g = absurd (ground arith)
oldest_least ((id, (payload, seq)) ∷ m) v j e h g = elim (Option-cases (oldest m)) [
  | inl alone ↦ ground (arith, alone, oldest-none m j alone)
  | inr (f, more) ↦ ground (arith, more, oldest_least m f j e more)
]

oldest-some : (m : ReplayCache) → 0 < length m → (v : SocketId × ℕ) × (oldest m ≡ some v)
unfolding oldest
oldest-some [] h = elim h [ ]
oldest-some ((id, (payload, seq)) ∷ m) h = (older (id, seq) (oldest m), refl)

-- A round of the loop ends it, or removes the oldest entry.
round :
    (fuel : ℕ) (m : ReplayCache)
    → Distinct m
    → ((prune (suc fuel) m ≡ m) × (length m ≤ max_cached_activities))
      ⊎ ((v : SocketId × ℕ) × (oldest m ≡ some v)
          × (max_cached_activities < length m)
          × (prune (suc fuel) m ≡ prune fuel (remove m v.0))
          × (length (remove m v.0) < length m))
unfolding prune
round fuel m d = elim (Bool-cases (ltb max_cached_activities (length m))) [
  | inr fits ↦ inl (ground arith, ground arith)
  | inl over ↦
      let big : max_cached_activities < length m = ltb→lt _ _ over in
      let (v, found) = oldest-some m (omega arith) in
      let (payload, present) = oldest_found m v d found in
      inr (
        v,
        found,
        big,
        ground (arith, over, found),
        length-remove-lt m v.0 (λ e. ground (arith, e, present)),
      )
]

length-prune-le :
    (fuel : ℕ) (m : ReplayCache)
    → Distinct m
    → length m ≤ fuel
    → length (prune fuel m) ≤ max_cached_activities
unfolding prune
length-prune-le zero m d h = omega arith
length-prune-le (suc fuel) m d h = elim (round fuel m d) [
  | inl (done, fits) ↦ omega (arith, ap length done)
  | inr (v, found, big, more, fewer) ↦
      rw more (length-prune-le fuel (remove m v.0) (remove-Distinct m v.0 d) (omega arith))
]

prune-Distinct : (fuel : ℕ) (m : ReplayCache) → Distinct m → Distinct (prune fuel m)
unfolding prune
prune-Distinct zero m d = d
prune-Distinct (suc fuel) m d = elim (round fuel m d) [
  | inl (done, fits) ↦ subst Distinct (sym done) d
  | inr (v, found, big, more, fewer) ↦
      subst Distinct (sym more) (prune-Distinct fuel (remove m v.0) (remove-Distinct m v.0 d))
]

-- Pruning only removes.
prune-get :
    (fuel : ℕ) (m : ReplayCache) (j : SocketId)
    → Distinct m
    → (get (prune fuel m) j ≡ none) ⊎ (get (prune fuel m) j ≡ get m j)
unfolding prune
prune-get zero m j d = inr refl
prune-get (suc fuel) m j d = elim (round fuel m d) [
  | inl (done, fits) ↦ inr (ap (λ (t : ReplayCache). get t j) done)
  | inr (v, found, big, more, fewer) ↦
      ground
        (arith, more, prune-get fuel (remove m v.0) j (remove-Distinct m v.0 d), get-remove m v.0 j)
]

-- The entry of `k` is the newest of the cache.
pub record IsNewest (m : ReplayCache) (k : SocketId) (e : Entry) : Type 0 where
  pub found : get m k ≡ some e
  pub newest : (j : SocketId) (f : Entry) → get m j ≡ some f → k ≢ j → f.1 < e.1

another :
    (m : ReplayCache) (k : SocketId)
    → Distinct m
    → 1 < length m
    → (j : SocketId) × (f : Entry) × (get m j ≡ some f) × (k ≢ j)
unfolding get
another ((a, e) ∷ (b, f) ∷ m) k d h = elim (Bool-cases (a == k)) [
  | inl here ↦ (
    b,
    f,
    ground (arith, string_iff a b, string_iff b b, string_iff b a),
    λ q. ground (arith, string_iff a k, string_iff b a, q),
  )
  | inr there ↦ (a, e, ground (arith, string_iff a a), λ q. ground (arith, string_iff a k, q))
]
another [] k d h = elim h [ ]
another ((a, e) ∷ []) k d h = absurd (omega arith)

victim_ne :
    (m : ReplayCache) (k : SocketId) (e : Entry) (v : SocketId × ℕ)
    → Distinct m
    → 1 < length m
    → IsNewest m k e
    → oldest m ≡ some v
    → v.0 ≢ k
victim_ne m k e v d h n found same =
    let (j, f, other, ne) = another m k d h in
    let (p, present) = oldest_found m v d found in
    let at_k : get m k ≡ some (p, v.1) = ap (get m) (sym same) ∙ present in
    let eq : e.1 ≡ v.1 = ground (arith, at_k, n.found) in
    omega (arith, n.newest j f other ne, oldest_least m v j f found other)

prune-newest :
    (fuel : ℕ) (m : ReplayCache) (k : SocketId) (e : Entry)
    → Distinct m
    → IsNewest m k e
    → get (prune fuel m) k ≡ some e
unfolding prune
prune-newest zero m k e d n = n.found
prune-newest (suc fuel) m k e d n = elim (round fuel m d) [
  | inl (done, fits) ↦ ap (λ (t : ReplayCache). get t k) done ∙ n.found
  | inr (v, found, big, more, fewer) ↦
      let ne = victim_ne m k e v d (omega arith) n found in
      rw more (
        prune-newest fuel (remove m v.0) k e (remove-Distinct m v.0 d) (record {
          found = ground (arith, get-remove m v.0 k, string_iff v.0 k, n.found);
          newest = λ j f g other. n.newest j f (ground (arith, get-remove m v.0 j)) other;
        }))
]

module _ (m : ReplayCache) (d : Distinct m) where
  -- After pruning the cache holds at most 50 payloads.
  pub length-prune_cache-le : length (prune_cache m) ≤ max_cached_activities
  unfolding prune_cache
  length-prune_cache-le = length-prune-le (length m) m d (omega arith)

  pub prune_cache-Distinct : Distinct (prune_cache m)
  unfolding prune_cache
  prune_cache-Distinct = prune-Distinct (length m) m d

  pub prune_cache-get :
      (j : SocketId) → (get (prune_cache m) j ≡ none) ⊎ (get (prune_cache m) j ≡ get m j)
  unfolding prune_cache
  prune_cache-get j = prune-get (length m) m j d

  pub prune_cache-newest :
      (k : SocketId) (e : Entry) → IsNewest m k e → get (prune_cache m) k ≡ some e
  unfolding prune_cache
  prune_cache-newest k e n = prune-newest (length m) m k e d n
