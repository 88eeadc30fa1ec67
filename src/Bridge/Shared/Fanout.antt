-- ===== src/Bridge/Shared/Fanout.antt =====
-- Who receives a broadcast.
use discord_rich_presence.Prelude.{
  ℕ, ◌+◌, ◌%◌, ◌≡◌, ◌∙◌, sym, refl, true, false, some, List, [], ◌∷◌, ◌++◌, length, length-append,
  map, arith, Bool-cases, inl, inr,
}
use discord_rich_presence.Types.Ids.{SocketId, u64_mod}
use discord_rich_presence.Protocol.Cached.{CachedActivity}
use discord_rich_presence.Bridge.Shared.{
  BridgeProtocol, ClientId, Message, ConsumerMap, Shared, Outboxes, Delivery, keep, deliver,
  encoded, send_to_all, cache_payload, broadcast_activity,
}
use mathlib.Core.List.{append_assoc, append-nil}

-- The frames that the consumers `cs` get of a payload, each in its own encoding.
abbrev pub frames : CachedActivity → ConsumerMap → List (ClientId × Message)
frames payload = map (λ c. (c.0, encoded payload c.1))

module _ (accepts : Outboxes) (payload : CachedActivity) where
  abbrev pass : ConsumerMap → List (ClientId × Message) → Delivery
  pass = deliver accepts (λ p. some (encoded payload p))

  module _ (id : ClientId) (protocol : BridgeProtocol) (cs : ConsumerMap)
      (log : List (ClientId × Message)) where
    abbrev frame : ClientId × Message
    frame = (id, encoded payload protocol)

    pass_accepted :
        accepts (length log) id ≡ true
        → pass ((id, protocol) ∷ cs) log ≡ keep id protocol (pass cs (log ++ frame ∷ []))
    unfolding deliver
    pass_accepted h = ground arith

    pass_refused :
        accepts (length log) id ≡ false
        → pass ((id, protocol) ∷ cs) log ≡ record (pass cs log) { dead = (pass cs log).dead + 1 }
    unfolding deliver
    pass_refused h = ground arith

  deliver_log :
      (cs : ConsumerMap) (log : List (ClientId × Message))
      → (pass cs log).log ≡ log ++ frames payload (pass cs log).kept
  unfolding deliver
  deliver_log [] log = sym (append-nil log)
  deliver_log ((id, protocol) ∷ cs) log = elim (Bool-cases (accepts (length log) id)) [
    | inl ok ↦
        let e = frame id protocol cs log in
        let step = pass_accepted id protocol cs log ok in
        let rest = pass cs (log ++ e ∷ []) in
        rw step
          (deliver_log cs (log ++ e ∷ []) ∙ append_assoc log (e ∷ []) (frames payload rest.kept))
    | inr full ↦ rw (pass_refused id protocol cs log full) (deliver_log cs log)
  ]

  deliver_count :
      (cs : ConsumerMap) (log : List (ClientId × Message))
      → length (pass cs log).kept + (pass cs log).dead ≡ length cs
  unfolding deliver
  deliver_count [] log = omega arith
  deliver_count ((id, protocol) ∷ cs) log =
      ground
        (arith, deliver_count cs log, deliver_count cs (log ++ (id, encoded payload protocol) ∷ []))

  -- The consumers `ks` among `cs` are those whose outbox takes a frame, the first to be the n-th.
  pub data Takes : ℕ → ConsumerMap → ConsumerMap → Type 0 where
    done : {n : ℕ} → Takes n [] []
    takes :
        {n : ℕ} (id : ClientId) (protocol : BridgeProtocol) {cs ks : ConsumerMap}
        → accepts n id ≡ true
        → Takes (n + 1) cs ks
        → Takes n ((id, protocol) ∷ cs) ((id, protocol) ∷ ks)
    refuses :
        {n : ℕ} (id : ClientId) (protocol : BridgeProtocol) {cs ks : ConsumerMap}
        → accepts n id ≡ false
        → Takes n cs ks
        → Takes n ((id, protocol) ∷ cs) ks

  deliver-Takes :
      (cs : ConsumerMap) (log : List (ClientId × Message))
      → Takes (length log) cs (pass cs log).kept
  unfolding deliver
  deliver-Takes [] log = done
  deliver-Takes ((id, protocol) ∷ cs) log = elim (Bool-cases (accepts (length log) id)) [
    | inl ok ↦
        let e = frame id protocol cs log in
        let longer : length (log ++ e ∷ []) ≡ length log + 1 = length-append log (e ∷ []) in
        rw (pass_accepted id protocol cs log ok)
          (takes id protocol ok (rw (← longer) (deliver-Takes cs (log ++ e ∷ []))))
    | inr full ↦
        rw (pass_refused id protocol cs log full) (refuses id protocol full (deliver-Takes cs log))
  ]

  -- `s` with its consumers replaced: the cases of `send_to_all`.
  abbrev Delivers : Shared → Shared → Type 0
  Delivers s t =
      (t.sent ≡ s.sent ++ frames payload t.consumers)
      × (dead : ℕ) × (length t.consumers + dead ≡ length s.consumers)
      × (t.dropped_broadcasts % u64_mod ≡ (s.dropped_broadcasts + dead) % u64_mod)
      × Takes (length s.sent) s.consumers t.consumers

  send_to_all-Delivers :
      (s : Shared) (cs : ConsumerMap)
      → Delivers
          (record s { consumers = cs })
          (send_to_all accepts payload (record s { consumers = cs }))
  unfolding send_to_all
  send_to_all-Delivers s [] = (sym (append-nil s.sent), 0, omega arith, omega arith, done)
  send_to_all-Delivers s (c ∷ cs) =
      let d = pass (c ∷ cs) s.sent in
      (
        deliver_log (c ∷ cs) s.sent,
        d.dead,
        deliver_count (c ∷ cs) s.sent,
        omega arith,
        deliver-Takes (c ∷ cs) s.sent,
      )

  -- A broadcast keeps exactly the consumers whose outbox takes the frame. Each of these gets one
  -- frame, in its own encoding and in the order of the map, and nothing else is sent; the others are
  -- counted, modulo 2^64.
  pub send_to_all_delivers :
      (s : Shared)
      → ((send_to_all accepts payload s).sent
          ≡ s.sent ++ frames payload (send_to_all accepts payload s).consumers)
        × (dead : ℕ) × (length (send_to_all accepts payload s).consumers + dead
            ≡ length s.consumers)
        × ((send_to_all accepts payload s).dropped_broadcasts % u64_mod
            ≡ (s.dropped_broadcasts + dead) % u64_mod)
        × Takes (length s.sent) s.consumers (send_to_all accepts payload s).consumers
  send_to_all_delivers s = send_to_all-Delivers s s.consumers

  -- What a broadcast does not touch.
  pub record OnlyDelivers (s t : Shared) : Type 0 where
    pub cache : t.cache ≡ s.cache
    pub activity_seq : t.activity_seq ≡ s.activity_seq
    pub last_process : t.last_process ≡ s.last_process
    pub handoff : t.handoff ≡ s.handoff
    pub recent : t.recent ≡ s.recent

  only_delivers :
      (s : Shared) (cs : ConsumerMap)
      → OnlyDelivers s (send_to_all accepts payload (record s { consumers = cs }))
  unfolding send_to_all
  only_delivers s [] = record {
    cache = refl;
    activity_seq = refl;
    last_process = refl;
    handoff = refl;
    recent = refl;
  }
  only_delivers s (c ∷ cs) = record {
    cache = refl;
    activity_seq = refl;
    last_process = refl;
    handoff = refl;
    recent = refl;
  }

  pub send_to_all_only : (s : Shared) → OnlyDelivers s (send_to_all accepts payload s)
  send_to_all_only s = only_delivers s s.consumers

  -- A broadcast changes the replay cache as its payload says, and leaves the other tables alone.
  pub broadcast_activity_tables :
      (id : SocketId) (s : Shared)
      → ((broadcast_activity accepts payload id s).cache ≡ (cache_payload payload id s).cache)
        × ((broadcast_activity accepts payload id s).last_process ≡ s.last_process)
        × ((broadcast_activity accepts payload id s).handoff ≡ s.handoff)
        × ((broadcast_activity accepts payload id s).recent ≡ s.recent)
  unfolding broadcast_activity cache_payload
  broadcast_activity_tables id s =
      let o = send_to_all_only (cache_payload payload id s) in
      (o.cache, ground (arith, o.last_process), ground (arith, o.handoff), ground (arith, o.recent))
