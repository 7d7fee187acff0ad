-- ===== src/Packets/Session.antt =====
-- The session statistics and the store under its calls: lemmas on
-- frontend/src/stores/rawPacketStore.ts.
use remoteterm_meshcore.Prelude.{
  ℕ, zero, suc, ◌+◌, ◌-◌, ◌≤◌, ◌≡◌, refl, sym, ap, ◌∙◌, inl, inr, List, [], ◌∷◌, ◌++◌, Text, arith,
  length, length-append, length-drop, drop, any, leb, nat_eq, list_eq, Bool-cases, ◌==◌, contains,
  IsDistinct, IsDistinct-concat,
}
use remoteterm_meshcore.Data.{RawPacket}
use remoteterm_meshcore.Packets.{
  max_raw_packets, max_raw_packet_stats_observations, RawPacketStatsObservation,
  RawPacketStatsSessionState, RawPacketStore, observe_packet, record_raw_packet,
  summarize_raw_packet_for_stats, clear_raw_packets, reset_raw_packet_store,
}
use remoteterm_meshcore.Packets.Laws.{packet_keys, drop-IsDistinct, append_raw_packet_unique_lem}

abbrev pub observation_keys : {D : Type 0} → List (RawPacketStatsObservation D) → List Text
observation_keys [] = []
observation_keys (o ∷ observations) = o.observation_key ∷ observation_keys observations

module _ {D : Type 0} where
  observation_keys-drop :
      (n : ℕ) (observations : List (RawPacketStatsObservation D))
      → observation_keys (drop n observations) ≡ drop n (observation_keys observations)
  observation_keys-drop zero observations = refl
  observation_keys-drop (suc n) [] = refl
  observation_keys-drop (suc n) (o ∷ observations) = observation_keys-drop n observations

  observation_keys-concat :
      (observations : List (RawPacketStatsObservation D)) (o : RawPacketStatsObservation D)
      → observation_keys (observations ++ o ∷ [])
        ≡ observation_keys observations ++ o.observation_key ∷ []
  observation_keys-concat [] o = refl
  observation_keys-concat (q ∷ observations) o =
      ap (◌∷◌ q.observation_key) (observation_keys-concat observations o)

  any-observation_keys :
      (observations : List (RawPacketStatsObservation D)) (key : Text)
      → any (λ (o : RawPacketStatsObservation D). o.observation_key == key) observations
        ≡ contains (observation_keys observations) key
  unfolding any contains
  any-observation_keys [] key = refl
  any-observation_keys (o ∷ observations) key =
      ground (arith, any-observation_keys observations key)

  -- A session has each observation once and at most 20000 of them, and has counted those it keeps
  -- and those it trimmed.
  abbrev pub IsSession : RawPacketStatsSessionState D → Type 0
  IsSession session =
      (length session.observations ≤ max_raw_packet_stats_observations)
      × IsDistinct (observation_keys session.observations)
      × (session.total_observed_packets
          ≡ session.trimmed_observation_count + length session.observations)

  -- Observing a packet keeps the observations of a session distinct, at most 20000, and its counts
  -- in step.
  pub observe_packet-IsSession :
      (decode : RawPacket → D) (session : RawPacketStatsSessionState D) (packet : RawPacket)
      → IsSession session
      → IsSession (observe_packet decode session packet)
  unfolding observe_packet summarize_raw_packet_for_stats
  observe_packet-IsSession decode session packet (short, distinct, counted) =
      let o : RawPacketStatsObservation D = summarize_raw_packet_for_stats decode packet in
      let observations : List (RawPacketStatsObservation D) = session.observations ++ o ∷ [] in
      let overflow : ℕ = length observations - max_raw_packet_stats_observations in
      elim (Bool-cases (
        any (λ (c : RawPacketStatsObservation D). c.observation_key == o.observation_key)
          session.observations)) [
            | inl old ↦ rw (old, observe_packet) (short, distinct, counted)
            | inr new ↦
                let unique : IsDistinct (observation_keys observations) =
                  rw (observation_keys-concat session.observations o) (
                    IsDistinct-concat (observation_keys session.observations) o.observation_key
                      distinct
                      (sym (any-observation_keys session.observations o.observation_key) ∙ new)) in
                elim (Bool-cases (leb (length observations) max_raw_packet_stats_observations)) [
                  | inl room ↦
                      rw (new, observe_packet, room)
                        (
                          ground arith,
                          unique,
                          ground (arith, length-append session.observations (o ∷ [])),
                        )
                  | inr full ↦
                      rw (new, observe_packet, full)
                        (
                          ground (arith, length-drop overflow observations),
                          rw (observation_keys-drop overflow observations)
                              (drop-IsDistinct overflow (observation_keys observations) unique),
                          ground (
                            arith,
                            length-drop overflow observations,
                            length-append session.observations (o ∷ []),
                          ),
                        )
                ]
          ]

  -- The buffer has each packet once and at most 500 of them, and the session is in order.
  abbrev pub IsStore : RawPacketStore D → Type 0
  IsStore store =
      (length store.packets ≤ max_raw_packets)
      × IsDistinct (packet_keys store.packets)
      × IsSession store.stats_session

-- The calls of the program; a packet is recorded with the default limit.
pub data StoreCall : Type 0 where
  record_packet : RawPacket → StoreCall
  clear_packets : StoreCall
  reset_store : ℕ → StoreCall

module _ {D : Type 0} (decode : RawPacket → D) where
  abbrev pub perform : StoreCall → RawPacketStore D → RawPacketStore D
  perform (record_packet packet) store = record_raw_packet decode max_raw_packets packet store
  perform clear_packets store = clear_raw_packets store
  perform (reset_store now) store = reset_raw_packet_store now

  abbrev pub run : RawPacketStore D → List StoreCall → RawPacketStore D
  run store [] = store
  run store (call ∷ calls) = run (perform call store) calls

  perform-IsStore :
      (call : StoreCall) (store : RawPacketStore D) → IsStore store → IsStore (perform call store)
  unfolding record_raw_packet clear_raw_packets reset_raw_packet_store
  perform-IsStore (record_packet packet) store (short, distinct, session) =
      let p =
        append_raw_packet_unique_lem store.packets packet max_raw_packets (omega arith) short
          distinct in
      (p.0, p.1, observe_packet-IsSession decode store.stats_session packet session)
  perform-IsStore clear_packets store (short, distinct, session) = (omega arith, tt, session)
  perform-IsStore (reset_store now) store h = (omega arith, tt, (omega arith, tt, omega arith))

  calls-IsStore :
      (calls : List StoreCall) (store : RawPacketStore D)
      → IsStore store
      → IsStore (run store calls)
  calls-IsStore [] store h = h
  calls-IsStore (call ∷ calls) store h =
      calls-IsStore calls (perform call store) (perform-IsStore call store h)

  -- After any calls of the store, starting reset, the buffer has at most 500 packets and the session
  -- at most 20000 observations, each once, and the packets counted are those kept and those trimmed.
  pub run-IsStore :
      (now : ℕ) (calls : List StoreCall) → IsStore (run (reset_raw_packet_store now) calls)
  unfolding reset_raw_packet_store
  run-IsStore now calls =
      calls-IsStore calls (reset_raw_packet_store now)
        (omega arith, tt, (omega arith, tt, omega arith))
