-- ===== src/Packets.antt =====
-- The store of raw packets of frontend/src/stores/rawPacketStore.ts, with the identity of a packet of
-- frontend/src/utils/rawPacketIdentity.ts. What the decoder adds to the summary of a packet is an
-- argument.
pub mod Laws
pub mod Session
use remoteterm_meshcore.Prelude.{
  ℕ, ◌+◌, ◌-◌, Bool, true, false, ◌||◌, Option, none, some, List, [], ◌∷◌, ◌++◌, Text, codes,
  to_string, length, drop, any, ltb, leb, nat_eq, list_eq, if◌then◌else◌, ◌==◌,
}
use remoteterm_meshcore.Prelude.Int.{ℤ}
use remoteterm_meshcore.Data.{RawPacket}

abbrev pub max_raw_packets : ℕ
max_raw_packets = 500

abbrev pub max_raw_packet_stats_observations : ℕ
max_raw_packet_stats_observations = 20000

unfoldable pub get_raw_packet_observation_key : RawPacket → Text
get_raw_packet_observation_key packet = elim packet.observation_id [
  | some observation_id ↦ codes "obs-" ++ to_string observation_id
  | none ↦ codes "db-" ++ to_string packet.id
]

-- `updated.slice(-maxPackets)`, which for 0 is the whole array
abbrev pub slice_last {ℓ} : {A : Type ℓ} → ℕ → List A → List A
slice_last max_packets updated =
    if max_packets == 0 then updated else drop (length updated - max_packets) updated

unfoldable pub append_raw_packet_unique : List RawPacket → RawPacket → ℕ → List RawPacket
append_raw_packet_unique prev packet max_packets =
    if any
      (λ (p : RawPacket). get_raw_packet_observation_key p == get_raw_packet_observation_key packet)
      prev
    then prev
    else (let updated = prev ++ packet ∷ [] in
        if ltb max_packets (length updated) then slice_last max_packets updated else updated)

-- `decoded` has the fields that come from the decoder.
pub record RawPacketStatsObservation (D : Type 0) : Type 0 where
  pub observation_key : Text
  pub timestamp : ℕ
  pub decrypted : Bool
  pub rssi : Option ℤ
  pub snr : Option ℤ
  pub decoded : D

pub record RawPacketStatsSessionState (D : Type 0) : Type 0 where
  pub session_started_at : ℕ
  pub total_observed_packets : ℕ
  pub trimmed_observation_count : ℕ
  pub observations : List (RawPacketStatsObservation D)

pub record RawPacketStore (D : Type 0) : Type 0 where
  pub packets : List RawPacket
  pub stats_session : RawPacketStatsSessionState D

module _ {D : Type 0} (decode : RawPacket → D) where
  unfoldable pub summarize_raw_packet_for_stats : RawPacket → RawPacketStatsObservation D
  summarize_raw_packet_for_stats packet = record {
    observation_key = get_raw_packet_observation_key packet;
    timestamp = packet.timestamp;
    decrypted = packet.decrypted;
    rssi = packet.rssi;
    snr = packet.snr;
    decoded = decode packet;
  }

  unfoldable pub observe_packet :
      RawPacketStatsSessionState D → RawPacket → RawPacketStatsSessionState D
  unfolding summarize_raw_packet_for_stats
  observe_packet session packet =
      let observation = summarize_raw_packet_for_stats packet in
      if any
        (λ (candidate : RawPacketStatsObservation D).
          candidate.observation_key == observation.observation_key)
        session.observations
      then session
      else (let observations = session.observations ++ observation ∷ [] in
          let overflow = length observations - max_raw_packet_stats_observations in
          if leb (length observations) max_raw_packet_stats_observations
          then record session {
            total_observed_packets = session.total_observed_packets + 1;
            observations = observations;
          }
          else record session {
            total_observed_packets = session.total_observed_packets + 1;
            trimmed_observation_count = session.trimmed_observation_count + overflow;
            observations = drop overflow observations;
          })

  -- Listeners read the store afterwards; they are not part of its state.
  unfoldable pub record_raw_packet : ℕ → RawPacket → RawPacketStore D → RawPacketStore D
  unfolding observe_packet
  record_raw_packet max_packets packet store = record {
    packets = append_raw_packet_unique store.packets packet max_packets;
    stats_session = observe_packet store.stats_session packet;
  }

abbrev pub create_stats_session : {D : Type 0} → ℕ → RawPacketStatsSessionState D
create_stats_session now = record {
  session_started_at = now;
  total_observed_packets = 0;
  trimmed_observation_count = 0;
  observations = [];
}

unfoldable pub clear_raw_packets : {D : Type 0} → RawPacketStore D → RawPacketStore D
clear_raw_packets store = record store { packets = [] }

unfoldable pub reset_raw_packet_store : {D : Type 0} → ℕ → RawPacketStore D
reset_raw_packet_store now = record { packets = []; stats_session = create_stats_session now }
