-- ===== src/Tests/Packets.antt =====
-- The theorems about the packet store, at a concrete packet.
use remoteterm_meshcore.Prelude.{ℕ, nat_eq, list_eq, false, none, some, List, [], ◌∷◌, codes}
use remoteterm_meshcore.Data.{RawPacket}
use remoteterm_meshcore.Packets.{reset_raw_packet_store}
use remoteterm_meshcore.Packets.Session
use remoteterm_meshcore.Packets.Session.{IsStore, StoreCall, run-IsStore}

abbrev observed : ℕ → RawPacket
observed observation_id = record {
  id = 1;
  observation_id = some observation_id;
  timestamp = 1700000000;
  hex = codes "0a";
  payload_type = codes "ACK";
  snr = none;
  rssi = none;
  decrypted = false;
  decrypted_info = none;
  transport_code = none;
  region = none;
}

abbrev calls : List StoreCall
calls =
    Session.record_packet (observed 1)
    ∷ Session.clear_packets
    ∷ Session.record_packet (observed 2)
    ∷ Session.record_packet (observed 2)
    ∷ []

run-IsStore_example :
    IsStore (Session.run (λ (packet : RawPacket). packet.hex) (reset_raw_packet_store 5) calls)
run-IsStore_example = run-IsStore (λ (packet : RawPacket). packet.hex) 5 calls
