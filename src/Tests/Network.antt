-- ===== src/Tests/Network.antt =====
-- The theorems about the network, at a packet that two repeaters relayed.
use remoteterm_meshcore.Prelude.{
  ◌↔◌, inr, every, arith, ℕ, zero, suc, ◌≡◌, refl, ◌⊎◌, true, false, Option, none, some, List, [],
  ◌∷◌, ◌++◌, Text, codes, All, nat_eq, list_eq, text_ltb, contains, insert, keep, any,
}
use remoteterm_meshcore.Prelude.JsMap
use remoteterm_meshcore.Prelude.JsMap.{JsMap, AllValues}
use remoteterm_meshcore.Data.{RawPacket}
use remoteterm_meshcore.Network.Steps.{PathStep, dedupe_consecutive, compact_path_steps}
use remoteterm_meshcore.Network.Steps.Laws.{HasNoRepeat, visible, compact_path_steps-nodes}
use remoteterm_meshcore.Network.Traffic.{
  TrafficObservation, RepeaterTrafficData, analyze_repeater_traffic,
}
use remoteterm_meshcore.Network.Graph.{
  PacketNetworkNode, PacketNetworkState, create_packet_network_state, new_self_node,
}
use remoteterm_meshcore.Network.Graph.Validity.{IsNetwork, IsResolved}
use remoteterm_meshcore.Network.Context.{PacketNetworkContext, build_packet_network_context}
use remoteterm_meshcore.Network.Resolve.{prefix, resolve_node}
use remoteterm_meshcore.Network.Resolve.Laws.{resolve_node-IsResolved}
use remoteterm_meshcore.Network.Ingest.{
  ParsedPacket, ingest_packet_into_packet_network, normalize_packet_timestamp_ms,
}
use remoteterm_meshcore.Network.Ingest.Laws.{ingest-IsIngested, IsIngested}
use remoteterm_meshcore.Network.Prune.{prune_packet_network_state}
use remoteterm_meshcore.Network.Prune.Laws.{IsLive, pruned, prune_packet_network_state_lem}
use remoteterm_meshcore.Network.Prune.Validity
use remoteterm_meshcore.Network.Prune.Validity.{NetworkCall, run, run-IsNetwork, create-IsNetwork}
use remoteterm_meshcore.Network.Visibility.{PacketNetworkVisibilityOptions}
use remoteterm_meshcore.Network.Project.{project_canonical_path}
use remoteterm_meshcore.Network.Project.Laws.{IsShown, project_canonical_path-IsShown}

abbrev hops : List Text
hops = codes "?1a" ∷ codes "?1a" ∷ codes "self" ∷ []

abbrev steps : List PathStep
steps =
    record {
      node_id = some (codes "a");
      mark_hidden_link_when_omitted = false;
      hidden_label = none;
    }
    ∷ record {
      node_id = none;
      mark_hidden_link_when_omitted = true;
      hidden_label = some (codes "1A");
    }
    ∷ record {
      node_id = some (codes "b");
      mark_hidden_link_when_omitted = false;
      hidden_label = none;
    }
    ∷ []

compact_path_steps-nodes_example :
    ((compact_path_steps steps).nodes ≡ dedupe_consecutive (visible steps))
    × HasNoRepeat (compact_path_steps steps).nodes
compact_path_steps-nodes_example = compact_path_steps-nodes steps

abbrev observation : TrafficObservation
observation = record { source = codes "a"; next_hop = none; timestamp = 5 }

abbrev traffic : JsMap Text RepeaterTrafficData
traffic = (codes "1a", record { hop_key = codes "1a"; observations = observation ∷ [] }) ∷ []

abbrev context : PacketNetworkContext
context = build_packet_network_context (some (codes "0123456789abcdef")) [] [] true true

abbrev packet : RawPacket
packet = record {
  id = 1;
  observation_id = none;
  timestamp = 1700000000;
  hex = codes "";
  payload_type = codes "ADVERT";
  snr = none;
  rssi = none;
  decrypted = false;
  decrypted_info = none;
  transport_code = none;
  region = none;
}

abbrev parsed : Option ParsedPacket
parsed = some (record {
  payload_type = 4;
  message_hash = none;
  path_bytes = codes "1a" ∷ codes "2b" ∷ [];
  src_hash = none;
  dst_hash = none;
  advert_pubkey = some (codes "fedcba9876543210");
  group_text_sender = none;
  anon_request_pubkey = none;
})

abbrev created : PacketNetworkState
created = create_packet_network_state 0 (codes "Me")

created-IsNetwork : IsNetwork created
created-IsNetwork = create-IsNetwork 0 (codes "Me")

resolve_node-IsResolved_example :
    IsResolved created
      (resolve_node text_ltb 0 context prefix (codes "1a") true true 5 none created)
resolve_node-IsResolved_example =
    resolve_node-IsResolved text_ltb 0 context prefix (codes "1a") true true 5 none created

ingest-IsIngested_example :
    IsIngested
      (normalize_packet_timestamp_ms 0 1700000000)
      created
      (ingest_packet_into_packet_network text_ltb 0 context parsed packet created)
ingest-IsIngested_example = ingest-IsIngested text_ltb 0 context parsed packet created

run-IsNetwork_example : IsNetwork (
    run created
      (Validity.ingest text_ltb 0 context parsed packet ∷ Validity.prune 9000000000000 ∷ []))
run-IsNetwork_example =
    run-IsNetwork 0 (codes "Me")
      (Validity.ingest text_ltb 0 context parsed packet ∷ Validity.prune 9000000000000 ∷ [])

abbrev seen_at : ℕ → PacketNetworkNode
seen_at time = record (new_self_node time (codes "Al")) { id = codes "1a" }

-- Two nodes besides our own, of which the first is older than 10.
abbrev grown : PacketNetworkState
grown = record created {
  nodes = created.nodes ++ (codes "1a", seen_at 9) ∷ (codes "2b", seen_at 10) ∷ [];
}

prune_packet_network_state_lem_example :
    All (IsLive 10) (pruned 10 grown).nodes
    × (JsMap.get (codes "2b") (pruned 10 grown).nodes ≡ some (seen_at 10))
    × (((prune_packet_network_state 10 grown).1 ≡ false) ↔ All (IsLive 10) grown.nodes)
    × ((prune_packet_network_state 10 grown).1 ≡ true ⊎ pruned 10 grown ≡ grown)
unfolding create_packet_network_state JsMap.get
prune_packet_network_state_lem_example =
    prune_packet_network_state_lem 10 grown (codes "2b") (seen_at 10) refl (inr (omega arith))

-- The old node is gone.
prunes_old : JsMap.get (codes "1a") (pruned 10 grown).nodes ≡ none
unfolding prune_packet_network_state create_packet_network_state JsMap.get keep every
prunes_old = refl

abbrev shown : PacketNetworkVisibilityOptions
shown = record {
  show_ambiguous_nodes = false;
  show_ambiguous_paths = false;
  collapse_likely_known_sibling_repeaters = false;
}

project_canonical_path-IsShown_example :
    All (IsShown created shown) (project_canonical_path created hops shown).nodes
project_canonical_path-IsShown_example = project_canonical_path-IsShown created shown hops refl

abbrev by_hop : ℕ → Text → TrafficObservation
by_hop n next_hop = record { source = n ∷ []; next_hop = some next_hop; timestamp = 5 }

abbrev sources : ℕ → ℕ → Text → List TrafficObservation
sources zero from next_hop = []
sources (suc n) from next_hop = by_hop from next_hop ∷ sources n (suc from) next_hop

abbrev split_traffic : RepeaterTrafficData
split_traffic = record {
  hop_key = codes "1a";
  observations = sources 20 100 (codes "2b") ++ sources 20 200 (codes "3c");
}

abbrev source_names : ℕ → ℕ → List Text
source_names zero from = []
source_names (suc n) from = (from ∷ []) ∷ source_names n (suc from)

abbrev groups : JsMap Text (List Text)
groups = (codes "2b", source_names 20 100) ∷ (codes "3c", source_names 20 200) ∷ []

-- This repeater is split.
splits : analyze_repeater_traffic 6 split_traffic ≡ some groups
unfolding analyze_repeater_traffic keep any JsMap.get JsMap.set contains insert
splits = refl
