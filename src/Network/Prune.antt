-- ===== src/Network/Prune.antt =====
-- `prunePacketNetworkState` and `snapshotNeighborIds` of
-- frontend/src/networkGraph/packetNetworkGraph.ts.
pub mod Validity
pub mod Laws
use remoteterm_meshcore.Prelude.{
  ℕ, Bool, true, false, not, ◌&&◌, ◌||◌, List, [], ◌∷◌, Text, keep, every, ltb, nat_eq, list_eq,
  if◌then◌else◌, ◌==◌, text_ltb,
}
use remoteterm_meshcore.Prelude.JsMap
use remoteterm_meshcore.Prelude.JsMap.{JsMap}
use remoteterm_meshcore.Prelude.Sort.{sort}
use remoteterm_meshcore.Network.Graph.{
  PacketNetworkNode, PacketNetworkLink, PacketNetworkObservation, PacketNetworkState, self_id,
  upsert_neighbor,
}

-- A node that the first loop leaves in place.
abbrev pub survives : ℕ → Text × PacketNetworkNode → Bool
survives cutoff (id, node) = id == self_id || not (ltb node.last_activity cutoff)

abbrev pub has_endpoints : JsMap Text PacketNetworkNode → Text × PacketNetworkLink → Bool
has_endpoints nodes (key, link) = JsMap.has link.source_id nodes && JsMap.has link.target_id nodes

abbrev pub has_nodes : JsMap Text PacketNetworkNode → PacketNetworkObservation → Bool
has_nodes nodes observation = every (λ id. JsMap.has id nodes) observation.nodes

-- The neighbours are rebuilt from the links.
unfoldable pub rebuild_neighbors :
    JsMap Text (List Text) → JsMap Text PacketNetworkLink → JsMap Text (List Text)
rebuild_neighbors neighbor_ids [] = neighbor_ids
rebuild_neighbors neighbor_ids ((key, link) ∷ links) =
    rebuild_neighbors (upsert_neighbor link.source_id link.target_id neighbor_ids) links

unfoldable pub prune_packet_network_state : ℕ → PacketNetworkState → PacketNetworkState × Bool
unfolding rebuild_neighbors
prune_packet_network_state cutoff state =
    if every (survives cutoff) state.nodes
    then (state, false)
    else (let nodes = keep (survives cutoff) state.nodes in
        let links = keep (has_endpoints nodes) state.links in
        (
          record state {
            nodes = nodes;
            links = links;
            observations = keep (has_nodes nodes) state.observations;
            neighbor_ids = rebuild_neighbors [] links;
          },
          true,
        ))

unfoldable pub snapshot_neighbor_ids : JsMap Text (List Text) → JsMap Text (List Text)
snapshot_neighbor_ids [] = []
snapshot_neighbor_ids ((node_id, neighbor_ids) ∷ rest) =
    (node_id, sort text_ltb neighbor_ids) ∷ snapshot_neighbor_ids rest
