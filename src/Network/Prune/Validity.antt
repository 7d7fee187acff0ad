-- ===== src/Network/Prune/Validity.antt =====
-- The state of the network under all calls of frontend/src/networkGraph/packetNetworkGraph.ts.
use remoteterm_meshcore.Prelude.{
  keep_holds, ℕ, ◌≡◌, refl, inl, inr, Bool, true, Option, some, List, [], ◌∷◌, Text, arith, All,
  All_imp, All_both, All-keep, nat_eq, list_eq, Bool-cases, Option-cases, eq_refl, keep, every,
  contains,
}
use remoteterm_meshcore.Prelude.JsMap
use remoteterm_meshcore.Prelude.JsMap.{JsMap}
use remoteterm_meshcore.Prelude.JsMap.Entries.{get-All}
use remoteterm_meshcore.Data.{RawPacket}
use remoteterm_meshcore.Network.Steps.{build_link_key}
use remoteterm_meshcore.Network.Graph.{
  PacketNetworkNode, PacketNetworkLink, PacketNetworkState, self_id, create_packet_network_state,
  ensure_self_node, clear_packet_network_state, new_self_node, upsert_neighbor,
}
use remoteterm_meshcore.Network.Graph.Validity.{
  HasNode, IsKeyed, IsLinkOf, IsNetwork, Extends-IsNetwork, set_node-Extends,
}
use remoteterm_meshcore.Network.Graph.Edges.{AreLinkedBy, upsert_neighbor-AreLinkedBy}
use remoteterm_meshcore.Network.Context.{PacketNetworkContext}
use remoteterm_meshcore.Network.Ingest.{ParsedPacket, ingest_packet_into_packet_network}
use remoteterm_meshcore.Network.Ingest.Laws.{ingest-IsNetwork}
use remoteterm_meshcore.Network.Prune.{
  survives, has_endpoints, has_nodes, rebuild_neighbors, prune_packet_network_state,
}
use remoteterm_meshcore.Network.Prune.Laws.{
  get-keep, every-All, prune_unchanged, prune_sweeps, swept,
}

-- A link is found under the key of its ends.
abbrev IsFound : JsMap Text PacketNetworkLink → Text × PacketNetworkLink → Type 0
IsFound links (key, link) = JsMap.has (build_link_key link.source_id link.target_id) links ≡ true

has_keys :
    (links : JsMap Text PacketNetworkLink)
    → All (λ (entry : Text × PacketNetworkLink). JsMap.has entry.0 links ≡ true) links
unfolding JsMap.get
has_keys [] = tt
has_keys ((key, link) ∷ links) = (
  rw (eq_refl key) refl,
  All_imp _ _ links (λ (entry : Text × PacketNetworkLink) h. ground arith) (has_keys links),
)

rebuild_neighbors-AreLinkedBy :
    (all links : JsMap Text PacketNetworkLink) (neighbor_ids : JsMap Text (List Text))
    → All (IsFound all) links
    → AreLinkedBy all neighbor_ids
    → AreLinkedBy all (rebuild_neighbors neighbor_ids links)
unfolding rebuild_neighbors
rebuild_neighbors-AreLinkedBy all [] neighbor_ids h linked = linked
rebuild_neighbors-AreLinkedBy all ((key, link) ∷ links) neighbor_ids h linked =
    rebuild_neighbors-AreLinkedBy all links
      (upsert_neighbor link.source_id link.target_id neighbor_ids) h.1
      (upsert_neighbor-AreLinkedBy link.source_id link.target_id all all neighbor_ids linked
        (λ key p. p) h.0)

found :
    (nodes : JsMap Text PacketNetworkNode) (links : JsMap Text PacketNetworkLink)
    → All (IsLinkOf nodes) links
    → All (IsFound links) links
found nodes links h =
    All_imp _ _ links (λ (entry : Text × PacketNetworkLink) p. rw (p.0.0) p.1)
      (All_both (IsLinkOf nodes)
        (λ (entry : Text × PacketNetworkLink). JsMap.has entry.0 links ≡ true) links h
        (has_keys links))

no_neighbors : (links : JsMap Text PacketNetworkLink) → AreLinkedBy links []
unfolding JsMap.get contains
no_neighbors links a b h = absurd (cc)

own_kept :
    (cutoff : ℕ) (state : PacketNetworkState)
    → HasNode state.nodes self_id
    → HasNode (keep (survives cutoff) state.nodes) self_id
own_kept cutoff state own = elim (Option-cases (JsMap.get self_id state.nodes)) [
  | inl q ↦ absurd (cc)
  | inr (node, q) ↦ rw (get-keep cutoff self_id state.nodes node q refl) refl
]

swept-IsNetwork :
    (cutoff : ℕ) (state : PacketNetworkState) → IsNetwork state → IsNetwork (swept cutoff state)
swept-IsNetwork cutoff state (own, keyed, links, observations, linked) =
    let nodes : JsMap Text PacketNetworkNode = keep (survives cutoff) state.nodes in
    let ends : Text × PacketNetworkLink → Bool = has_endpoints nodes in
    let links' : All (IsLinkOf nodes) (keep ends state.links) =
      All_imp _ _ (keep ends state.links)
        (λ (entry : Text × PacketNetworkLink) p. (p.0.0, ground arith, ground arith))
        (All_both _ _ (keep ends state.links)
          (All-keep (IsLinkOf state.nodes) ends state.links links) (keep_holds ends state.links)) in
    (
      own_kept cutoff state own,
      All-keep IsKeyed (survives cutoff) state.nodes keyed,
      links',
      All_imp _ _ (keep (has_nodes nodes) state.observations)
          (λ o p. every-All (λ id. JsMap.has id nodes) o.nodes p)
          (keep_holds (has_nodes nodes) state.observations),
      rebuild_neighbors-AreLinkedBy (keep ends state.links) (keep ends state.links) []
          (found nodes (keep ends state.links) links') (no_neighbors (keep ends state.links)),
    )

prune-IsNetwork :
    (cutoff : ℕ) (state : PacketNetworkState)
    → IsNetwork state
    → IsNetwork (prune_packet_network_state cutoff state).0
prune-IsNetwork cutoff state v = elim (Bool-cases (every (survives cutoff) state.nodes)) [
  | inl all ↦ rw (prune_unchanged cutoff state all) v
  | inr old ↦ rw (prune_sweeps cutoff state old) (swept-IsNetwork cutoff state v)
]

pub create-IsNetwork :
    (now : ℕ) (self_name : Text) → IsNetwork (create_packet_network_state now self_name)
unfolding create_packet_network_state JsMap.get
create-IsNetwork now self_name = (refl, (refl, tt), tt, tt, no_neighbors [])

clear-IsNetwork :
    (now : ℕ) (self_name : Text) (state : PacketNetworkState)
    → IsNetwork (clear_packet_network_state now self_name state)
unfolding clear_packet_network_state JsMap.get
clear-IsNetwork now self_name state = (refl, (refl, tt), tt, tt, no_neighbors [])

set_node-IsNetwork :
    (id : Text) (node : PacketNetworkNode) (state : PacketNetworkState)
    → (All IsKeyed state.nodes → node.id ≡ id)
    → IsNetwork state
    → IsNetwork (record state { nodes = JsMap.set id node state.nodes })
set_node-IsNetwork id node state keyed v =
    Extends-IsNetwork state (record state { nodes = JsMap.set id node state.nodes })
      (set_node-Extends id node state keyed).0 v

ensure-IsNetwork :
    (now : ℕ) (self_name : Text) (state : PacketNetworkState)
    → IsNetwork state
    → IsNetwork (ensure_self_node now self_name state)
unfolding ensure_self_node
ensure-IsNetwork now self_name state v = elim (Option-cases (JsMap.get self_id state.nodes)) [
  | inl q ↦
      rw (q, ensure_self_node)
        (set_node-IsNetwork self_id (new_self_node now self_name) state (λ h. refl) v)
  | inr (existing, q) ↦
      rw (q, ensure_self_node)
        (set_node-IsNetwork self_id (record existing { name = some self_name }) state
          (λ h. get-All IsKeyed self_id existing state.nodes h q) v)
]

-- The calls that the client makes of the network, with the clock and the order of `localeCompare`.
pub data NetworkCall : Type 0 where
  ensure_self : ℕ → Text → NetworkCall
  clear : ℕ → Text → NetworkCall
  prune : ℕ → NetworkCall
  ingest :
      (Text → Text → Bool)
      → ℕ
      → PacketNetworkContext
      → Option ParsedPacket
      → RawPacket
      → NetworkCall

abbrev pub perform : NetworkCall → PacketNetworkState → PacketNetworkState
perform (ensure_self now self_name) state = ensure_self_node now self_name state
perform (clear now self_name) state = clear_packet_network_state now self_name state
perform (prune cutoff) state = (prune_packet_network_state cutoff state).0
perform (ingest locale_before now context parsed packet) state =
    (ingest_packet_into_packet_network locale_before now context parsed packet state).0

-- The state after some calls, from the state that is created.
abbrev pub run : PacketNetworkState → List NetworkCall → PacketNetworkState
run state [] = state
run state (call ∷ calls) = run (perform call state) calls

perform-IsNetwork :
    (call : NetworkCall) (state : PacketNetworkState)
    → IsNetwork state
    → IsNetwork (perform call state)
perform-IsNetwork (ensure_self now self_name) state v = ensure-IsNetwork now self_name state v
perform-IsNetwork (clear now self_name) state v = clear-IsNetwork now self_name state
perform-IsNetwork (prune cutoff) state v = prune-IsNetwork cutoff state v
perform-IsNetwork (ingest locale_before now context parsed packet) state v =
    ingest-IsNetwork locale_before now context parsed packet state v

calls-IsNetwork :
    (calls : List NetworkCall) (state : PacketNetworkState)
    → IsNetwork state
    → IsNetwork (run state calls)
calls-IsNetwork [] state v = v
calls-IsNetwork (call ∷ calls) state v =
    calls-IsNetwork calls (perform call state) (perform-IsNetwork call state v)

-- After any calls of the network from its creation, its own node is there, nodes and links stand
-- under their keys, links and observations name nodes that are there, and neighbours are mutual and
-- linked.
pub run-IsNetwork :
    (now : ℕ) (self_name : Text) (calls : List NetworkCall)
    → IsNetwork (run (create_packet_network_state now self_name) calls)
run-IsNetwork now self_name calls = calls-IsNetwork calls _ (create-IsNetwork now self_name)
