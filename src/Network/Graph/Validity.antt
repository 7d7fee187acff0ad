-- ===== src/Network/Graph/Validity.antt =====
-- When the network's state is well formed, and the changes that only add or update nodes.
use remoteterm_meshcore.Prelude.{
  ◌≡◌, refl, ◌∙◌, inl, inr, Bool, true, Option, none, some, List, [], Text, All, All_imp, nat_eq,
  list_eq, Option-cases, get_or, contains,
}
use remoteterm_meshcore.Prelude.JsMap
use remoteterm_meshcore.Prelude.JsMap.{JsMap}
use remoteterm_meshcore.Prelude.JsMap.Entries.{set-All, get-All, has-set_self, has-set_other}
use remoteterm_meshcore.Network.Steps.{build_link_key}
use remoteterm_meshcore.Network.Graph.{
  PacketNetworkNode, PacketNetworkLink, PacketNetworkObservation, PacketNetworkState, NodeUpdate,
  add_or_update_node, new_node, updated_node, self_id,
}

-- The node `id` is there.
abbrev pub HasNode : JsMap Text PacketNetworkNode → Text → Type 0
HasNode nodes id = JsMap.has id nodes ≡ true

-- A node stands under its own id.
abbrev pub IsKeyed : Text × PacketNetworkNode → Type 0
IsKeyed (id, node) = node.id ≡ id

-- A link stands under the key of its ends, which are nodes.
abbrev pub IsLinkOf : JsMap Text PacketNetworkNode → Text × PacketNetworkLink → Type 0
IsLinkOf nodes (key, link) =
    (build_link_key link.source_id link.target_id ≡ key)
    × HasNode nodes link.source_id
    × HasNode nodes link.target_id

abbrev pub IsObservationOf : JsMap Text PacketNetworkNode → PacketNetworkObservation → Type 0
IsObservationOf nodes observation = All (HasNode nodes) observation.nodes

-- `b` is recorded as a neighbour of `a`.
abbrev pub neighbors : JsMap Text (List Text) → Text → Text → Bool
neighbors neighbor_ids a b = contains (get_or (JsMap.get a neighbor_ids) []) b

-- Neighbours are mutual, and there is a link between them.
abbrev pub AreLinked : PacketNetworkState → Type 0
AreLinked state =
    (a b : Text)
    → neighbors state.neighbor_ids a b ≡ true
    → (neighbors state.neighbor_ids b a ≡ true)
      × (JsMap.has (build_link_key a b) state.links ≡ true)

-- Our own node is there, nodes and links stand under their keys, links and observations name nodes
-- that are there, and neighbours are mutual and linked.
abbrev pub IsNetwork : PacketNetworkState → Type 0
IsNetwork state =
    HasNode state.nodes self_id
    × All IsKeyed state.nodes
    × All (IsLinkOf state.nodes) state.links
    × All (IsObservationOf state.nodes) state.observations
    × AreLinked state

-- A change that adds or updates nodes and may record traffic, and leaves the rest.
abbrev pub Extends : PacketNetworkState → PacketNetworkState → Type 0
Extends before after =
    (after.links ≡ before.links)
    × (after.neighbor_ids ≡ before.neighbor_ids)
    × (after.observations ≡ before.observations)
    × ((id : Text) → HasNode before.nodes id → HasNode after.nodes id)
    × (All IsKeyed before.nodes → All IsKeyed after.nodes)

pub Extends-refl : (state : PacketNetworkState) → Extends state state
Extends-refl state = (refl, refl, refl, λ id h. h, λ h. h)

pub Extends-trans : (a b c : PacketNetworkState) → Extends a b → Extends b c → Extends a c
Extends-trans a b c (l, n, o, h, k) (l', n', o', h', k') =
    (l' ∙ l, n' ∙ n, o' ∙ o, λ id p. h' id (h id p), λ p. k' (k p))

pub Extends-IsNetwork :
    (before after : PacketNetworkState) → Extends before after → IsNetwork before → IsNetwork after
Extends-IsNetwork before after (l, n, o, h, k) (own, keyed, links, observations, linked) = (
  h self_id own,
  k keyed,
  rw l (
      All_imp (IsLinkOf before.nodes) (IsLinkOf after.nodes) before.links
        (λ entry p. (p.0, h entry.1.source_id p.1, h entry.1.target_id p.2)) links),
  rw o (
      All_imp (IsObservationOf before.nodes) (IsObservationOf after.nodes) before.observations
        (λ obs p. All_imp (HasNode before.nodes) (HasNode after.nodes) obs.nodes h p) observations),
  rw (n, l) linked,
)

pub set_node-Extends :
    (id : Text) (node : PacketNetworkNode) (state : PacketNetworkState)
    → (All IsKeyed state.nodes → node.id ≡ id)
    → Extends state (record state { nodes = JsMap.set id node state.nodes })
      × HasNode (JsMap.set id node state.nodes) id
set_node-Extends id node state keyed = (
  (
    refl,
    refl,
    refl,
    λ j h. has-set_other id j node state.nodes h,
    λ h. set-All IsKeyed id node state.nodes (keyed h) h,
  ),
  has-set_self id node state.nodes,
)

pub add_or_update_node-Extends :
    (u : NodeUpdate) (state : PacketNetworkState)
    → Extends state (add_or_update_node u state) × HasNode (add_or_update_node u state).nodes u.id
unfolding add_or_update_node
add_or_update_node-Extends u state = elim (Option-cases (JsMap.get u.id state.nodes)) [
  | inl q ↦ rw (q, add_or_update_node) (set_node-Extends u.id (new_node u) state (λ h. refl))
  | inr (existing, q) ↦
      rw (q, add_or_update_node)
        (set_node-Extends u.id (updated_node existing u) state
          (λ h. get-All IsKeyed u.id existing state.nodes h q))
]

-- A resolved id is the id of a node.
abbrev pub Present : Option Text → JsMap Text PacketNetworkNode → Type 0
Present none nodes = Unit
Present (some id) nodes = HasNode nodes id

-- The result of a resolution: the state only grows, and the id is that of a node if our own is.
abbrev pub IsResolved : PacketNetworkState → PacketNetworkState × Option Text → Type 0
IsResolved state (state', id) =
    Extends state state' × (HasNode state.nodes self_id → Present id state'.nodes)

pub unresolved : (state : PacketNetworkState) → IsResolved state (state, none)
unresolved state = (Extends-refl state, λ h. tt)

pub IsResolved-self : (state : PacketNetworkState) → IsResolved state (state, some self_id)
IsResolved-self state = (Extends-refl state, λ h. h)

pub IsResolved-node :
    (u : NodeUpdate) (state : PacketNetworkState)
    → IsResolved state (add_or_update_node u state, some u.id)
IsResolved-node u state = let p = add_or_update_node-Extends u state in (p.0, λ h. p.1)

pub IsResolved-after :
    (u : NodeUpdate) (state state' : PacketNetworkState)
    → Extends state state'
    → IsResolved state (add_or_update_node u state', some u.id)
IsResolved-after u state state' grown =
    let p = add_or_update_node-Extends u state' in
    (Extends-trans state state' (add_or_update_node u state') grown p.0, λ h. p.1)
