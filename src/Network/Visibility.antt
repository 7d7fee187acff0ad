-- ===== src/Network/Visibility.antt =====
-- Which nodes are shown, and the known repeaters that stand for ambiguous ones:
-- `isPacketNetworkNodeVisible` and `buildKnownSiblingRepeaterAliasMap` of
-- frontend/src/networkGraph/packetNetworkGraph.ts.
use remoteterm_meshcore.Prelude.{
  Bool, true, false, not, ◌||◌, Option, none, some, List, [], ◌∷◌, Text, get_or, nat_eq, list_eq,
  if◌then◌else◌, ◌==◌, contains, insert,
}
use remoteterm_meshcore.Prelude.JsMap
use remoteterm_meshcore.Prelude.JsMap.{JsMap}
use remoteterm_meshcore.Network.Steps.{NodeType, self, repeater, client, truthy}
use remoteterm_meshcore.Network.Graph.{
  PacketNetworkNode, PacketNetworkObservation, PacketNetworkState, self_id,
}

pub record PacketNetworkVisibilityOptions : Type 0 where
  pub show_ambiguous_nodes : Bool
  pub show_ambiguous_paths : Bool
  pub collapse_likely_known_sibling_repeaters : Bool

abbrev pub is_repeater : NodeType → Bool
is_repeater repeater = true
is_repeater self = false
is_repeater client = false

unfoldable pub is_packet_network_node_visible :
    PacketNetworkVisibilityOptions → Option PacketNetworkNode → Bool
is_packet_network_node_visible visibility none = false
is_packet_network_node_visible visibility (some node) =
    if node.id == self_id
    then true
    else if not node.is_ambiguous
    then true
    else if is_repeater node.kind
    then visibility.show_ambiguous_paths
    else visibility.show_ambiguous_nodes

-- The next hops of the known repeaters on one path.
unfoldable pub path_next_hops :
    JsMap Text PacketNetworkNode → JsMap Text (List Text) → List Text → JsMap Text (List Text)
path_next_hops nodes next_hops [] = next_hops
path_next_hops nodes next_hops (a ∷ []) = next_hops
path_next_hops nodes next_hops (a ∷ b ∷ path) =
    path_next_hops nodes
      (elim (JsMap.get a nodes) [
        | none ↦ next_hops
        | some node ↦
            if not (is_repeater node.kind) || node.is_ambiguous
            then next_hops
            else JsMap.set node.id (insert b (get_or (JsMap.get node.id next_hops) [])) next_hops
      ])
      (b ∷ path)

unfoldable pub known_repeater_next_hops :
    JsMap Text PacketNetworkNode
    → JsMap Text (List Text)
    → List PacketNetworkObservation
    → JsMap Text (List Text)
unfolding path_next_hops
known_repeater_next_hops nodes next_hops [] = next_hops
known_repeater_next_hops nodes next_hops (observation ∷ observations) =
    known_repeater_next_hops nodes (path_next_hops nodes next_hops observation.nodes) observations

-- `currentNode.probableIdentityNodeId`, if it is neither undefined, null nor empty
abbrev probable_id : PacketNetworkNode → Option Text
probable_id node = elim node.probable_identity_node_id [
  | none ↦ none
  | some o ↦ elim o [ none ↦ none | some id ↦ truthy id ]
]

-- The known repeater that an ambiguous repeater on the way to `next` is probably.
unfoldable pub sibling_alias :
    JsMap Text PacketNetworkNode → JsMap Text (List Text) → Text → Text → Option Text
sibling_alias nodes next_hops id next = elim (JsMap.get id nodes) [
  | none ↦ none
  | some node ↦
      if not (is_repeater node.kind) || not node.is_ambiguous
      then none
      else elim (probable_id node) [
        | none ↦ none
        | some probable ↦ elim (JsMap.get probable nodes) [
          | none ↦ none
          | some known ↦
              if not (is_repeater known.kind) || known.is_ambiguous
              then none
              else if contains (get_or (JsMap.get known.id next_hops) []) next
              then some known.id
              else none
        ]
      ]
]

unfoldable pub path_aliases :
    JsMap Text PacketNetworkNode
    → JsMap Text (List Text)
    → JsMap Text Text
    → List Text
    → JsMap Text Text
unfolding sibling_alias
path_aliases nodes next_hops aliases [] = aliases
path_aliases nodes next_hops aliases (a ∷ []) = aliases
path_aliases nodes next_hops aliases (a ∷ b ∷ path) =
    path_aliases nodes next_hops
      (elim (sibling_alias nodes next_hops a b) [
        | none ↦ aliases
        | some known ↦ JsMap.set a known aliases
      ])
      (b ∷ path)

unfoldable pub all_aliases :
    JsMap Text PacketNetworkNode
    → JsMap Text (List Text)
    → JsMap Text Text
    → List PacketNetworkObservation
    → JsMap Text Text
unfolding path_aliases
all_aliases nodes next_hops aliases [] = aliases
all_aliases nodes next_hops aliases (observation ∷ observations) =
    all_aliases nodes next_hops (path_aliases nodes next_hops aliases observation.nodes)
      observations

unfoldable pub build_known_sibling_repeater_alias_map :
    PacketNetworkState → PacketNetworkVisibilityOptions → JsMap Text Text
unfolding known_repeater_next_hops all_aliases
build_known_sibling_repeater_alias_map state visibility =
    if not visibility.collapse_likely_known_sibling_repeaters || not visibility.show_ambiguous_paths
    then []
    else all_aliases state.nodes (known_repeater_next_hops state.nodes [] state.observations) []
        state.observations
