-- ===== src/Network/Graph.antt =====
-- The state of the packet network and its elementary changes
-- (frontend/src/networkGraph/packetNetworkGraph.ts).
pub mod Edges
pub mod Validity
use remoteterm_meshcore.Prelude.{
  ℕ, Bool, true, false, Option, none, some, List, [], ◌∷◌, Text, codes, max, get_or, or_else,
  is_some, nat_eq, list_eq, if◌then◌else◌, ◌==◌, insert,
}
use remoteterm_meshcore.Prelude.JsMap
use remoteterm_meshcore.Prelude.JsMap.{JsMap}
use remoteterm_meshcore.Network.Steps.{NodeType, self, truthy, build_link_key}
use remoteterm_meshcore.Network.Traffic.{RepeaterTrafficData}

-- A field that is `undefined` is `none`, one that is null is `some none`.
pub record PacketNetworkNode : Type 0 where
  pub id : Text
  pub name : Option Text
  pub kind : NodeType
  pub is_ambiguous : Bool
  pub last_activity : ℕ
  pub last_activity_reason : Option Text
  pub last_seen : Option (Option ℕ)
  pub probable_identity : Option (Option Text)
  pub probable_identity_node_id : Option (Option Text)
  pub ambiguous_names : Option (List Text)

pub record PacketNetworkLink : Type 0 where
  pub last_activity : ℕ
  pub source_id : Text
  pub target_id : Text

pub record PacketNetworkObservation : Type 0 where
  pub activity_at_ms : ℕ
  pub nodes : List Text

pub record PacketNetworkState : Type 0 where
  pub links : JsMap Text PacketNetworkLink
  pub neighbor_ids : JsMap Text (List Text)
  pub nodes : JsMap Text PacketNetworkNode
  pub observations : List PacketNetworkObservation
  pub traffic_patterns : JsMap Text RepeaterTrafficData

abbrev pub self_id : Text
self_id = codes "self"

abbrev pub new_self_node : ℕ → Text → PacketNetworkNode
new_self_node now self_name = record {
  id = self_id;
  name = some self_name;
  kind = self;
  is_ambiguous = false;
  last_activity = now;
  last_activity_reason = none;
  last_seen = none;
  probable_identity = none;
  probable_identity_node_id = none;
  ambiguous_names = none;
}

unfoldable pub create_packet_network_state : ℕ → Text → PacketNetworkState
create_packet_network_state now self_name = record {
  nodes = (self_id, new_self_node now self_name) ∷ [];
  links = [];
  neighbor_ids = [];
  observations = [];
  traffic_patterns = [];
}

unfoldable pub ensure_self_node : ℕ → Text → PacketNetworkState → PacketNetworkState
ensure_self_node now self_name state = elim (JsMap.get self_id state.nodes) [
  | none ↦ record state { nodes = JsMap.set self_id (new_self_node now self_name) state.nodes }
  | some existing ↦ record state {
    nodes = JsMap.set self_id (record existing { name = some self_name }) state.nodes;
  }
]

-- The last test of the source writes the name that is already there.
unfoldable pub clear_packet_network_state : ℕ → Text → PacketNetworkState → PacketNetworkState
clear_packet_network_state now self_name state = record {
  links = [];
  neighbor_ids = [];
  observations = [];
  traffic_patterns = [];
  nodes = (self_id, record (new_self_node now self_name) { last_seen = some none }) ∷ [];
}

-- The argument of `addOrUpdateNode`.
pub record NodeUpdate : Type 0 where
  pub activity_at_ms : ℕ
  pub ambiguous_names : Option (List Text)
  pub id : Text
  pub is_ambiguous : Bool
  pub last_seen : Option (Option ℕ)
  pub name : Option Text
  pub probable_identity : Option (Option Text)
  pub probable_identity_node_id : Option (Option Text)
  pub kind : NodeType

abbrev pub updated_node : PacketNetworkNode → NodeUpdate → PacketNetworkNode
updated_node existing u = record existing {
  last_activity = max existing.last_activity u.activity_at_ms;
  name = or_else (elim u.name [ none ↦ none | some name ↦ truthy name ]) existing.name;
  probable_identity = or_else u.probable_identity existing.probable_identity;
  probable_identity_node_id =
      or_else u.probable_identity_node_id existing.probable_identity_node_id;
  ambiguous_names = or_else u.ambiguous_names existing.ambiguous_names;
  last_seen = or_else u.last_seen existing.last_seen;
}

abbrev pub new_node : NodeUpdate → PacketNetworkNode
new_node u = record {
  id = u.id;
  name = u.name;
  kind = u.kind;
  is_ambiguous = u.is_ambiguous;
  last_activity = u.activity_at_ms;
  last_activity_reason = none;
  last_seen = u.last_seen;
  probable_identity = u.probable_identity;
  probable_identity_node_id = u.probable_identity_node_id;
  ambiguous_names = u.ambiguous_names;
}

unfoldable pub add_or_update_node : NodeUpdate → PacketNetworkState → PacketNetworkState
add_or_update_node u state = elim (JsMap.get u.id state.nodes) [
  | none ↦ record state { nodes = JsMap.set u.id (new_node u) state.nodes }
  | some existing ↦ record state { nodes = JsMap.set u.id (updated_node existing u) state.nodes }
]

unfoldable pub add_canonical_link : Text → Text → ℕ → PacketNetworkState → PacketNetworkState
add_canonical_link source_id target_id activity_at_ms state =
    let key = build_link_key source_id target_id in
    elim (JsMap.get key state.links) [
      | none ↦ record state {
        links =
            JsMap.set key
              (record {
                source_id = source_id;
                target_id = target_id;
                last_activity = activity_at_ms;
              })
              state.links;
      }
      | some existing ↦ record state {
        links =
            JsMap.set key
              (record existing { last_activity = max existing.last_activity activity_at_ms })
              state.links;
      }
    ]

-- `ensureSet(id).add(other)`
abbrev pub add_neighbor : Text → Text → JsMap Text (List Text) → JsMap Text (List Text)
add_neighbor id other neighbor_ids =
    JsMap.set id (insert other (get_or (JsMap.get id neighbor_ids) [])) neighbor_ids

unfoldable pub upsert_neighbor : Text → Text → JsMap Text (List Text) → JsMap Text (List Text)
upsert_neighbor source_id target_id neighbor_ids =
    add_neighbor target_id source_id (add_neighbor source_id target_id neighbor_ids)
