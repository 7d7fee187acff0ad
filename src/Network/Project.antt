-- ===== src/Network/Project.antt =====
-- What is drawn of the network: `projectCanonicalPath` and `projectPacketNetwork` of
-- frontend/src/networkGraph/packetNetworkGraph.ts.
pub mod Laws
use remoteterm_meshcore.Prelude.{
  ℕ, zero, suc, ◌+◌, Bool, true, false, not, ◌&&◌, ◌||◌, Option, none, some, List, [], ◌∷◌, ◌++◌,
  Text, length, max, ltb, get_or, is_some, nat_eq, list_eq, if◌then◌else◌, ◌==◌, contains, insert,
}
use remoteterm_meshcore.Prelude.JsMap
use remoteterm_meshcore.Prelude.JsMap.{JsMap}
use remoteterm_meshcore.Network.Steps.{
  NodeType, self, repeater, client, PathStep, Compaction, build_link_key, dedupe_consecutive,
  compact_path_steps, add_labels, truthy,
}
use remoteterm_meshcore.Network.Graph.{
  PacketNetworkNode, PacketNetworkObservation, PacketNetworkState, self_id,
}
use remoteterm_meshcore.Network.Visibility.{
  PacketNetworkVisibilityOptions, is_repeater, is_packet_network_node_visible,
  build_known_sibling_repeater_alias_map,
}

pub record ProjectedPacketNetworkLink : Type 0 where
  pub last_activity : ℕ
  pub source_id : Text
  pub target_id : Text
  pub has_direct_observation : Bool
  pub has_hidden_intermediate : Bool
  pub hidden_hop_labels : List Text

pub record PacketNetworkProjection : Type 0 where
  pub links : JsMap Text ProjectedPacketNetworkLink
  pub nodes : JsMap Text PacketNetworkNode
  pub rendered_node_ids : List Text

-- One step of the path; `inner` is `index > 0 && index < canonicalPath.length - 1`.
unfoldable pub project_step :
    PacketNetworkState → PacketNetworkVisibilityOptions → JsMap Text Text → Bool → Text → PathStep
unfolding is_packet_network_node_visible
project_step state visibility aliases inner node_id =
    let node = JsMap.get node_id state.nodes in
    let visible = is_packet_network_node_visible visibility node in
    record {
      node_id = if visible then some (get_or (JsMap.get node_id aliases) node_id) else none;
      mark_hidden_link_when_omitted =
          not visible && elim node [ none ↦ false | some n ↦ is_repeater n.kind ] && inner;
      hidden_label = none;
    }

-- The steps after the first.
unfoldable pub project_rest :
    PacketNetworkState
    → PacketNetworkVisibilityOptions
    → JsMap Text Text
    → List Text
    → List PathStep
unfolding project_step
project_rest state visibility aliases [] = []
project_rest state visibility aliases (a ∷ []) = project_step state visibility aliases false a ∷ []
project_rest state visibility aliases (a ∷ b ∷ path) =
    project_step state visibility aliases true a ∷ project_rest state visibility aliases (b ∷ path)

abbrev pub path_steps :
    PacketNetworkState
    → PacketNetworkVisibilityOptions
    → JsMap Text Text
    → List Text
    → List PathStep
path_steps state visibility aliases [] = []
path_steps state visibility aliases (a ∷ path) =
    project_step state visibility aliases false a ∷ project_rest state visibility aliases path

pub record ProjectedPacketNetworkPath : Type 0 where
  pub dashed_link_details : JsMap Text (List Text)
  pub nodes : List Text

unfoldable pub project_canonical_path_with_aliases :
    PacketNetworkState
    → List Text
    → PacketNetworkVisibilityOptions
    → JsMap Text Text
    → ProjectedPacketNetworkPath
unfolding project_rest project_step
project_canonical_path_with_aliases state canonical_path visibility aliases =
    let projected = compact_path_steps (path_steps state visibility aliases canonical_path) in
    record {
      nodes = dedupe_consecutive projected.nodes;
      dashed_link_details = projected.dashed_link_details;
    }

unfoldable pub project_canonical_path :
    PacketNetworkState → List Text → PacketNetworkVisibilityOptions → ProjectedPacketNetworkPath
unfolding project_canonical_path_with_aliases build_known_sibling_repeater_alias_map
project_canonical_path state canonical_path visibility =
    project_canonical_path_with_aliases state canonical_path visibility
      (build_known_sibling_repeater_alias_map state visibility)

-- The nodes of a projected path that exist are drawn.
unfoldable pub draw_nodes :
    JsMap Text PacketNetworkNode
    → JsMap Text PacketNetworkNode
    → List Text
    → JsMap Text PacketNetworkNode
draw_nodes state_nodes nodes [] = nodes
draw_nodes state_nodes nodes (id ∷ path) =
    draw_nodes state_nodes
      (elim (JsMap.get id state_nodes) [ none ↦ nodes | some node ↦ JsMap.set id node nodes ]) path

-- One more observation of a link that is drawn; `dashed` are the labels if a hop of it is hidden.
abbrev pub observe_link :
    ℕ → Option (List Text) → ProjectedPacketNetworkLink → ProjectedPacketNetworkLink
observe_link activity_at_ms none link = record link {
  last_activity = max link.last_activity activity_at_ms;
  has_direct_observation = true;
}
observe_link activity_at_ms (some labels) link = record link {
  last_activity = max link.last_activity activity_at_ms;
  has_hidden_intermediate = true;
  hidden_hop_labels = add_labels link.hidden_hop_labels labels;
}

unfoldable pub draw_links :
    ℕ
    → JsMap Text (List Text)
    → JsMap Text ProjectedPacketNetworkLink
    → List Text
    → JsMap Text ProjectedPacketNetworkLink
draw_links activity_at_ms details links [] = links
draw_links activity_at_ms details links (a ∷ []) = links
draw_links activity_at_ms details links (a ∷ b ∷ path) =
    draw_links activity_at_ms details
      (if a == b
        then links
        else (let key = build_link_key a b in
            let dashed = JsMap.get key details in
            elim (JsMap.get key links) [
              | some existing ↦ JsMap.set key (observe_link activity_at_ms dashed existing) links
              | none ↦
                  JsMap.set key
                    (record {
                      source_id = a;
                      target_id = b;
                      last_activity = activity_at_ms;
                      has_direct_observation = not (is_some dashed);
                      has_hidden_intermediate = is_some dashed;
                      hidden_hop_labels = get_or dashed [];
                    })
                    links
            ]))
      (b ∷ path)

pub record Drawing : Type 0 where
  pub nodes : JsMap Text PacketNetworkNode
  pub links : JsMap Text ProjectedPacketNetworkLink

unfoldable pub draw_observations :
    PacketNetworkState
    → PacketNetworkVisibilityOptions
    → JsMap Text Text
    → Drawing
    → List PacketNetworkObservation
    → Drawing
unfolding draw_nodes draw_links project_canonical_path_with_aliases
draw_observations state visibility aliases drawing [] = drawing
draw_observations state visibility aliases drawing (observation ∷ observations) =
    let projected =
      project_canonical_path_with_aliases state observation.nodes visibility aliases in
    draw_observations state visibility aliases
      (if ltb (length projected.nodes) 2 then drawing else record {
        nodes = draw_nodes state.nodes drawing.nodes projected.nodes;
        links =
            draw_links observation.activity_at_ms projected.dashed_link_details drawing.links
              projected.nodes;
      })
      observations

unfoldable pub project_packet_network :
    PacketNetworkState → PacketNetworkVisibilityOptions → PacketNetworkProjection
unfolding draw_observations build_known_sibling_repeater_alias_map
project_packet_network state visibility =
    let drawing =
      draw_observations state visibility (build_known_sibling_repeater_alias_map state visibility)
        (record {
          nodes = elim (JsMap.get self_id state.nodes) [
            | none ↦ []
            | some node ↦ (self_id, node) ∷ []
          ];
          links = [];
        })
        state.observations in
    record {
      nodes = drawing.nodes;
      links = drawing.links;
      rendered_node_ids = JsMap.keys drawing.nodes;
    }
