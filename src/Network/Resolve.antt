-- ===== src/Network/Resolve.antt =====
-- `resolveNode` of frontend/src/networkGraph/packetNetworkGraph.ts. The order of `localeCompare` is a
-- parameter.
pub mod Laws
use remoteterm_meshcore.Prelude.{
  ℕ, suc, ◌+◌, ◌*◌, Bool, true, false, not, ◌&&◌, ◌||◌, Option, none, some, List, [], ◌∷◌, ◌++◌,
  Text, codes, take, length, keep, ltb, leb, get_or, is_some, nat_eq, list_eq, option_eq,
  to_lower_case, to_upper_case, if◌then◌else◌, ◌==◌,
}
use remoteterm_meshcore.Prelude.JsMap
use remoteterm_meshcore.Prelude.JsMap.{JsMap}
use remoteterm_meshcore.Prelude.Sort.{sort}
use remoteterm_meshcore.Data.{Contact, ContactAdvertPath, contact_type_repeater}
use remoteterm_meshcore.Network.Steps.{
  NodeType, repeater, client, truthy, get_node_type, build_ambiguous_repeater_node_id,
  build_ambiguous_repeater_label,
}
use remoteterm_meshcore.Network.Traffic.{record_traffic_observation, analyze_repeater_traffic}
use remoteterm_meshcore.Network.Graph.{PacketNetworkState, NodeUpdate, add_or_update_node, self_id}
use remoteterm_meshcore.Network.Context.{PacketNetworkContext, prefix12}
use remoteterm_meshcore.Network.Guess.{
  TrafficContext, Guess, name_or_key, names_or_keys, latest_seen, some_names, guess_by_advert_path,
  split_by_traffic,
}

pub data SourceType : Type 0 where
  prefix pubkey name : SourceType

-- `addOrUpdateNode` for a contact that is known.
abbrev pub known_node : ℕ → Text → Contact → NodeUpdate
known_node activity_at_ms node_id contact = record {
  id = node_id;
  name = contact.name;
  kind = get_node_type (some contact);
  is_ambiguous = false;
  last_seen = some contact.last_seen;
  activity_at_ms = activity_at_ms;
  ambiguous_names = none;
  probable_identity = none;
  probable_identity_node_id = none;
}

abbrev pub unknown_node : ℕ → Text → Option Text → NodeUpdate
unknown_node activity_at_ms node_id given = record {
  id = node_id;
  name = given;
  kind = client;
  is_ambiguous = false;
  last_seen = none;
  activity_at_ms = activity_at_ms;
  ambiguous_names = none;
  probable_identity = none;
  probable_identity_node_id = none;
}

-- Adds a known contact, unless it is our own node.
abbrev pub visit_contact :
    PacketNetworkContext → ℕ → Contact → PacketNetworkState → PacketNetworkState × Option Text
visit_contact context activity_at_ms contact state =
    if some (prefix12 contact.public_key) == context.my_prefix then (state, some self_id) else (
      add_or_update_node (known_node activity_at_ms (prefix12 contact.public_key) contact) state,
      some (prefix12 contact.public_key),
    )

abbrev pub the_contact : List Contact → Option Contact
the_contact (contact ∷ []) = some contact
the_contact _ = none

-- `contact?.name || null`
abbrev contact_name : Contact → Option Text
contact_name contact = elim contact.name [ none ↦ none | some given ↦ truthy given ]

unfoldable pub resolve_pubkey :
    PacketNetworkContext → ℕ → Text → PacketNetworkState → PacketNetworkState × Option Text
resolve_pubkey context activity_at_ms value state =
    if ltb (length value) 12
    then (state, none)
    else if some (prefix12 value) == context.my_prefix
    then (state, some self_id)
    else (
      add_or_update_node
          (elim (JsMap.get (prefix12 value) context.contact_index.by_prefix12) [
            | none ↦ unknown_node activity_at_ms (prefix12 value) none
            | some contact ↦ record (known_node activity_at_ms (prefix12 value) contact) {
              name = contact_name contact;
            }
          ])
          state,
      some (prefix12 value),
    )

unfoldable pub resolve_name :
    PacketNetworkContext → ℕ → Text → PacketNetworkState → PacketNetworkState × Option Text
resolve_name context activity_at_ms value state =
    elim (JsMap.get value context.contact_index.by_name) [
      | some contact ↦ visit_contact context activity_at_ms contact state
      | none ↦ (
        add_or_update_node (unknown_node activity_at_ms (codes "name:" ++ value) (some value))
            state,
        some (codes "name:" ++ value),
      )
    ]

module _ (locale_before : Text → Text → Bool) (now : ℕ) (context : PacketNetworkContext) where
  -- The hop stands for several contacts, or for a repeater that is not known.
  unfoldable pub resolve_ambiguous :
      ℕ
      → Text
      → List Contact
      → Bool
      → Option TrafficContext
      → PacketNetworkState
      → PacketNetworkState × Option Text
  unfolding guess_by_advert_path split_by_traffic latest_seen
  resolve_ambiguous activity_at_ms lookup_value filtered is_repeater traffic_context state =
      let plain : Guess = record {
        node_id = build_ambiguous_repeater_node_id lookup_value none;
        display_name = build_ambiguous_repeater_label lookup_value none;
        probable_identity = none;
        probable_identity_node_id = none;
        ambiguous_names = some_names (names_or_keys 8 filtered);
      } in
      let hinted : Guess = elim traffic_context [
        | none ↦ plain
        | some traffic ↦
            if context.use_advert_path_hints && is_repeater
            then guess_by_advert_path locale_before context filtered traffic plain
            else plain
      ] in
      let split : PacketNetworkState × Guess = elim traffic_context [
        | none ↦ (state, hinted)
        | some traffic ↦
            if context.split_ambiguous_by_traffic && is_repeater
            then split_by_traffic now lookup_value traffic hinted state
            else (state, hinted)
      ] in
      let guess = split.1 in
      (
        add_or_update_node
            (record {
              id = guess.node_id;
              name = some guess.display_name;
              kind = if is_repeater then repeater else client;
              is_ambiguous = true;
              probable_identity = some guess.probable_identity;
              probable_identity_node_id = some guess.probable_identity_node_id;
              ambiguous_names = guess.ambiguous_names;
              last_seen = some (latest_seen none filtered);
              activity_at_ms = activity_at_ms;
            })
            split.0,
        some guess.node_id,
      )

  -- The part of the `prefix` case for hops with no single contact.
  abbrev pub resolve_filtered :
      ℕ
      → Text
      → List Contact
      → Bool
      → Option TrafficContext
      → PacketNetworkState
      → PacketNetworkState × Option Text
  resolve_filtered activity_at_ms lookup_value [] false traffic_context state = (state, none)
  resolve_filtered activity_at_ms lookup_value (only ∷ []) is_repeater traffic_context state = (
    add_or_update_node (known_node activity_at_ms (prefix12 only.public_key) only) state,
    some (prefix12 only.public_key),
  )
  resolve_filtered activity_at_ms lookup_value filtered is_repeater traffic_context state =
      resolve_ambiguous activity_at_ms lookup_value filtered is_repeater traffic_context state

  -- The candidates: repeaters for a hop, others for a sender.
  abbrev pub candidates : Bool → List Contact → List Contact
  candidates true matches = keep (λ (c : Contact). c.kind == contact_type_repeater) matches
  candidates false matches = keep (λ (c : Contact). not (c.kind == contact_type_repeater)) matches

  unfoldable pub resolve_prefix :
      ℕ
      → Text
      → Bool
      → Bool
      → Option TrafficContext
      → PacketNetworkState
      → PacketNetworkState × Option Text
  unfolding resolve_ambiguous
  resolve_prefix activity_at_ms value is_repeater show_ambiguous traffic_context state =
      let lookup_value = to_lower_case value in
      let matches = get_or (JsMap.get lookup_value context.contact_index.by_prefix) [] in
      elim (the_contact matches) [
        | some contact ↦ visit_contact context activity_at_ms contact state
        | none ↦
            if show_ambiguous
            then resolve_filtered activity_at_ms lookup_value (candidates is_repeater matches)
                is_repeater traffic_context state
            else (state, none)
      ]

  unfoldable pub resolve_node :
      SourceType
      → Text
      → Bool
      → Bool
      → ℕ
      → Option TrafficContext
      → PacketNetworkState
      → PacketNetworkState × Option Text
  unfolding resolve_pubkey resolve_name resolve_prefix
  resolve_node pubkey value is_repeater show_ambiguous activity_at_ms traffic_context state =
      resolve_pubkey context activity_at_ms value state
  resolve_node name value is_repeater show_ambiguous activity_at_ms traffic_context state =
      resolve_name context activity_at_ms value state
  resolve_node prefix value is_repeater show_ambiguous activity_at_ms traffic_context state =
      resolve_prefix activity_at_ms value is_repeater show_ambiguous traffic_context state
