-- ===== src/Network/Ingest.antt =====
-- `ingestPacketIntoPacketNetwork` of frontend/src/networkGraph/packetNetworkGraph.ts: the path of a
-- packet through the network, written into the state. Parsing goes through the packet decoder, so
-- the parsed packet is an argument, as are the clock and the order of `localeCompare`.
pub mod Drawing
pub mod Laws
use remoteterm_meshcore.Prelude.{
  ℕ, ◌+◌, ◌*◌, Bool, true, false, not, ◌&&◌, ◌||◌, Option, none, some, List, [], ◌∷◌, ◌++◌, Text,
  codes, length, ltb, leb, get_or, or_else, is_some, nat_eq, list_eq, option_eq, to_lower_case,
  if◌then◌else◌, ◌==◌,
}
use remoteterm_meshcore.Prelude.JsMap
use remoteterm_meshcore.Prelude.JsMap.{JsMap}
use remoteterm_meshcore.Data.{RawPacket}
use remoteterm_meshcore.Network.PayloadType
use remoteterm_meshcore.Network.Steps.{truthy, dedupe_consecutive}
use remoteterm_meshcore.Network.Graph.{
  PacketNetworkNode, PacketNetworkObservation, PacketNetworkState, add_canonical_link,
  upsert_neighbor, self_id,
}
use remoteterm_meshcore.Network.Context.{PacketNetworkContext}
use remoteterm_meshcore.Network.Guess.{TrafficContext}
use remoteterm_meshcore.Network.Resolve.{SourceType, prefix, pubkey, name, resolve_node}

-- `ParsedPacket` of frontend/src/utils/visualizerUtils.ts
pub record ParsedPacket : Type 0 where
  pub payload_type : ℕ
  pub message_hash : Option Text
  pub path_bytes : List Text
  pub src_hash : Option Text
  pub dst_hash : Option Text
  pub advert_pubkey : Option Text
  pub group_text_sender : Option Text
  pub anon_request_pubkey : Option Text

unfoldable pub get_packet_label : ℕ → Text
get_packet_label payload_type =
    if payload_type == PayloadType.advert
    then codes "AD"
    else if payload_type == PayloadType.group_text
    then codes "GT"
    else if payload_type == PayloadType.text_message
    then codes "DM"
    else if payload_type == PayloadType.ack
    then codes "ACK"
    else if payload_type == PayloadType.trace
    then codes "TR"
    else if payload_type == PayloadType.request || payload_type == PayloadType.anon_request
    then codes "RQ"
    else if payload_type == PayloadType.response
    then codes "RS"
    else codes "?"

-- `normalizePacketTimestampMs` of frontend/src/components/visualizer/shared.ts
unfoldable pub normalize_packet_timestamp_ms : ℕ → ℕ → ℕ
normalize_packet_timestamp_ms now timestamp =
    if timestamp == 0
    then now
    else if ltb 1000000000000 timestamp
    then timestamp
    else timestamp * 1000

-- An optional text that is neither missing nor empty.
abbrev pub present : Option Text → Option Text
present none = none
present (some t) = truthy t

-- `hash.toLowerCase() === context.myPrefix`
abbrev pub is_mine : PacketNetworkContext → Text → Bool
is_mine context hash = some (to_lower_case hash) == context.my_prefix

-- `if (nodeId) path.push(nodeId)`
abbrev pub node_list : Option Text → List Text
node_list none = []
node_list (some []) = []
node_list (some (c ∷ id)) = (c ∷ id) ∷ []

module _ (locale_before : Text → Text → Bool) (now : ℕ) (context : PacketNetworkContext) where
  abbrev pub resolve_source :
      ℕ → SourceType → Bool → Option Text → PacketNetworkState → PacketNetworkState × Option Text
  resolve_source activity_at_ms kind show_ambiguous none state = (state, none)
  resolve_source activity_at_ms kind show_ambiguous (some value) state =
      resolve_node locale_before now context kind value false show_ambiguous activity_at_ms none
        state

  -- The `if` chain that finds where the packet comes from.
  unfoldable pub packet_source :
      ℕ → ParsedPacket → RawPacket → PacketNetworkState → PacketNetworkState × Option Text
  packet_source activity_at_ms parsed packet state =
      if parsed.payload_type == PayloadType.advert && is_some (present parsed.advert_pubkey)
      then resolve_source activity_at_ms pubkey false (present parsed.advert_pubkey) state
      else if parsed.payload_type == PayloadType.anon_request
          && is_some (present parsed.anon_request_pubkey)
      then resolve_source activity_at_ms pubkey false (present parsed.anon_request_pubkey) state
      else if parsed.payload_type == PayloadType.text_message && is_some (present parsed.src_hash)
      then if is_mine context (get_or parsed.src_hash [])
        then (state, some self_id)
        else resolve_source activity_at_ms prefix true (present parsed.src_hash) state
      else if parsed.payload_type == PayloadType.group_text
      then resolve_source activity_at_ms name false
          (or_else (present parsed.group_text_sender)
            (elim packet.decrypted_info [ none ↦ none | some info ↦ present info.sender ]))
          state
      else (state, none)

  abbrev pub next_of : List Text → Option Text
  next_of [] = none
  next_of (next ∷ rest) = truthy next

  -- The loop over the path bytes: the nodes pushed.
  unfoldable pub resolve_hops :
      ℕ → Option Text → List Text → PacketNetworkState → PacketNetworkState × List Text
  resolve_hops activity_at_ms source [] state = (state, [])
  resolve_hops activity_at_ms source (hop ∷ hops) state =
      let (state', id) =
        resolve_node locale_before now context prefix hop true true activity_at_ms
          (some (record { packet_source = source; next_prefix = next_of hops })) state in
      let (state'', path) = resolve_hops activity_at_ms source hops state' in
      (state'', node_list id ++ path)

  -- The last `if`: whether the path ends at our own node.
  unfoldable pub ends_at_self : ParsedPacket → List Text → Bool
  ends_at_self parsed path =
      if parsed.payload_type == PayloadType.text_message && is_some (present parsed.dst_hash)
      then is_mine context (get_or parsed.dst_hash [])
        || (not (is_some parsed.src_hash && is_mine context (get_or parsed.src_hash []))
            && ltb 0 (length path))
      else ltb 0 (length path)

  unfoldable pub build_canonical_path_for_packet :
      ℕ → ParsedPacket → RawPacket → PacketNetworkState → PacketNetworkState × List Text
  unfolding packet_source resolve_hops ends_at_self
  build_canonical_path_for_packet activity_at_ms parsed packet state =
      let (state', source) = packet_source activity_at_ms parsed packet state in
      let (state'', hops) = resolve_hops activity_at_ms source parsed.path_bytes state' in
      let path = node_list source ++ hops in
      (
        state'',
        dedupe_consecutive (if ends_at_self parsed path then path ++ self_id ∷ [] else path),
      )

-- The loop that writes why a node was last active; `first` is `i === 0`.
unfoldable pub set_reasons :
    Text → Bool → List Text → JsMap Text PacketNetworkNode → JsMap Text PacketNetworkNode
set_reasons label first [] nodes = nodes
set_reasons label first (id ∷ path) nodes =
    set_reasons label false path (elim (JsMap.get id nodes) [
      | none ↦ nodes
      | some node ↦
          if node.id == self_id
          then nodes
          else JsMap.set id
              (record node {
                last_activity_reason =
                    some (if first then label ++ codes " source" else codes "Relayed " ++ label);
              })
              nodes
    ])

-- The loop over the edges of the path.
unfoldable pub add_edges : ℕ → List Text → PacketNetworkState → PacketNetworkState
add_edges activity_at_ms [] state = state
add_edges activity_at_ms (a ∷ []) state = state
add_edges activity_at_ms (a ∷ b ∷ path) state = add_edges activity_at_ms (b ∷ path) (
    if a == b
    then state
    else (let linked = add_canonical_link a b activity_at_ms state in
        record linked { neighbor_ids = upsert_neighbor a b linked.neighbor_ids }))

-- What a canonical path adds to the state.
unfoldable pub record_path : ℕ → Text → List Text → PacketNetworkState → PacketNetworkState
unfolding set_reasons add_edges
record_path activity_at_ms label path state = add_edges activity_at_ms path (record state {
  nodes = set_reasons label true path state.nodes;
  observations =
      state.observations ++ record { nodes = path; activity_at_ms = activity_at_ms } ∷ [];
})

-- The result is the canonical path, or `none` for `null`.
unfoldable pub ingest_packet_into_packet_network :
    (Text → Text → Bool)
    → ℕ
    → PacketNetworkContext
    → Option ParsedPacket
    → RawPacket
    → PacketNetworkState
    → PacketNetworkState × Option (List Text)
unfolding build_canonical_path_for_packet record_path
ingest_packet_into_packet_network locale_before now context none packet state = (state, none)
ingest_packet_into_packet_network locale_before now context (some parsed) packet state =
    let activity_at_ms = normalize_packet_timestamp_ms now packet.timestamp in
    let (state', path) =
      build_canonical_path_for_packet locale_before now context activity_at_ms parsed packet
        state in
    if ltb (length path) 2
    then (state', none)
    else (record_path activity_at_ms (get_packet_label parsed.payload_type) path state', some path)
