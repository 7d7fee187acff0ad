-- ===== src/Network/Ingest/Laws.antt =====
-- The path of a packet, and the state after it: lemmas on `ingestPacketIntoPacketNetwork`.
use remoteterm_meshcore.Prelude.{
  ℕ, ◌≡◌, ◌≤◌, refl, inl, inr, Bool, true, false, ◌&&◌, Option, none, some, List, [], ◌∷◌, ◌++◌,
  Text, arith, length, ltb, All, All_imp, All-append, nat_eq, list_eq, option_eq, is_some,
  if◌then◌else◌, Bool-cases, ◌==◌, get_or,
}
use mathlib.Core.Path.{subst}
use remoteterm_meshcore.Prelude.JsMap.{JsMap}
use remoteterm_meshcore.Data.{RawPacket}
use remoteterm_meshcore.Network.Steps.Laws.{
  HasNoRepeat, dedupe_consecutive-HasNoRepeat, dedupe_consecutive-All,
}
use remoteterm_meshcore.Network.Graph.{PacketNetworkNode, PacketNetworkState, self_id}
use remoteterm_meshcore.Network.Graph.Validity.{
  HasNode, IsNetwork, Extends, Extends-refl, Extends-trans, Extends-IsNetwork, Present, IsResolved,
  unresolved, IsResolved-self,
}
use remoteterm_meshcore.Network.Context.{PacketNetworkContext}
use remoteterm_meshcore.Network.Resolve.{SourceType, prefix, pubkey, name, resolve_node}
use remoteterm_meshcore.Network.Resolve.Laws.{resolve_node-IsResolved}
use remoteterm_meshcore.Network.PayloadType
use remoteterm_meshcore.Network.Ingest.Drawing.{record_path-IsNetwork, record_path-IsDrawn, IsDrawn}
use remoteterm_meshcore.Network.Ingest.{
  get_packet_label, normalize_packet_timestamp_ms, ParsedPacket, present, is_mine, node_list,
  resolve_source, packet_source, next_of, resolve_hops, ends_at_self,
  build_canonical_path_for_packet, record_path, ingest_packet_into_packet_network,
}

-- Nodes that a list names stay there while the state grows.
kept :
    (before after : PacketNetworkState) (ids : List Text)
    → Extends before after
    → All (HasNode before.nodes) ids
    → All (HasNode after.nodes) ids
kept before after ids (l, n, o, more, k) h = All_imp _ _ ids more h

present_node :
    (id : Option Text) (nodes : JsMap Text PacketNetworkNode)
    → Present id nodes
    → All (HasNode nodes) (node_list id)
present_node none nodes h = tt
present_node (some []) nodes h = tt
present_node (some (c ∷ id)) nodes h = (h, tt)

either_way :
    (state : PacketNetworkState) (b : Bool) (x y : PacketNetworkState × Option Text)
    → IsResolved state x
    → IsResolved state y
    → IsResolved state (if b then x else y)
either_way state true x y hx hy = hx
either_way state false x y hx hy = hy

module _ (locale_before : Text → Text → Bool) (now : ℕ) (context : PacketNetworkContext) where
  resolve_source-IsResolved :
      (at : ℕ) (kind : SourceType) (shown : Bool) (value : Option Text) (state : PacketNetworkState)
      → IsResolved state (resolve_source locale_before now context at kind shown value state)
  resolve_source-IsResolved at kind shown none state = unresolved state
  resolve_source-IsResolved at kind shown (some value) state =
      resolve_node-IsResolved locale_before now context kind value false shown at none state

  packet_source-IsResolved :
      (at : ℕ) (parsed : ParsedPacket) (packet : RawPacket) (state : PacketNetworkState)
      → IsResolved state (packet_source locale_before now context at parsed packet state)
  unfolding packet_source
  packet_source-IsResolved at parsed packet state =
      either_way state
        (parsed.payload_type == PayloadType.advert && is_some (present parsed.advert_pubkey)) _ _
        (resolve_source-IsResolved at pubkey false (present parsed.advert_pubkey) state)
        (either_way state
          (parsed.payload_type == PayloadType.anon_request
            && is_some (present parsed.anon_request_pubkey))
          _ _ (resolve_source-IsResolved at pubkey false (present parsed.anon_request_pubkey) state)
          (either_way state
            (parsed.payload_type == PayloadType.text_message && is_some (present parsed.src_hash)) _
            _
            (either_way state (is_mine context (get_or parsed.src_hash [])) _ _
              (IsResolved-self state)
              (resolve_source-IsResolved at prefix true (present parsed.src_hash) state))
            (either_way state (parsed.payload_type == PayloadType.group_text) _ _
              (resolve_source-IsResolved at name false _ state) (unresolved state))))

  -- The hops of a path are nodes that are there.
  abbrev IsPath : PacketNetworkState → PacketNetworkState × List Text → Type 0
  IsPath state (state', path) =
      Extends state state' × (HasNode state.nodes self_id → All (HasNode state'.nodes) path)

  resolve_hops-IsPath :
      (at : ℕ) (source : Option Text) (hops : List Text) (state : PacketNetworkState)
      → IsPath state (resolve_hops locale_before now context at source hops state)
  unfolding resolve_hops
  resolve_hops-IsPath at source [] state = (Extends-refl state, λ h. tt)
  resolve_hops-IsPath at source (hop ∷ hops) state =
      let first : PacketNetworkState × Option Text =
        resolve_node locale_before now context prefix hop true true at
          (some (record {
            packet_source = source;
            next_prefix = next_of locale_before now context hops;
          }))
          state in
      let rest : PacketNetworkState × List Text =
        resolve_hops locale_before now context at source hops first.0 in
      let p =
        resolve_node-IsResolved locale_before now context prefix hop true true at
          (some (record {
            packet_source = source;
            next_prefix = next_of locale_before now context hops;
          }))
          state in
      let q = resolve_hops-IsPath at source hops first.0 in
      (
        Extends-trans state first.0 rest.0 p.0 q.0,
        λ own.
            All-append (HasNode rest.0.nodes) (node_list first.1) rest.1
              (kept first.0 rest.0 (node_list first.1) q.0
                (present_node first.1 first.0.nodes (p.1 own)))
              (q.1 (p.0.3 self_id own)),
      )

  finish :
      (nodes : JsMap Text PacketNetworkNode) (b : Bool) (path : List Text)
      → HasNode nodes self_id
      → All (HasNode nodes) path
      → All (HasNode nodes) (if b then path ++ self_id ∷ [] else path)
  finish nodes true path own h = All-append (HasNode nodes) path (self_id ∷ []) h (own, tt)
  finish nodes false path own h = h

  build-IsPath :
      (at : ℕ) (parsed : ParsedPacket) (packet : RawPacket) (state : PacketNetworkState)
      → IsPath state
          (build_canonical_path_for_packet locale_before now context at parsed packet state)
  unfolding build_canonical_path_for_packet
  build-IsPath at parsed packet state =
      let first : PacketNetworkState × Option Text =
        packet_source locale_before now context at parsed packet state in
      let hops : PacketNetworkState × List Text =
        resolve_hops locale_before now context at first.1 parsed.path_bytes first.0 in
      let path : List Text = node_list first.1 ++ hops.1 in
      let p = packet_source-IsResolved at parsed packet state in
      let q = resolve_hops-IsPath at first.1 parsed.path_bytes first.0 in
      let grown = Extends-trans state first.0 hops.0 p.0 q.0 in
      (
        grown,
        λ own. dedupe_consecutive-All (HasNode hops.0.nodes) _ (
            finish hops.0.nodes (ends_at_self locale_before now context parsed path) path
              (grown.3 self_id own)
              (All-append (HasNode hops.0.nodes) (node_list first.1) hops.1
                (kept first.0 hops.0 (node_list first.1) q.0
                  (present_node first.1 first.0.nodes (p.1 own)))
                (q.1 (p.0.3 self_id own)))),
      )

build-HasNoRepeat :
    (locale_before : Text → Text → Bool) (now : ℕ) (context : PacketNetworkContext) (at : ℕ)
    (parsed : ParsedPacket) (packet : RawPacket) (state : PacketNetworkState)
    → HasNoRepeat
        (build_canonical_path_for_packet locale_before now context at parsed packet state).1
unfolding build_canonical_path_for_packet
build-HasNoRepeat locale_before now context at parsed packet state =
    dedupe_consecutive-HasNoRepeat _

-- Ingesting a packet, whether it gives a path or not, keeps the invariant of the network: our own
-- node is there, nodes and links stand under their keys, links and observations name nodes that are
-- there, and neighbours are mutual and linked.
pub ingest-IsNetwork :
    (locale_before : Text → Text → Bool) (now : ℕ) (context : PacketNetworkContext)
    (parsed : Option ParsedPacket) (packet : RawPacket) (state : PacketNetworkState)
    → IsNetwork state
    → IsNetwork (ingest_packet_into_packet_network locale_before now context parsed packet state).0
unfolding ingest_packet_into_packet_network
ingest-IsNetwork locale_before now context none packet state v = v
ingest-IsNetwork locale_before now context (some parsed) packet state v =
    let at : ℕ = normalize_packet_timestamp_ms now packet.timestamp in
    let built : PacketNetworkState × List Text =
      build_canonical_path_for_packet locale_before now context at parsed packet state in
    let p = build-IsPath locale_before now context at parsed packet state in
    let grown = Extends-IsNetwork state built.0 p.0 v in
    elim (Bool-cases (ltb (length built.1) 2)) [
      | inl short ↦ rw (short, ingest_packet_into_packet_network) grown
      | inr long ↦
          rw (long, ingest_packet_into_packet_network)
            (record_path-IsNetwork at (get_packet_label parsed.payload_type) built.1 built.0
              (p.1 v.0) grown)
    ]

-- What ingesting a packet at the time `at` made of a state.
abbrev pub IsIngested : ℕ → PacketNetworkState → PacketNetworkState × Option (List Text) → Type 0
IsIngested at state (state', none) =
    (state'.links ≡ state.links)
    × (state'.neighbor_ids ≡ state.neighbor_ids)
    × (state'.observations ≡ state.observations)
IsIngested at state (state', some path) =
    (2 ≤ length path)
    × HasNoRepeat path
    × IsDrawn state'.neighbor_ids path
    × (state'.observations
        ≡ state.observations ++ record { nodes = path; activity_at_ms = at } ∷ [])

-- A packet that gives no path leaves links, neighbours and observations as they are. One that does
-- gives a path of at least two nodes without a node next to itself, appends that path to the
-- observations at the packet's time, and makes the nodes that follow each other on it neighbours.
pub ingest-IsIngested :
    (locale_before : Text → Text → Bool) (now : ℕ) (context : PacketNetworkContext)
    (parsed : Option ParsedPacket) (packet : RawPacket) (state : PacketNetworkState)
    → IsIngested
        (normalize_packet_timestamp_ms now packet.timestamp)
        state
        (ingest_packet_into_packet_network locale_before now context parsed packet state)
unfolding ingest_packet_into_packet_network
ingest-IsIngested locale_before now context none packet state = (refl, refl, refl)
ingest-IsIngested locale_before now context (some parsed) packet state =
    let at : ℕ = normalize_packet_timestamp_ms now packet.timestamp in
    let built : PacketNetworkState × List Text =
      build_canonical_path_for_packet locale_before now context at parsed packet state in
    let p = build-IsPath locale_before now context at parsed packet state in
    elim (Bool-cases (ltb (length built.1) 2)) [
      | inl short ↦ rw (short, ingest_packet_into_packet_network) (p.0.0, p.0.1, p.0.2)
      | inr long ↦
          rw (long, ingest_packet_into_packet_network)
            (let no_repeat = build-HasNoRepeat locale_before now context at parsed packet state in
              let drawn =
                record_path-IsDrawn at (get_packet_label parsed.payload_type) built.1 built.0
                  no_repeat in
              (
                ground arith,
                no_repeat,
                drawn.0,
                subst
                    (λ o.
                      (record_path at (get_packet_label parsed.payload_type) built.1
                        built.0).observations
                      ≡ o ++ record { nodes = built.1; activity_at_ms = at } ∷ [])
                    p.0.2 drawn.1,
              ))
    ]
