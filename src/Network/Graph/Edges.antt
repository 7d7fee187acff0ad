-- ===== src/Network/Graph/Edges.antt =====
-- Links and neighbours: lemmas on `addCanonicalLink` and `upsertNeighbor`.
use remoteterm_meshcore.Prelude.{
  ℕ, ◌≡◌, refl, sym, inl, inr, ◌⊎◌, true, ◌&&◌, ◌||◌, List, [], Text, arith, All, nat_eq, list_eq,
  Bool-cases, Option-cases, ◌==◌, eq_iff, eq_refl, get_or, insert, contains-insert,
}
use mathlib.Core.Path.{subst}
use remoteterm_meshcore.Prelude.JsMap
use remoteterm_meshcore.Prelude.JsMap.{JsMap, get-set}
use remoteterm_meshcore.Prelude.JsMap.Entries.{set-All, get-All, has-set_self, has-set_other}
use remoteterm_meshcore.Network.Steps.{build_link_key}
use remoteterm_meshcore.Network.Steps.Laws.{build_link_key_comm}
use remoteterm_meshcore.Network.Graph.{
  PacketNetworkLink, PacketNetworkState, add_canonical_link, add_neighbor, upsert_neighbor,
}
use remoteterm_meshcore.Network.Graph.Validity.{HasNode, IsLinkOf, neighbors, IsNetwork}

neighbors-add_neighbor :
    (id other a b : Text) (m : JsMap Text (List Text))
    → neighbors (add_neighbor id other m) a b ≡ (neighbors m a b || (id == a && other == b))
neighbors-add_neighbor id other a b m = elim (Bool-cases (id == a)) [
  | inl same ↦
      rw (add_neighbor, neighbors, get-set id a (insert other (get_or (JsMap.get id m) [])) m, same)
        (rw ((eq_iff id a).0 same, contains-insert other b (get_or (JsMap.get a m) []))
          (ground arith))
  | inr far ↦
      rw (add_neighbor, neighbors, get-set id a (insert other (get_or (JsMap.get id m) [])) m, far)
        (ground arith)
]

-- `upsertNeighbor` makes its two nodes neighbours of each other and of nobody else.
pub neighbors-upsert_neighbor :
    (s t a b : Text) (m : JsMap Text (List Text))
    → neighbors (upsert_neighbor s t m) a b
      ≡ (neighbors m a b || (s == a && t == b) || (t == a && s == b))
unfolding upsert_neighbor
neighbors-upsert_neighbor s t a b m =
    ground
      (arith, neighbors-add_neighbor t s a b (add_neighbor s t m), neighbors-add_neighbor s t a b m)

-- What the step for one edge of a path does to the links and the neighbours.
abbrev pub with_edge : Text → Text → ℕ → PacketNetworkState → PacketNetworkState
with_edge a b at state =
    let linked = add_canonical_link a b at state in
    record linked { neighbor_ids = upsert_neighbor a b linked.neighbor_ids }

-- The link of the edge is there afterwards, the links that were there still are, and each link is
-- one of two nodes that are there, under their key.
pub add_canonical_link_lem :
    (a b : Text) (at : ℕ) (state : PacketNetworkState)
    → HasNode state.nodes a
    → HasNode state.nodes b
    → All (IsLinkOf state.nodes) state.links
    → (JsMap.has (build_link_key a b) (add_canonical_link a b at state).links ≡ true)
      × ((key : Text)
          → JsMap.has key state.links ≡ true
          → JsMap.has key (add_canonical_link a b at state).links ≡ true)
      × All (IsLinkOf state.nodes) (add_canonical_link a b at state).links
      × (add_canonical_link a b at state
          ≡ record state { links = (add_canonical_link a b at state).links })
unfolding add_canonical_link
add_canonical_link_lem a b at state ha hb links =
    elim (Option-cases (JsMap.get (build_link_key a b) state.links)) [
      | inl q ↦
          rw (q, add_canonical_link)
            (
              has-set_self (build_link_key a b) _ state.links,
              λ key h. has-set_other (build_link_key a b) key _ state.links h,
              set-All (IsLinkOf state.nodes) (build_link_key a b) _ state.links (refl, ha, hb)
                  links,
              refl,
            )
      | inr (existing, q) ↦
          rw (q, add_canonical_link)
            (
              has-set_self (build_link_key a b) _ state.links,
              λ key h. has-set_other (build_link_key a b) key _ state.links h,
              set-All (IsLinkOf state.nodes) (build_link_key a b) _ state.links
                  (get-All (IsLinkOf state.nodes) (build_link_key a b) existing state.links links q)
                  links,
              refl,
            )
    ]

upsert_neighbor-cases :
    (s t a b : Text) (m : JsMap Text (List Text))
    → neighbors (upsert_neighbor s t m) a b ≡ true
    → (neighbors m a b ≡ true) ⊎ ((s ≡ a) × (t ≡ b)) ⊎ ((t ≡ a) × (s ≡ b))
upsert_neighbor-cases s t a b m h = elim (Bool-cases (neighbors m a b)) [
  | inl old ↦ inl old
  | inr new ↦ elim (Bool-cases (s == a && t == b)) [
    | inl forth ↦ inr (inl ((eq_iff s a).0 (ground arith), (eq_iff t b).0 (ground arith)))
    | inr nay ↦
        let back : (t == a && s == b) ≡ true =
          ground (arith, neighbors-upsert_neighbor s t a b m) in
        inr (inr ((eq_iff t a).0 (ground arith), (eq_iff s b).0 (ground arith)))
  ]
]

pub upsert_neighbor-keeps :
    (s t a b : Text) (m : JsMap Text (List Text))
    → neighbors m a b ≡ true
    → neighbors (upsert_neighbor s t m) a b ≡ true
upsert_neighbor-keeps s t a b m h = ground (arith, neighbors-upsert_neighbor s t a b m)

pub upsert_neighbor_lem :
    (s t : Text) (m : JsMap Text (List Text))
    → (neighbors (upsert_neighbor s t m) s t ≡ true)
      × (neighbors (upsert_neighbor s t m) t s ≡ true)
upsert_neighbor_lem s t m = (
  ground (arith, neighbors-upsert_neighbor s t s t m, eq_refl s, eq_refl t),
  ground (arith, neighbors-upsert_neighbor s t t s m, eq_refl s, eq_refl t),
)

-- Neighbours are mutual and linked by the keys of `links`.
abbrev pub AreLinkedBy : JsMap Text PacketNetworkLink → JsMap Text (List Text) → Type 0
AreLinkedBy links neighbor_ids =
    (a b : Text)
    → neighbors neighbor_ids a b ≡ true
    → (neighbors neighbor_ids b a ≡ true) × (JsMap.has (build_link_key a b) links ≡ true)

pub upsert_neighbor-AreLinkedBy :
    (a b : Text) (links links' : JsMap Text PacketNetworkLink) (m : JsMap Text (List Text))
    → AreLinkedBy links m
    → ((key : Text) → JsMap.has key links ≡ true → JsMap.has key links' ≡ true)
    → JsMap.has (build_link_key a b) links' ≡ true
    → AreLinkedBy links' (upsert_neighbor a b m)
upsert_neighbor-AreLinkedBy a b links links' m linked more drawn x y h =
    elim (upsert_neighbor-cases a b x y m h) [
      | inl old ↦ (
        upsert_neighbor-keeps a b y x m (linked x y old).0,
        more (build_link_key x y) (linked x y old).1,
      )
      | inr (inl (p, q)) ↦ rw (← p, ← q) ((upsert_neighbor_lem a b m).1, drawn)
      | inr (inr (p, q)) ↦
          rw (← p, ← q, build_link_key_comm b a) ((upsert_neighbor_lem a b m).0, drawn)
    ]

-- Drawing the edge between two nodes keeps the invariant.
pub with_edge-IsNetwork :
    (a b : Text) (at : ℕ) (state : PacketNetworkState)
    → HasNode state.nodes a
    → HasNode state.nodes b
    → IsNetwork state
    → IsNetwork (with_edge a b at state)
with_edge-IsNetwork a b at state ha hb (own, keyed, links, observations, linked) =
    let drawn = add_canonical_link_lem a b at state ha hb links in
    let links' : JsMap Text PacketNetworkLink = (add_canonical_link a b at state).links in
    subst (λ s. IsNetwork (record s { neighbor_ids = upsert_neighbor a b s.neighbor_ids }))
      (sym drawn.3)
      (
        own,
        keyed,
        drawn.2,
        observations,
        upsert_neighbor-AreLinkedBy a b state.links links' state.neighbor_ids linked drawn.1
            drawn.0,
      )

pub with_edge_lem :
    (a b : Text) (at : ℕ) (state : PacketNetworkState)
    → ((with_edge a b at state).nodes ≡ state.nodes)
      × ((with_edge a b at state).observations ≡ state.observations)
      × ((with_edge a b at state).neighbor_ids ≡ upsert_neighbor a b state.neighbor_ids)
unfolding add_canonical_link
with_edge_lem a b at state = elim (Option-cases (JsMap.get (build_link_key a b) state.links)) [
  | inl q ↦ rw (q, with_edge, add_canonical_link) (refl, refl, refl)
  | inr (existing, q) ↦ rw (q, with_edge, add_canonical_link) (refl, refl, refl)
]
