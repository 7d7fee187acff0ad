-- ===== src/Network/Ingest/Drawing.antt =====
-- A canonical path written into the state: lemmas on `ingestPacketIntoPacketNetwork`.
use remoteterm_meshcore.Prelude.{
  ℕ, ◌≡◌, refl, sym, ◌∙◌, inl, inr, Bool, true, false, List, [], ◌∷◌, ◌++◌, Text, All, All_imp,
  All-append, nat_eq, list_eq, option_eq, Bool-cases, Option-cases, ◌==◌, eq_comm,
}
use mathlib.Core.Path.{subst}
use remoteterm_meshcore.Prelude.JsMap
use remoteterm_meshcore.Prelude.JsMap.{JsMap}
use remoteterm_meshcore.Prelude.JsMap.Entries.{set-All, get-All, has-set_other}
use remoteterm_meshcore.Network.Steps.Laws.{HasNoRepeat}
use remoteterm_meshcore.Network.Graph.{PacketNetworkNode, PacketNetworkState, self_id}
use remoteterm_meshcore.Network.Graph.Validity.{
  HasNode, IsKeyed, IsObservationOf, IsNetwork, neighbors, Extends-IsNetwork,
}
use remoteterm_meshcore.Network.Graph.Edges.{
  with_edge, with_edge-IsNetwork, with_edge_lem, upsert_neighbor_lem, upsert_neighbor-keeps,
}
use remoteterm_meshcore.Network.Ingest.{set_reasons, add_edges, record_path}

-- Writing reasons removes no node and keeps the nodes under their ids.
set_reasons-Extends :
    (label : Text) (first : Bool) (path : List Text) (nodes : JsMap Text PacketNetworkNode)
    → ((id : Text) → HasNode nodes id → HasNode (set_reasons label first path nodes) id)
      × (All IsKeyed nodes → All IsKeyed (set_reasons label first path nodes))
unfolding set_reasons
set_reasons-Extends label first [] nodes = (λ id h. h, λ h. h)
set_reasons-Extends label first (id ∷ path) nodes = elim (Option-cases (JsMap.get id nodes)) [
  | inl q ↦ rw (q, set_reasons) (set_reasons-Extends label false path nodes)
  | inr (node, q) ↦
      rw (q, set_reasons)
        (elim (Bool-cases (node.id == self_id)) [
          | inl own ↦ rw (own, set_reasons) (set_reasons-Extends label false path nodes)
          | inr other ↦
              rw (other, set_reasons)
                (let rest = set_reasons-Extends label false path (JsMap.set id _ nodes) in
                  (
                    λ j h. rest.0 j (has-set_other id j _ nodes h),
                    λ h. rest.1 (set-All IsKeyed id _ nodes (get-All IsKeyed id node nodes h q) h),
                  ))
        ])
]

-- Drawing the edges of a path of nodes keeps the invariant.
add_edges-IsNetwork :
    (at : ℕ) (path : List Text) (state : PacketNetworkState)
    → All (HasNode state.nodes) path
    → IsNetwork state
    → IsNetwork (add_edges at path state)
unfolding add_edges
add_edges-IsNetwork at [] state h v = v
add_edges-IsNetwork at (a ∷ []) state h v = v
add_edges-IsNetwork at (a ∷ b ∷ path) state h v = elim (Bool-cases (a == b)) [
  | inl same ↦ rw (same, add_edges) (add_edges-IsNetwork at (b ∷ path) state h.1 v)
  | inr other ↦
      rw (other, add_edges)
        (add_edges-IsNetwork at (b ∷ path) (with_edge a b at state)
          (subst (λ n. All (HasNode n) (b ∷ path)) (sym (with_edge_lem a b at state).0) h.1)
          (with_edge-IsNetwork a b at state h.0 h.1.0 v))
]

pub record_path-IsNetwork :
    (at : ℕ) (label : Text) (path : List Text) (state : PacketNetworkState)
    → All (HasNode state.nodes) path
    → IsNetwork state
    → IsNetwork (record_path at label path state)
unfolding record_path
record_path-IsNetwork at label path state h (own, keyed, links, observations, linked) =
    let nodes : JsMap Text PacketNetworkNode = set_reasons label true path state.nodes in
    let e = set_reasons-Extends label true path state.nodes in
    let reasons : PacketNetworkState = record state { nodes = nodes } in
    let v =
      Extends-IsNetwork state reasons (refl, refl, refl, e.0, e.1)
        (own, keyed, links, observations, linked) in
    let h' = All_imp (HasNode state.nodes) (HasNode nodes) path e.0 h in
    add_edges-IsNetwork at path _ h' (
      v.0,
      v.1,
      v.2,
      All-append (IsObservationOf nodes) state.observations (_ ∷ []) v.3 (h', tt),
      v.4,
    )

-- An edge that was there is still there when a path has been drawn.
add_edges-keeps :
    (at : ℕ) (path : List Text) (state : PacketNetworkState) (x y : Text)
    → neighbors state.neighbor_ids x y ≡ true
    → neighbors (add_edges at path state).neighbor_ids x y ≡ true
unfolding add_edges
add_edges-keeps at [] state x y h = h
add_edges-keeps at (a ∷ []) state x y h = h
add_edges-keeps at (a ∷ b ∷ path) state x y h = elim (Bool-cases (a == b)) [
  | inl same ↦ rw (same, add_edges) (add_edges-keeps at (b ∷ path) state x y h)
  | inr other ↦
      rw (other, add_edges)
        (add_edges-keeps at (b ∷ path) (with_edge a b at state) x y (
          subst (λ n. neighbors n x y ≡ true) (sym (with_edge_lem a b at state).2)
            (upsert_neighbor-keeps a b x y state.neighbor_ids h)))
]

-- Nodes that follow each other on the path are neighbours.
abbrev pub IsDrawn : JsMap Text (List Text) → List Text → Type 0
IsDrawn neighbor_ids [] = Unit
IsDrawn neighbor_ids (a ∷ []) = Unit
IsDrawn neighbor_ids (a ∷ b ∷ path) =
    (neighbors neighbor_ids a b ≡ true)
    × (neighbors neighbor_ids b a ≡ true)
    × IsDrawn neighbor_ids (b ∷ path)

add_edges_step :
    (at : ℕ) (a b : Text) (path : List Text) (state : PacketNetworkState)
    → (a == b) ≡ false
    → add_edges at (a ∷ b ∷ path) state ≡ add_edges at (b ∷ path) (with_edge a b at state)
unfolding add_edges
add_edges_step at a b path state h = rw h refl

add_edges-IsDrawn :
    (at : ℕ) (path : List Text) (state : PacketNetworkState)
    → HasNoRepeat path
    → IsDrawn (add_edges at path state).neighbor_ids path
      × ((add_edges at path state).observations ≡ state.observations)
unfolding add_edges
add_edges-IsDrawn at [] state h = (tt, refl)
add_edges-IsDrawn at (a ∷ []) state h = (tt, refl)
add_edges-IsDrawn at (a ∷ b ∷ path) state h =
    let rest = add_edges-IsDrawn at (b ∷ path) (with_edge a b at state) h.1 in
    let e = with_edge_lem a b at state in
    let n = upsert_neighbor_lem a b state.neighbor_ids in
    subst (λ s. IsDrawn s.neighbor_ids (a ∷ b ∷ path) × (s.observations ≡ state.observations))
      (sym (add_edges_step at a b path state (eq_comm a b ∙ h.0)))
      (
        (
          add_edges-keeps at (b ∷ path) (with_edge a b at state) a b
              (subst (λ m. neighbors m a b ≡ true) (sym e.2) n.0),
          add_edges-keeps at (b ∷ path) (with_edge a b at state) b a
              (subst (λ m. neighbors m b a ≡ true) (sym e.2) n.1),
          rest.0,
        ),
        rest.1 ∙ e.1,
      )

pub record_path-IsDrawn :
    (at : ℕ) (label : Text) (path : List Text) (state : PacketNetworkState)
    → HasNoRepeat path
    → IsDrawn (record_path at label path state).neighbor_ids path
      × ((record_path at label path state).observations
          ≡ state.observations ++ record { nodes = path; activity_at_ms = at } ∷ [])
unfolding record_path
record_path-IsDrawn at label path state h = add_edges-IsDrawn at path _ h
