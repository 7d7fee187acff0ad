-- ===== src/Network/Prune/Laws.antt =====
-- Lemmas on `prunePacketNetworkState`.
use remoteterm_meshcore.Prelude.{
  keep_holds, ℕ, ◌≡◌, ◌↔◌, ◌≤◌, ◌==◌, All_imp, refl, inl, inr, ◌⊎◌, Bool, true, false, some, List,
  [], ◌∷◌, Text, arith, All, nat_eq, list_eq, Bool-cases, eq_iff, keep, every,
}
use remoteterm_meshcore.Prelude.JsMap
use remoteterm_meshcore.Prelude.JsMap.{JsMap}
use remoteterm_meshcore.Network.Graph.{self_id, PacketNetworkNode, PacketNetworkState}
use remoteterm_meshcore.Network.Prune.{
  survives, has_endpoints, has_nodes, rebuild_neighbors, prune_packet_network_state,
}

pub every-All {ℓ} :
    {A : Type ℓ} (p : A → Bool) (xs : List A) → every p xs ≡ true → All (λ x. p x ≡ true) xs
unfolding every
every-All p [] h = tt
every-All p (x ∷ xs) h = (ground arith, every-All p xs (ground arith))

-- A node is our own, or was active at `cutoff` or later.
abbrev pub IsLive : ℕ → Text × PacketNetworkNode → Type 0
IsLive cutoff entry = (entry.0 ≡ self_id) ⊎ (cutoff ≤ entry.1.last_activity)

survives-IsLive :
    (cutoff : ℕ) (entry : Text × PacketNetworkNode)
    → (survives cutoff entry ≡ true) ↔ IsLive cutoff entry
survives-IsLive cutoff (id, node) = elim (Bool-cases (id == self_id)) [
  | inl own ↦ (λ h. inl ((eq_iff id self_id).0 own), λ h. rw own refl)
  | inr other ↦ (
    λ h. inr (ground arith),
    λ h. elim h [
      | inl own ↦ rw ((eq_iff id self_id).1 own) refl
      | inr recent ↦ rw other (ground arith)
    ],
  )
]

All-every {ℓ} :
    {A : Type ℓ} (p : A → Bool) (xs : List A) → All (λ x. p x ≡ true) xs → every p xs ≡ true
unfolding every
All-every p [] h = refl
All-every p (x ∷ xs) h = rw (h.0, All-every p xs h.1) refl

-- The ends of every link are nodes.
abbrev pub HasNoDanglingLink : PacketNetworkState → Type 0
HasNoDanglingLink state = All (λ entry. has_endpoints state.nodes entry ≡ true) state.links

-- The nodes of every observation are nodes of the state.
abbrev pub HasNoDanglingObservation : PacketNetworkState → Type 0
HasNoDanglingObservation state = All (λ o. has_nodes state.nodes o ≡ true) state.observations

pub get-keep :
    (cutoff : ℕ) (id : Text) (nodes : JsMap Text PacketNetworkNode) (node : PacketNetworkNode)
    → JsMap.get id nodes ≡ some node
    → survives cutoff (id, node) ≡ true
    → JsMap.get id (keep (survives cutoff) nodes) ≡ some node
unfolding JsMap.get keep
get-keep cutoff id [] node h live = absurd (cc)
get-keep cutoff id ((j, n) ∷ nodes) node h live = elim (Bool-cases (survives cutoff (j, n))) [
  | inl e ↦ rw (e, keep) (ground (arith, get-keep cutoff id nodes node))
  | inr e ↦ rw (e, keep) (ground (arith, get-keep cutoff id nodes node, eq_iff j id))
]

abbrev pub pruned : ℕ → PacketNetworkState → PacketNetworkState
pruned cutoff state = (prune_packet_network_state cutoff state).0

abbrev pub swept : ℕ → PacketNetworkState → PacketNetworkState
swept cutoff state =
    let nodes = keep (survives cutoff) state.nodes in
    let links = keep (has_endpoints nodes) state.links in
    record state {
      nodes = nodes;
      links = links;
      observations = keep (has_nodes nodes) state.observations;
      neighbor_ids = rebuild_neighbors [] links;
    }

-- Both results of pruning, by what the first loop found.
pub prune_unchanged :
    (cutoff : ℕ) (state : PacketNetworkState)
    → every (survives cutoff) state.nodes ≡ true
    → prune_packet_network_state cutoff state ≡ (state, false)
unfolding prune_packet_network_state
prune_unchanged cutoff state h = rw h refl

pub prune_sweeps :
    (cutoff : ℕ) (state : PacketNetworkState)
    → every (survives cutoff) state.nodes ≡ false
    → prune_packet_network_state cutoff state ≡ (swept cutoff state, true)
unfolding prune_packet_network_state
prune_sweeps cutoff state h = rw h refl

-- After pruning every node is our own or was active at the cutoff or later, and a given such node of
-- the state before is still there as it was. The result is `false` exactly when all nodes were such
-- nodes before, and unless it is `true` the state is as it was.
pub prune_packet_network_state_lem :
    (cutoff : ℕ) (state : PacketNetworkState) (id : Text) (node : PacketNetworkNode)
    → JsMap.get id state.nodes ≡ some node
    → IsLive cutoff (id, node)
    → All (IsLive cutoff) (pruned cutoff state).nodes
      × (JsMap.get id (pruned cutoff state).nodes ≡ some node)
      × (((prune_packet_network_state cutoff state).1 ≡ false) ↔ All (IsLive cutoff) state.nodes)
      × ((prune_packet_network_state cutoff state).1 ≡ true ⊎ pruned cutoff state ≡ state)
prune_packet_network_state_lem cutoff state id node h live =
    elim (Bool-cases (every (survives cutoff) state.nodes)) [
      | inl all ↦
          rw (prune_unchanged cutoff state all, pruned)
            (
              all_live state.nodes (every-All (survives cutoff) state.nodes all),
              h,
              (λ p. all_live state.nodes (every-All (survives cutoff) state.nodes all), λ p. refl),
              inr refl,
            )
      | inr old ↦
          rw (prune_sweeps cutoff state old, pruned)
            (
              all_live (keep (survives cutoff) state.nodes)
                  (keep_holds (survives cutoff) state.nodes),
              get-keep cutoff id state.nodes node h ((survives-IsLive cutoff (id, node)).1 live),
              (
                λ p. cc,
                λ p. absurd (
                    cc (
                      All-every (survives cutoff) state.nodes
                        (All_imp _ _ state.nodes (λ entry. (survives-IsLive cutoff entry).1) p))),
              ),
              inl refl,
            )
    ]
  where
    all_live :
        (nodes : JsMap Text PacketNetworkNode)
        → All (λ entry. survives cutoff entry ≡ true) nodes
        → All (IsLive cutoff) nodes
    all_live nodes p = All_imp _ _ nodes (λ entry. (survives-IsLive cutoff entry).0) p

-- Links have both their ends among the nodes, and observations all their nodes; pruning keeps it so,
-- although it removes nodes.
pub prune-HasNoDangling :
    (cutoff : ℕ) (state : PacketNetworkState)
    → HasNoDanglingLink state
    → HasNoDanglingObservation state
    → HasNoDanglingLink (pruned cutoff state) × HasNoDanglingObservation (pruned cutoff state)
prune-HasNoDangling cutoff state links observations =
    elim (Bool-cases (every (survives cutoff) state.nodes)) [
      | inl all ↦ rw (prune_unchanged cutoff state all, pruned) (links, observations)
      | inr old ↦
          rw (prune_sweeps cutoff state old, pruned)
            (
              keep_holds (has_endpoints (keep (survives cutoff) state.nodes)) state.links,
              keep_holds (has_nodes (keep (survives cutoff) state.nodes)) state.observations,
            )
    ]
