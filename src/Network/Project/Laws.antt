-- ===== src/Network/Project/Laws.antt =====
-- What is drawn of a path.
use remoteterm_meshcore.Prelude.{
  ◌≡◌, refl, Bool, true, false, none, some, List, [], ◌∷◌, Text, All, nat_eq, list_eq,
  if◌then◌else◌,
}
use mathlib.Core.Path.{subst, sym}
use remoteterm_meshcore.Prelude.JsMap
use remoteterm_meshcore.Prelude.JsMap.{JsMap}
use remoteterm_meshcore.Network.Steps.{PathStep, compact_path_steps}
use remoteterm_meshcore.Network.Steps.Laws.{
  HasNoRepeat, visible, visible_id, compact_path_steps-nodes, dedupe_consecutive_fixed,
  dedupe_consecutive-All,
}
use remoteterm_meshcore.Network.Graph.{PacketNetworkState}
use remoteterm_meshcore.Network.Visibility.{
  PacketNetworkVisibilityOptions, is_packet_network_node_visible,
  build_known_sibling_repeater_alias_map,
}
use remoteterm_meshcore.Network.Project.{
  project_step, project_rest, path_steps, project_canonical_path_with_aliases,
  project_canonical_path,
}

-- The second pass over the path removes nothing, so the path drawn is what compaction gives, and
-- no node on it stands next to itself.
pub project_canonical_path_lem :
    (state : PacketNetworkState) (path : List Text) (visibility : PacketNetworkVisibilityOptions)
    (aliases : JsMap Text Text)
    → ((project_canonical_path_with_aliases state path visibility aliases).nodes
        ≡ (compact_path_steps (path_steps state visibility aliases path)).nodes)
      × HasNoRepeat (project_canonical_path_with_aliases state path visibility aliases).nodes
unfolding project_canonical_path_with_aliases
project_canonical_path_lem state path visibility aliases =
    let steps : List PathStep = path_steps state visibility aliases path in
    let p = compact_path_steps-nodes steps in
    let q = dedupe_consecutive_fixed (compact_path_steps steps).nodes p.1 in
    (q, subst HasNoRepeat (sym q) p.1)

-- The node `id` is shown.
abbrev pub IsShown : PacketNetworkState → PacketNetworkVisibilityOptions → Text → Type 0
IsShown state visibility id =
    is_packet_network_node_visible visibility (JsMap.get id state.nodes) ≡ true

module _ (state : PacketNetworkState) (visibility : PacketNetworkVisibilityOptions) where
  IsShown-id :
      (shown : Bool) (id : Text) (rest : List Text)
      → (shown ≡ true → IsShown state visibility id)
      → All (IsShown state visibility) rest
      → All (IsShown state visibility) (visible_id (if shown then some id else none) rest)
  IsShown-id false id rest p h = h
  IsShown-id true [] rest p h = h
  IsShown-id true (c ∷ id) rest p h = (p refl, h)

  project_step-IsShown :
      (inner : Bool) (id : Text) (steps : List PathStep)
      → All (IsShown state visibility) (visible steps)
      → All (IsShown state visibility) (visible (project_step state visibility [] inner id ∷ steps))
  unfolding project_step JsMap.get
  project_step-IsShown inner id steps h =
      IsShown-id (is_packet_network_node_visible visibility (JsMap.get id state.nodes)) id
        (visible steps) (λ p. p) h

  project_rest-IsShown :
      (path : List Text)
      → All (IsShown state visibility) (visible (project_rest state visibility [] path))
  unfolding project_rest
  project_rest-IsShown [] = tt
  project_rest-IsShown (a ∷ []) = project_step-IsShown false a [] tt
  project_rest-IsShown (a ∷ b ∷ path) =
      project_step-IsShown true a (project_rest state visibility [] (b ∷ path))
        (project_rest-IsShown (b ∷ path))

  path_steps-IsShown :
      (path : List Text)
      → All (IsShown state visibility) (visible (path_steps state visibility [] path))
  path_steps-IsShown [] = tt
  path_steps-IsShown (a ∷ path) =
      project_step-IsShown false a (project_rest state visibility [] path)
        (project_rest-IsShown path)

  no_aliases :
      visibility.collapse_likely_known_sibling_repeaters ≡ false
      → build_known_sibling_repeater_alias_map state visibility ≡ []
  unfolding build_known_sibling_repeater_alias_map
  no_aliases h = rw h refl

  -- If known siblings are not collapsed, every node drawn of a path is one that the visibility
  -- options show.
  pub project_canonical_path-IsShown :
      (path : List Text)
      → visibility.collapse_likely_known_sibling_repeaters ≡ false
      → All (IsShown state visibility) (project_canonical_path state path visibility).nodes
  unfolding project_canonical_path
  project_canonical_path-IsShown path off = rw (no_aliases off) (
      rw ((project_canonical_path_lem state path visibility []).0) (
        rw ((compact_path_steps-nodes (path_steps state visibility [] path)).0)
          (dedupe_consecutive-All (IsShown state visibility) _ (path_steps-IsShown path))))
