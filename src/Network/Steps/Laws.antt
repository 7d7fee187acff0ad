-- ===== src/Network/Steps/Laws.antt =====
-- Link keys and compacted paths: lemmas on frontend/src/utils/visualizerUtils.ts.
use remoteterm_meshcore.Prelude.{
  ◌≡◌, append-nil, append_assoc, refl, sym, ap, ◌∙◌, inl, inr, false, Option, none, some, List, [],
  ◌∷◌, ◌++◌, Text, All, nat_eq, list_eq, Bool-cases, ◌==◌, eq_iff, eq_comm, text_ltb, text_ltb_asym,
  text_ltb_total, if◌then◌else◌,
}
use mathlib.Core.Path.{subst}
use remoteterm_meshcore.Prelude.Sort.{sort, insert_sorted}
use remoteterm_meshcore.Network.Steps.{
  PathStep, Compaction, visit, omit, compact_step, build_link_key, dedupe_from, dedupe_consecutive,
  compact_from, compact_path_steps,
}

sort_pair :
    (a b : Text) → sort text_ltb (a ∷ b ∷ []) ≡ (if text_ltb b a then b ∷ a ∷ [] else a ∷ b ∷ [])
unfolding sort insert_sorted
sort_pair a b = refl

sort_pair_comm : (a b : Text) → sort text_ltb (a ∷ b ∷ []) ≡ sort text_ltb (b ∷ a ∷ [])
sort_pair_comm a b =
    rw (sort_pair a b, sort_pair b a)
      (elim (Bool-cases (text_ltb b a)) [
        | inl less ↦ rw (less, text_ltb_asym b a less) refl
        | inr other ↦ elim (Bool-cases (text_ltb a b)) [
          | inl less ↦ rw (less, other) refl
          | inr neither ↦ rw (text_ltb_total a b neither other) refl
        ]
      ])

-- A link has one key, whichever of its ends is named first.
pub build_link_key_comm : (a b : Text) → build_link_key a b ≡ build_link_key b a
unfolding build_link_key
build_link_key_comm a b = rw (sort_pair_comm a b) refl

-- No element equals the one before it.
abbrev pub HasNoRepeat : List Text → Type 0
HasNoRepeat [] = Unit
HasNoRepeat (x ∷ []) = Unit
HasNoRepeat (x ∷ y ∷ path) = (y == x ≡ false) × HasNoRepeat (y ∷ path)

dedupe_from-HasNoRepeat : (p : Text) (arr : List Text) → HasNoRepeat (p ∷ dedupe_from p arr)
unfolding dedupe_from
dedupe_from-HasNoRepeat p [] = tt
dedupe_from-HasNoRepeat p (x ∷ arr) = elim (Bool-cases (x == p)) [
  | inl same ↦ rw same (
      subst (λ q. HasNoRepeat (q ∷ dedupe_from x arr)) ((eq_iff x p).0 same)
        (dedupe_from-HasNoRepeat x arr))
  | inr other ↦ rw other (other, dedupe_from-HasNoRepeat x arr)
]

pub dedupe_consecutive-HasNoRepeat : (arr : List Text) → HasNoRepeat (dedupe_consecutive arr)
unfolding dedupe_consecutive
dedupe_consecutive-HasNoRepeat [] = tt
dedupe_consecutive-HasNoRepeat (x ∷ arr) = dedupe_from-HasNoRepeat x arr

dedupe_from_fixed : (p : Text) (arr : List Text) → HasNoRepeat (p ∷ arr) → dedupe_from p arr ≡ arr
unfolding dedupe_from
dedupe_from_fixed p [] h = refl
dedupe_from_fixed p (x ∷ arr) h = rw (h.0) (ap (◌∷◌ x) (dedupe_from_fixed x arr h.1))

pub dedupe_consecutive_fixed : (arr : List Text) → HasNoRepeat arr → dedupe_consecutive arr ≡ arr
unfolding dedupe_consecutive
dedupe_consecutive_fixed [] h = refl
dedupe_consecutive_fixed (x ∷ arr) h = ap (◌∷◌ x) (dedupe_from_fixed x arr h)

dedupe_from-All :
    (P : Text → Type 0) (p : Text) (arr : List Text) → All P arr → All P (dedupe_from p arr)
unfolding dedupe_from
dedupe_from-All P p [] h = tt
dedupe_from-All P p (x ∷ arr) h = elim (Bool-cases (x == p)) [
  | inl same ↦ rw same (dedupe_from-All P x arr h.1)
  | inr other ↦ rw other (h.0, dedupe_from-All P x arr h.1)
]

pub dedupe_consecutive-All :
    (P : Text → Type 0) (arr : List Text) → All P arr → All P (dedupe_consecutive arr)
unfolding dedupe_consecutive
dedupe_consecutive-All P [] h = tt
dedupe_consecutive-All P (x ∷ arr) h = (h.0, dedupe_from-All P x arr h.1)

-- The result has no two equal elements side by side, and a second pass changes nothing.
pub dedupe_consecutive_lem :
    (arr : List Text)
    → HasNoRepeat (dedupe_consecutive arr)
      × (dedupe_consecutive (dedupe_consecutive arr) ≡ dedupe_consecutive arr)
dedupe_consecutive_lem arr = (
  dedupe_consecutive-HasNoRepeat arr,
  dedupe_consecutive_fixed (dedupe_consecutive arr) (dedupe_consecutive-HasNoRepeat arr),
)

abbrev pub visible_id : Option Text → List Text → List Text
visible_id none rest = rest
visible_id (some []) rest = rest
visible_id (some (c ∷ id)) rest = (c ∷ id) ∷ rest

-- The ids of the steps that have a node.
abbrev pub visible : List PathStep → List Text
visible [] = []
visible (step ∷ steps) = visible_id step.node_id (visible steps)

-- `dedupeConsecutive` after an optional last element.
abbrev dedupe_after : Option Text → List Text → List Text
dedupe_after none ids = dedupe_consecutive ids
dedupe_after (some last) ids = dedupe_from last ids

visit-nodes :
    (id : Text) (last : Option Text) (c : Compaction) (rest : List Text)
    → c.last ≡ last
    → (visit id last c).nodes ++ dedupe_after (visit id last c).last rest
      ≡ c.nodes ++ dedupe_after last (id ∷ rest)
unfolding dedupe_from dedupe_consecutive
visit-nodes id none c rest h = append_assoc c.nodes (id ∷ []) (dedupe_from id rest)
visit-nodes id (some previous) c rest h = elim (Bool-cases (previous == id)) [
  | inl same ↦ rw (same, eq_comm id previous, same, h, (eq_iff previous id).0 same) refl
  | inr other ↦
      rw (other, eq_comm id previous, other) (append_assoc c.nodes (id ∷ []) (dedupe_from id rest))
]

omit-nodes :
    (step : PathStep) (last : Option Text) (c : Compaction)
    → ((omit step last c).nodes ≡ c.nodes) × ((omit step last c).last ≡ c.last)
omit-nodes step none c = (refl, refl)
omit-nodes step (some previous) c = elim (Bool-cases step.mark_hidden_link_when_omitted) [
  | inl e ↦ rw e (refl, refl)
  | inr e ↦ rw e (refl, refl)
]

omit_step-nodes :
    (step : PathStep) (c : Compaction) (rest : List Text)
    → (omit step c.last c).nodes ++ dedupe_after (omit step c.last c).last rest
      ≡ c.nodes ++ dedupe_after c.last rest
omit_step-nodes step c rest = rw ((omit-nodes step c.last c).0, (omit-nodes step c.last c).1) refl

compact_step-nodes :
    (step : PathStep) (id : Option Text) (c : Compaction) (rest : List Text)
    → (compact_step step id c).nodes ++ dedupe_after (compact_step step id c).last rest
      ≡ c.nodes ++ dedupe_after c.last (visible_id id rest)
compact_step-nodes step none c rest = omit_step-nodes step c rest
compact_step-nodes step (some []) c rest = omit_step-nodes step c rest
compact_step-nodes step (some (a ∷ id)) c rest = visit-nodes (a ∷ id) c.last c rest refl

dedupe_after_nil : (ids : List Text) (last : Option Text) → ids ++ dedupe_after last [] ≡ ids
unfolding dedupe_from dedupe_consecutive
dedupe_after_nil ids none = append-nil ids
dedupe_after_nil ids (some last) = append-nil ids

compact_from-nodes :
    (steps : List PathStep) (c : Compaction)
    → (compact_from c steps).nodes ≡ c.nodes ++ dedupe_after c.last (visible steps)
unfolding compact_from dedupe_from dedupe_consecutive
compact_from-nodes [] c = sym (dedupe_after_nil c.nodes c.last)
compact_from-nodes (step ∷ steps) c =
    compact_from-nodes steps (compact_step step step.node_id c)
    ∙ compact_step-nodes step step.node_id c (visible steps)

-- The nodes of a compacted path are the ids of the steps that have one, without consecutive
-- repetitions: steps that are omitted leave no node and do not keep apart the equal nodes around
-- them.
pub compact_path_steps-nodes :
    (steps : List PathStep)
    → ((compact_path_steps steps).nodes ≡ dedupe_consecutive (visible steps))
      × HasNoRepeat (compact_path_steps steps).nodes
unfolding compact_path_steps
compact_path_steps-nodes steps =
    let start : Compaction = record {
      nodes = [];
      last = none;
      dashed_link_details = [];
      pending_hidden_link = false;
      pending_hidden_labels = [];
    } in
    let p = compact_from-nodes steps start in
    (p, rw p (dedupe_consecutive-HasNoRepeat (visible steps)))
