-- ===== src/Paths/Places/Laws.antt =====
-- The length of a path of frontend/src/utils/pathUtils.ts as a sum of legs.
use remoteterm_meshcore.Prelude.{
  ℕ, ◌+◌, ◌≡◌, ◌≢◌, refl, ap, sym, ◌∙◌, inl, inr, Bool, true, false, not, ◌&&◌, Option, none, some,
  List, [], ◌∷◌, ◌++◌, map, arith, get_or, is_some, Option-cases,
}
use remoteterm_meshcore.Prelude.Int.{ℤ}
use remoteterm_meshcore.Paths.Places.{
  PathHop, single_place, sum_legs, first_located, add_final_leg, calculate_total_distances,
}

module _ (haversine : ℤ × ℤ → ℤ × ℤ → ℕ) where
  -- The distances between neighbours that both have a place.
  abbrev pub legs : Option (ℤ × ℤ) → List (Option (ℤ × ℤ)) → List ℕ
  legs before [] = []
  legs none (p ∷ ps) = legs p ps
  legs (some before) (none ∷ ps) = legs none ps
  legs (some before) (some place ∷ ps) = haversine before place ∷ legs (some place) ps

  abbrev pub sum : List ℕ → ℕ
  sum [] = 0
  sum (d ∷ ds) = d + sum ds

  -- No distance without a leg.
  abbrev pub total_of : List ℕ → Option ℕ
  total_of [] = none
  total_of (d ∷ ds) = some (sum (d ∷ ds))

  abbrev pub waypoints : List PathHop → Option (ℤ × ℤ) → List (Option (ℤ × ℤ))
  waypoints hops receiver = map single_place hops ++ receiver ∷ []

  added : Option ℕ → List ℕ → Option ℕ
  added total [] = total
  added total (d ∷ ds) = some (get_or total 0 + sum (d ∷ ds))

  added_next :
      (total : Option ℕ) (d : ℕ) (ds : List ℕ)
      → added (some (get_or total 0 + d)) ds ≡ added total (d ∷ ds)
  unfolding added
  added_next total d [] = ap some (omega arith)
  added_next total d (e ∷ ds) = ap some (omega arith)

  final_leg :
      (receiver prev : Option (ℤ × ℤ)) (total : Option ℕ) (last : Bool)
      → (not last && is_some prev) ≡ false
      → add_final_leg haversine receiver (prev, total, last)
        ≡ added total (legs prev (receiver ∷ []))
  unfolding add_final_leg added
  final_leg none none total last h = refl
  final_leg none (some before) total last h = refl
  final_leg (some place) none total last h = refl
  final_leg (some place) (some before) total true h = ap some (omega arith)
  final_leg (some place) (some before) total false h = cc

  added-none : (ds : List ℕ) → added none ds ≡ total_of ds
  unfolding added
  added-none [] = refl
  added-none (d ∷ ds) = ap some (omega arith)

  sum_legs_lem :
      (receiver prev : Option (ℤ × ℤ)) (total : Option ℕ) (last : Bool) (hops : List PathHop)
      → (not last && is_some prev) ≡ false
      → add_final_leg haversine receiver (sum_legs haversine prev total last hops)
        ≡ added total (legs prev (waypoints hops receiver))
  unfolding sum_legs
  sum_legs_lem receiver prev total last [] h = final_leg receiver prev total last h
  sum_legs_lem receiver none total last (hop ∷ hops) h = elim (Option-cases (single_place hop)) [
    | inl lost ↦ rw (lost, sum_legs) (sum_legs_lem receiver none total false hops refl)
    | inr (place, there) ↦
        rw (there, sum_legs) (sum_legs_lem receiver (some place) total true hops refl)
  ]
  sum_legs_lem receiver (some before) total last (hop ∷ hops) h =
      elim (Option-cases (single_place hop)) [
        | inl lost ↦ rw (lost, sum_legs) (sum_legs_lem receiver none total false hops refl)
        | inr (place, there) ↦
            rw (there, sum_legs)
              (sum_legs_lem receiver (some place) (some (get_or total 0 + haversine before place))
                  true hops refl
                ∙ added_next total (haversine before place) _)
      ]

  -- The first hop decides anew whether the last hop has a place.
  last_forgotten :
      (prev : Option (ℤ × ℤ)) (hop : PathHop) (hops : List PathHop)
      → sum_legs haversine prev none false (hop ∷ hops)
        ≡ sum_legs haversine prev none true (hop ∷ hops)
  unfolding sum_legs
  last_forgotten prev hop hops = refl

  sum_legs-total :
      (receiver : Option (ℤ × ℤ)) (before : ℤ × ℤ) (hop : PathHop) (hops : List PathHop)
      → add_final_leg haversine receiver (sum_legs haversine (some before) none false (hop ∷ hops))
        ≡ total_of (legs (some before) (waypoints (hop ∷ hops) receiver))
  sum_legs-total receiver before hop hops =
      ap (add_final_leg haversine receiver) (last_forgotten (some before) hop hops)
      ∙ sum_legs_lem receiver (some before) none true (hop ∷ hops) refl
      ∙ added-none (legs (some before) (waypoints (hop ∷ hops) receiver))

  -- With a sender whose place is known, the total is the sum of the distances between neighbours on
  -- the way that both have a place, the receiver included, and nothing if there are none.
  pub calculate_total_distances_lem :
      (sender : ℤ × ℤ) (hops : List PathHop) (receiver : Option (ℤ × ℤ))
      → calculate_total_distances haversine (some sender) hops receiver
        ≡ total_of (legs (some sender) (waypoints hops receiver))
  unfolding calculate_total_distances
  calculate_total_distances_lem sender [] none = refl
  calculate_total_distances_lem sender [] (some receiver) = ap some (omega arith)
  calculate_total_distances_lem sender (hop ∷ hops) receiver =
      sum_legs-total receiver sender hop hops

  legs-first_located :
      (hops : List PathHop) (receiver : Option (ℤ × ℤ)) (place : ℤ × ℤ) (rest : List PathHop)
      → first_located haversine hops ≡ some (place, rest)
      → legs none (waypoints hops receiver) ≡ legs (some place) (waypoints rest receiver)
  unfolding first_located
  legs-first_located [] receiver place rest h = absurd (cc)
  legs-first_located (hop ∷ hops) receiver place rest h = elim (Option-cases (single_place hop)) [
    | inl lost ↦ rw lost (legs-first_located hops receiver place rest (ground arith))
    | inr (there, is_there) ↦
        let same : (there, hops) ≡ (place, rest) = ground arith in
        rw is_there
          (ap (λ (q : (ℤ × ℤ) × List PathHop). legs (some q.0) (waypoints q.1 receiver)) same)
  ]

  located_somewhere :
      {place : ℤ × ℤ} {rest : List PathHop} → first_located haversine [] ≢ some (place, rest)
  unfolding first_located
  located_somewhere h = absurd (cc h)

  no_final_leg :
      (receiver : Option (ℤ × ℤ)) (place : ℤ × ℤ)
      → add_final_leg haversine receiver (sum_legs haversine (some place) none false []) ≡ none
  unfolding add_final_leg sum_legs
  no_final_leg none place = refl
  no_final_leg (some there) place = refl

  -- With a sender of unknown place, the way starts at the first hop that has one. If that is the
  -- last hop, there is no total, though its leg to the receiver is known.
  pub calculate_total_distances_unlocated :
      (hops : List PathHop) (receiver : Option (ℤ × ℤ)) (place : ℤ × ℤ) (rest : List PathHop)
      → first_located haversine hops ≡ some (place, rest)
      → (calculate_total_distances haversine none hops receiver
          ≡ (elim rest [ [] ↦ none | _ ∷ _ ↦ total_of (legs none (waypoints hops receiver)) ]))
        × (legs none (waypoints hops receiver) ≡ legs (some place) (waypoints rest receiver))
  unfolding calculate_total_distances
  calculate_total_distances_unlocated [] receiver place rest h = absurd (located_somewhere h)
  calculate_total_distances_unlocated (hop ∷ hops) receiver place [] h = (
    rw (h, calculate_total_distances) (no_final_leg receiver place),
    legs-first_located (hop ∷ hops) receiver place [] h,
  )
  calculate_total_distances_unlocated (hop ∷ hops) receiver place (next ∷ rest) h =
      let same = legs-first_located (hop ∷ hops) receiver place (next ∷ rest) h in
      (
        rw (h, calculate_total_distances)
            (sum_legs-total receiver place next rest ∙ ap total_of (sym same)),
        same,
      )
