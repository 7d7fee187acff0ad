-- ===== src/Paths/Places.antt =====
-- Places and the length of a path: `isValidLocation` and `calculateTotalDistances` of
-- frontend/src/utils/pathUtils.ts. Coordinates are in millionths of a degree; `haversine` is the
-- formula of `calculateDistance` on two places, an argument, with distances as natural numbers of
-- some small unit.
pub mod Laws
use remoteterm_meshcore.Prelude.{
  ℕ, ◌+◌, Bool, true, false, not, ◌&&◌, ◌||◌, Option, none, some, List, [], ◌∷◌, Text, get_or,
  nat_eq, if◌then◌else◌, ◌==◌,
}
use remoteterm_meshcore.Prelude.Int.{ℤ, pos, negsuc, ltb_ℤ, int_eq}
use remoteterm_meshcore.Data.{Contact}

pub record PathHop : Type 0 where
  pub prefix : Text
  pub matches : List Contact
  pub distance_from_prev : Option ℕ

-- A latitude or a longitude out of its range, or the place (0, 0), is none.
unfoldable pub is_valid_location : Option ℤ → Option ℤ → Bool
is_valid_location (some lat) (some lon) =
    if ltb_ℤ lat (negsuc 89999999)
      || ltb_ℤ (pos 90000000) lat
      || ltb_ℤ lon (negsuc 179999999)
      || ltb_ℤ (pos 180000000) lon
    then false
    else not (lat == pos 0 && lon == pos 0)
is_valid_location _ _ = false

-- The place of a hop with one match that has a valid location.
abbrev pub located : Option ℤ → Option ℤ → Option (ℤ × ℤ)
located (some lat) (some lon) =
    if is_valid_location (some lat) (some lon) then some (lat, lon) else none
located _ _ = none

unfoldable pub single_place : PathHop → Option (ℤ × ℤ)
single_place hop = elim hop.matches [
  | [] ↦ none
  | c ∷ cs ↦ elim cs [ [] ↦ located c.lat c.lon | _ ∷ _ ↦ none ]
]

module _ (haversine : ℤ × ℤ → ℤ × ℤ → ℕ) where
  -- The loop of `calculateTotalDistances`: the place before, the sum so far if there is one, and
  -- whether the last hop that was looked at has a place.
  unfoldable pub sum_legs :
      Option (ℤ × ℤ) → Option ℕ → Bool → List PathHop → Option (ℤ × ℤ) × Option ℕ × Bool
  sum_legs prev total last [] = (prev, total, last)
  sum_legs prev total last (hop ∷ hops) = elim (single_place hop) [
    | none ↦ sum_legs none total false hops
    | some place ↦
        sum_legs (some place)
          (elim prev [
            | none ↦ total
            | some before ↦ some (get_or total 0 + haversine before place)
          ])
          true hops
  ]

  -- The first hop with a place, and the hops after it.
  unfoldable pub first_located : List PathHop → Option ((ℤ × ℤ) × List PathHop)
  first_located [] = none
  first_located (hop ∷ hops) = elim (single_place hop) [
    | none ↦ first_located hops
    | some place ↦ some (place, hops)
  ]

  -- The leg to the receiver is added after a last hop with a place.
  unfoldable pub add_final_leg : Option (ℤ × ℤ) → Option (ℤ × ℤ) × Option ℕ × Bool → Option ℕ
  add_final_leg (some receiver) (some before, total, true) =
      some (get_or total 0 + haversine before receiver)
  add_final_leg receiver (prev, total, last) = total

  -- `calculateTotalDistances`, of the places of the sender and the receiver
  unfoldable pub calculate_total_distances :
      Option (ℤ × ℤ) → List PathHop → Option (ℤ × ℤ) → Option ℕ
  unfolding sum_legs first_located add_final_leg
  calculate_total_distances (some sender) [] (some receiver) = some (haversine sender receiver)
  calculate_total_distances _ [] _ = none
  calculate_total_distances (some sender) (hop ∷ hops) receiver =
      add_final_leg receiver (sum_legs (some sender) none false (hop ∷ hops))
  calculate_total_distances none (hop ∷ hops) receiver = elim (first_located (hop ∷ hops)) [
    | none ↦ none
    | some (place, rest) ↦ add_final_leg receiver (sum_legs (some place) none false rest)
  ]
