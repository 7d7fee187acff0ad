-- ===== src/Network/Traffic/Laws.antt =====
-- Lemmas on `analyzeRepeaterTraffic` and `recordTrafficObservation`.
use remoteterm_meshcore.Prelude.{
  keep_holds, ℕ, ◌-◌, ◌≤◌, ◌≡◌, inl, inr, Bool, true, false, Option, some, List, [], ◌∷◌, ◌++◌,
  Text, arith, length, length-drop, keep, All, All-drop, nat_eq, list_eq, Bool-cases, Option-cases,
  ltb, any,
}
use remoteterm_meshcore.Prelude.JsMap.{JsMap, set-AllValues, AllValues}
use remoteterm_meshcore.Network.Steps.{normalize_hop_token}
use remoteterm_meshcore.Network.Traffic.{
  TrafficObservation, RepeaterTrafficData, is_recent, add_observation, record_traffic_observation,
  max_traffic_observations,
}

-- A repeater has at most 200 observations.
abbrev pub IsBounded : RepeaterTrafficData → Type 0
IsBounded traffic = length traffic.observations ≤ max_traffic_observations

length-add_observation :
    (now : ℕ) (obs : TrafficObservation) (observations : List TrafficObservation)
    → length (add_observation now obs observations) ≤ max_traffic_observations
unfolding add_observation
length-add_observation now obs observations =
    let recent : List TrafficObservation = keep (is_recent now) (observations ++ obs ∷ []) in
    ground (arith, length-drop (length recent - max_traffic_observations) recent)

-- The observations kept for a repeater are at most 200, and each is less than 30 minutes old.
pub add_observation_lem :
    (now : ℕ) (obs : TrafficObservation) (observations : List TrafficObservation)
    → (length (add_observation now obs observations) ≤ max_traffic_observations)
      × All (λ o. is_recent now o ≡ true) (add_observation now obs observations)
unfolding add_observation
add_observation_lem now obs observations =
    let recent : List TrafficObservation = keep (is_recent now) (observations ++ obs ∷ []) in
    (
      length-add_observation now obs observations,
      elim (Bool-cases (ltb max_traffic_observations (length recent))) [
        | inl full ↦
            rw (full, add_observation)
              (All-drop _ (length recent - max_traffic_observations) recent
                (keep_holds (is_recent now) _))
        | inr room ↦ rw (room, add_observation) (keep_holds (is_recent now) _)
      ],
    )

pub any-false {ℓ} :
    {A : Type ℓ} (p : A → Bool) (xs : List A) → any p xs ≡ false → All (λ x. p x ≡ false) xs
unfolding any
any-false p [] h = tt
any-false p (x ∷ xs) h = (ground arith, any-false p xs (ground arith))

-- Recording an observation of any repeater keeps all repeaters at 200 observations or fewer.
pub record_traffic_observation-IsBounded :
    (now : ℕ) (traffic_data : JsMap Text RepeaterTrafficData) (hop_key source : Text)
    (next_hop : Option Text)
    → AllValues IsBounded traffic_data
    → AllValues IsBounded (record_traffic_observation now traffic_data hop_key source next_hop)
unfolding record_traffic_observation
record_traffic_observation-IsBounded now traffic_data hop_key source next_hop h =
    elim (Option-cases (normalize_hop_token (some hop_key))) [
      | inl q ↦ rw q h
      | inr (key, q) ↦
          rw q (set-AllValues IsBounded key _ traffic_data (length-add_observation now _ _) h)
    ]
