-- ===== src/Network/Traffic.antt =====
-- The traffic patterns by which one ambiguous repeater is split in several:
-- `analyzeRepeaterTraffic` and `recordTrafficObservation` of frontend/src/utils/visualizerUtils.ts.
pub mod Laws
pub mod Split
use remoteterm_meshcore.Prelude.{
  ℕ, ◌+◌, ◌-◌, ◌*◌, Bool, true, false, not, ◌&&◌, ◌||◌, Option, none, some, List, [], ◌∷◌, ◌++◌,
  Text, codes, length, drop, keep, any, ltb, leb, get_or, nat_eq, list_eq, if◌then◌else◌, ◌==◌,
  insert,
}
use remoteterm_meshcore.Prelude.JsMap
use remoteterm_meshcore.Prelude.JsMap.{JsMap}
use remoteterm_meshcore.Network.Steps.{normalize_hop_token}

abbrev pub min_observations_to_split : ℕ
min_observations_to_split = 20

abbrev pub max_traffic_observations : ℕ
max_traffic_observations = 200

abbrev pub traffic_observation_max_age_ms : ℕ
traffic_observation_max_age_ms = 1800000

pub record TrafficObservation : Type 0 where
  pub source : Text
  pub next_hop : Option Text
  pub timestamp : ℕ

pub record RepeaterTrafficData : Type 0 where
  pub hop_key : Text
  pub observations : List TrafficObservation

-- `now - obs.timestamp < TRAFFIC_OBSERVATION_MAX_AGE_MS`, also of a timestamp after `now`
abbrev pub is_recent : ℕ → TrafficObservation → Bool
is_recent now obs = ltb now (obs.timestamp + traffic_observation_max_age_ms)

-- The loop that groups the sources by next hop.
unfoldable pub group_by_next_hop :
    JsMap Text (List Text) → List TrafficObservation → JsMap Text (List Text)
group_by_next_hop groups [] = groups
group_by_next_hop groups (obs ∷ observations) =
    let hop_key = get_or obs.next_hop (codes "self") in
    group_by_next_hop
      (JsMap.set hop_key (insert obs.source (get_or (JsMap.get hop_key groups) [])) groups)
      observations

-- The loop over one group: the next hops that each source uses.
unfoldable pub add_sources : Text → List Text → JsMap Text (List Text) → JsMap Text (List Text)
add_sources next_hop [] all_sources = all_sources
add_sources next_hop (source ∷ sources) all_sources =
    add_sources next_hop sources
      (JsMap.set source (get_or (JsMap.get source all_sources) [] ++ next_hop ∷ []) all_sources)

unfoldable pub index_sources :
    JsMap Text (List Text) → JsMap Text (List Text) → JsMap Text (List Text)
unfolding add_sources
index_sources all_sources [] = all_sources
index_sources all_sources ((next_hop, sources) ∷ groups) =
    index_sources (add_sources next_hop sources all_sources) groups

-- `some` groups is `{ shouldSplit: true, disjointGroups }`.
unfoldable pub analyze_repeater_traffic : ℕ → RepeaterTrafficData → Option (JsMap Text (List Text))
unfolding group_by_next_hop index_sources
analyze_repeater_traffic now traffic =
    let groups = group_by_next_hop [] (keep (is_recent now) traffic.observations) in
    if leb (length groups) 1
    then none
    else if any (λ (next_hops : List Text). ltb 1 (length next_hops))
        (JsMap.values (index_sources [] groups))
    then none
    else if any (λ (sources : List Text). ltb (length sources) min_observations_to_split)
        (JsMap.values groups)
    then none
    else some groups

-- The observations of one repeater with one more: old ones are dropped, and the oldest over the
-- limit.
unfoldable pub add_observation :
    ℕ → TrafficObservation → List TrafficObservation → List TrafficObservation
add_observation now obs observations =
    let recent = keep (is_recent now) (observations ++ obs ∷ []) in
    if ltb max_traffic_observations (length recent)
    then drop (length recent - max_traffic_observations) recent
    else recent

abbrev pub record_at :
    ℕ
    → Option Text
    → Text
    → Option Text
    → JsMap Text RepeaterTrafficData
    → JsMap Text RepeaterTrafficData
record_at now none source next_hop traffic_data = traffic_data
record_at now (some hop_key) source next_hop traffic_data =
    let traffic =
      get_or (JsMap.get hop_key traffic_data) (record { hop_key = hop_key; observations = [] }) in
    JsMap.set hop_key
      (record traffic {
        observations =
            add_observation now
              (record { source = source; next_hop = normalize_hop_token next_hop; timestamp = now })
              traffic.observations;
      })
      traffic_data

unfoldable pub record_traffic_observation :
    ℕ → JsMap Text RepeaterTrafficData → Text → Text → Option Text → JsMap Text RepeaterTrafficData
unfolding add_observation
record_traffic_observation now traffic_data hop_key source next_hop =
    record_at now (normalize_hop_token (some hop_key)) source next_hop traffic_data
