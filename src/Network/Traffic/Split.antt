-- ===== src/Network/Traffic/Split.antt =====
-- When `analyzeRepeaterTraffic` of frontend/src/utils/visualizerUtils.ts splits a repeater.
use remoteterm_meshcore.Prelude.{
  ℕ, ◌≤◌, ◌≡◌, Bool, List, [], Text, length, keep, nat_eq, list_eq, ltb, any, ◌&&◌, codes, ◌==◌,
  get_or, contains, IsDistinct,
}
use remoteterm_meshcore.Prelude.JsMap
use remoteterm_meshcore.Prelude.JsMap.{JsMap, AllValues}
use remoteterm_meshcore.Network.Traffic.{
  TrafficObservation, RepeaterTrafficData, is_recent, index_sources, min_observations_to_split,
}

-- The key of the group of an observation.
abbrev pub hop_of : TrafficObservation → Text
hop_of obs = get_or obs.next_hop (codes "self")

-- Some of the observations is of this source and goes to this hop.
abbrev pub goes_to : Text → Text → TrafficObservation → Bool
goes_to hop source obs = hop_of obs == hop && obs.source == source

-- How many next hops an index has for a source.
abbrev hops_of : Text → JsMap Text (List Text) → ℕ
hops_of source all_sources = length (get_or (JsMap.get source all_sources) [])

-- How many groups a source is in.
abbrev pub groups_of : Text → JsMap Text (List Text) → List (List Text)
groups_of source groups = keep (λ sources. contains sources source) (JsMap.values groups)

-- A source with several next hops, as the second test of the code looks for it.
abbrev is_shared : List Text → Bool
is_shared next_hops = ltb 1 (length next_hops)

abbrev is_small : List Text → Bool
is_small sources = ltb (length sources) min_observations_to_split

module _ (groups : JsMap Text (List Text)) (d : AllValues IsDistinct groups) where
  abbrev index : JsMap Text (List Text)
  index = index_sources [] groups

-- Under each next hop stands exactly who sent a recent observation by it, each source once.
pub record IsGrouped (now : ℕ) (traffic : RepeaterTrafficData) (groups : JsMap Text (List Text))
    : Type 0 where
  pub grouped :
      (hop source : Text)
      → contains (get_or (JsMap.get hop groups) []) source
        ≡ any (goes_to hop source) (keep (is_recent now) traffic.observations)
  pub sources_distinct : AllValues IsDistinct groups
  pub hops_distinct : JsMap.HasDistinctKeys groups

-- There are two groups at least, each has 20 sources or more, and no source is in two of them.
pub record IsSplittable (groups : JsMap Text (List Text)) : Type 0 where
  pub two : 2 ≤ length groups
  pub many : AllValues (λ (sources : List Text). min_observations_to_split ≤ length sources) groups
  pub disjoint : (source : Text) → length (groups_of source groups) ≤ 1
