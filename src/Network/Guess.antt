-- ===== src/Network/Guess.antt =====
-- What advert paths and traffic tell of an ambiguous hop: `pickLikelyRepeaterByAdvertPath` and the
-- parts of `resolveNode` that use them, of frontend/src/networkGraph/packetNetworkGraph.ts. The order
-- of `localeCompare` is a parameter.
use remoteterm_meshcore.Prelude.{
  ℕ, ◌+◌, ◌*◌, Bool, not, ◌&&◌, ◌||◌, Option, none, some, List, [], ◌∷◌, Text, take, keep, ltb,
  get_or, is_some, nat_eq, list_eq, option_eq, to_lower_case, to_upper_case, if◌then◌else◌, ◌==◌,
}
use remoteterm_meshcore.Prelude.JsMap
use remoteterm_meshcore.Prelude.JsMap.{JsMap}
use remoteterm_meshcore.Prelude.Sort.{sort}
use remoteterm_meshcore.Data.{Contact, ContactAdvertPath}
use remoteterm_meshcore.Network.Steps.{
  truthy, build_ambiguous_repeater_node_id, build_ambiguous_repeater_label,
}
use remoteterm_meshcore.Network.Traffic.{record_traffic_observation, analyze_repeater_traffic}
use remoteterm_meshcore.Network.Graph.{PacketNetworkState}
use remoteterm_meshcore.Network.Context.{PacketNetworkContext, prefix12}

pub record TrafficContext : Type 0 where
  pub packet_source : Option Text
  pub next_prefix : Option Text

pub record Scored : Type 0 where
  pub candidate : Contact
  pub match_score : ℕ
  pub total_score : ℕ

-- `text?.toLowerCase() ?? null`
abbrev pub lower : Option Text → Option Text
lower none = none
lower (some t) = some (to_lower_case t)

-- The loop over the advert paths of a candidate.
unfoldable pub score_paths : Option Text → Scored → List ContactAdvertPath → Scored
score_paths next_hop scored [] = scored
score_paths next_hop scored (path ∷ paths) =
    score_paths next_hop
      (record scored {
        total_score = scored.total_score + path.heard_count;
        match_score =
            if lower path.next_hop == next_hop
            then scored.match_score + path.heard_count
            else scored.match_score;
      })
      paths

unfoldable pub score_candidates : PacketNetworkContext → Option Text → List Contact → List Scored
unfolding score_paths
score_candidates context next_hop [] = []
score_candidates context next_hop (candidate ∷ candidates) =
    score_paths next_hop (record { candidate = candidate; match_score = 0; total_score = 0 })
      (get_or (JsMap.get (prefix12 candidate.public_key) context.advert_paths_by_repeater) [])
    ∷ score_candidates context next_hop candidates

-- The tests on the two best candidates.
unfoldable pub pick_top : List Scored → Option Contact
pick_top [] = none
pick_top (top ∷ []) = if ltb top.match_score 2 then none else some top.candidate
pick_top (top ∷ second ∷ rest) =
    if ltb top.match_score 2
    then none
    else if ltb top.match_score (second.match_score * 2)
    then none
    else some top.candidate

-- `candidate.name || candidate.public_key.slice(0, n)`
abbrev pub name_or_key : ℕ → Contact → Text
name_or_key n candidate = elim candidate.name [
  | none ↦ take n candidate.public_key
  | some given ↦ get_or (truthy given) (take n candidate.public_key)
]

abbrev pub names_or_keys : ℕ → List Contact → List Text
names_or_keys n [] = []
names_or_keys n (candidate ∷ candidates) = name_or_key n candidate ∷ names_or_keys n candidates

-- The latest `last_seen`; zero and null count as not seen.
unfoldable pub latest_seen : Option ℕ → List Contact → Option ℕ
latest_seen latest [] = latest
latest_seen latest (candidate ∷ candidates) =
    latest_seen
      (elim candidate.last_seen [
        | none ↦ latest
        | some seen ↦
            if ltb 0 seen && (get_or latest 0 == 0 || ltb (get_or latest 0) seen)
            then some seen
            else latest
      ])
      candidates

-- What the hints and the traffic make of an ambiguous hop.
pub record Guess : Type 0 where
  pub node_id : Text
  pub display_name : Text
  pub probable_identity : Option Text
  pub probable_identity_node_id : Option Text
  pub ambiguous_names : Option (List Text)

abbrev pub some_names : List Text → Option (List Text)
some_names [] = none
some_names (n ∷ ns) = some (n ∷ ns)

module _ (locale_before : Text → Text → Bool) where
  -- The comparator of the candidates.
  abbrev pub better : Scored → Scored → Bool
  better a b =
      ltb b.match_score a.match_score
      || (a.match_score == b.match_score
          && (ltb b.total_score a.total_score
              || (a.total_score == b.total_score
                  && locale_before a.candidate.public_key b.candidate.public_key)))

  unfoldable pub pick_likely_repeater_by_advert_path :
      PacketNetworkContext → List Contact → Option Text → Option Contact
  unfolding score_candidates pick_top
  pick_likely_repeater_by_advert_path context candidates next_prefix = pick_top (
      sort better (
        keep (λ (entry : Scored). ltb 0 entry.total_score)
          (score_candidates context (lower next_prefix) candidates)))

  -- The `useAdvertPathHints` part of `resolveNode`.
  unfoldable pub guess_by_advert_path :
      PacketNetworkContext → List Contact → TrafficContext → Guess → Guess
  unfolding pick_likely_repeater_by_advert_path
  guess_by_advert_path context filtered traffic guess =
      elim (pick_likely_repeater_by_advert_path context filtered traffic.next_prefix) [
        | none ↦ guess
        | some likely ↦
            let likely_name : Text = elim likely.name [
              | none ↦ to_upper_case (take 12 likely.public_key)
              | some given ↦ get_or (truthy given) (to_upper_case (take 12 likely.public_key))
            ] in
            record {
              node_id = guess.node_id;
              display_name = likely_name;
              probable_identity = some likely_name;
              probable_identity_node_id = some (prefix12 likely.public_key);
              ambiguous_names = some (
                  names_or_keys 8 (
                    keep (λ (candidate : Contact). not (candidate.public_key == likely.public_key))
                      filtered));
            }
      ]

-- The `splitAmbiguousByTraffic` part of `resolveNode`: the state with the observation, and the guess
-- with the split id.
abbrev pub observe_traffic : ℕ → Text → TrafficContext → PacketNetworkState → PacketNetworkState
observe_traffic now lookup_value traffic state = elim traffic.packet_source [
  | none ↦ state
  | some [] ↦ state
  | some (c ∷ source) ↦ record state {
    traffic_patterns =
        record_traffic_observation now state.traffic_patterns lookup_value (c ∷ source)
          (lower traffic.next_prefix);
  }
]

abbrev split_guess : Text → Option Text → Guess → Guess
split_guess lookup_value none guess = guess
split_guess lookup_value (some []) guess = guess
split_guess lookup_value (some (c ∷ next)) guess = record guess {
  node_id = build_ambiguous_repeater_node_id lookup_value (some (c ∷ next));
  display_name =
      if is_some guess.probable_identity
      then guess.display_name
      else build_ambiguous_repeater_label lookup_value (some (c ∷ next));
}

unfoldable pub split_by_traffic :
    ℕ → Text → TrafficContext → Guess → PacketNetworkState → PacketNetworkState × Guess
split_by_traffic now lookup_value traffic guess state =
    let state' = observe_traffic now lookup_value traffic state in
    (
      state',
      elim (JsMap.get lookup_value state'.traffic_patterns) [
        | none ↦ guess
        | some patterns ↦
            if is_some (analyze_repeater_traffic now patterns)
            then split_guess lookup_value (lower traffic.next_prefix) guess
            else guess
      ],
    )
