-- ===== src/Tests/Paths.antt =====
-- The theorems about paths, at concrete contacts and packets.
use remoteterm_meshcore.Prelude.{
  ℕ, ◌*◌, ◌<◌, ◌≡◌, refl, true, false, none, some, List, [], ◌∷◌, ◌++◌, map, Text, codes, arith,
  All, length, drop, is_some, nat_eq, if◌then◌else◌, to_upper_case,
}
use remoteterm_meshcore.Prelude.Int.{ℤ, pos, negsuc}
use remoteterm_meshcore.Data.{Contact, override, direct, flood}
use remoteterm_meshcore.Paths.{parse_path_hops, chars_per_hop_of}
use remoteterm_meshcore.Paths.Laws.{concat, parse_path_hops-concat, parse_path_hops_split}
use remoteterm_meshcore.Paths.Payload.{extract_packet_payload_hex}
use remoteterm_meshcore.Paths.Payload.Digits.{hex_byte}
use remoteterm_meshcore.Paths.Payload.Laws.{is_refused, announced, extract_packet_payload_hex_lem}
use remoteterm_meshcore.Paths.Route.{
  has_routing_override, get_direct_contact_route, get_effective_contact_route,
}
use remoteterm_meshcore.Paths.Route.Laws.{has_usable_mode, get_effective_contact_route_lem}
use remoteterm_meshcore.Paths.Places.{
  PathHop, first_located, calculate_total_distances, single_place, is_valid_location,
}
use remoteterm_meshcore.Paths.Places.Laws.{
  legs, total_of, waypoints, calculate_total_distances_lem, calculate_total_distances_unlocated,
}

abbrev two_hops : List Text
two_hops = codes "1a2b" ∷ codes "3c4d" ∷ []

parse_path_hops-concat_example :
    parse_path_hops (some (concat two_hops)) (some (pos (length two_hops)))
    ≡ map to_upper_case two_hops
parse_path_hops-concat_example = parse_path_hops-concat two_hops 2 (omega arith) (refl, (refl, tt))

parse_path_hops_split_example :
    (rest : Text) × (concat (parse_path_hops (some (codes "1a2b3")) none) ++ rest
      ≡ to_upper_case (codes "1a2b3"))
    × (length rest < chars_per_hop_of (length (codes "1a2b3")) none)
    × All
        (λ hop. length hop ≡ chars_per_hop_of (length (codes "1a2b3")) none)
        (parse_path_hops (some (codes "1a2b3")) none)
parse_path_hops_split_example = parse_path_hops_split (codes "1a2b3") none

extract_packet_payload_hex_lem_example :
    extract_packet_payload_hex (hex_byte 21 ++ ([] ++ (hex_byte 65 ++ codes "aabbccdd"))) ≡ (
      if is_refused 65 (codes "aabbccdd")
      then none
      else some (drop (announced 65 * 2) (to_upper_case (codes "aabbccdd"))))
extract_packet_payload_hex_lem_example =
    extract_packet_payload_hex_lem 21 65 [] (codes "aabbccdd") (omega arith) (omega arith) refl

abbrev peer : Contact
peer = record {
  public_key = codes "aabb";
  name = none;
  kind = 2;
  flags = 0;
  direct_path = some (codes "1a2b");
  direct_path_len = pos 1;
  direct_path_hash_mode = negsuc 0;
  direct_path_updated_at = none;
  route_override_path = none;
  route_override_len = none;
  route_override_hash_mode = none;
  effective_route = none;
  effective_route_source = none;
  direct_route = none;
  route_override = none;
  last_advert = none;
  lat = some (pos 1000000);
  lon = some (pos 2000000);
  last_seen = none;
  on_radio = true;
  favorite = false;
  last_contacted = none;
  last_read_at = none;
  first_seen = none;
  flood_scope_override = none;
}

get_effective_contact_route_lem_example :
    (has_usable_mode (get_effective_contact_route peer) ≡ true)
    × ((get_effective_contact_route peer).forced ≡ has_routing_override peer)
    × ((get_effective_contact_route peer).source ≡ (
        if has_routing_override peer
        then override
        else if is_some (get_direct_contact_route peer)
        then direct
        else flood))
get_effective_contact_route_lem_example = get_effective_contact_route_lem peer refl

abbrev one_unit : ℤ × ℤ → ℤ × ℤ → ℕ
one_unit a b = 7

abbrev hop : PathHop
hop = record { prefix = codes "AA"; matches = peer ∷ []; distance_from_prev = none }

calculate_total_distances_lem_example :
    calculate_total_distances one_unit (some (pos 1, pos 1)) (hop ∷ []) (some (pos 3, pos 3))
    ≡ total_of one_unit
        (legs one_unit (some (pos 1, pos 1)) (waypoints one_unit (hop ∷ []) (some (pos 3, pos 3))))
calculate_total_distances_lem_example =
    calculate_total_distances_lem one_unit (pos 1, pos 1) (hop ∷ []) (some (pos 3, pos 3))

hop_located : first_located one_unit (hop ∷ []) ≡ some ((pos 1000000, pos 2000000), [])
unfolding first_located single_place is_valid_location
hop_located = refl

calculate_total_distances_unlocated_example :
    (calculate_total_distances one_unit none (hop ∷ []) (some (pos 3, pos 3)) ≡ none)
    × (legs one_unit none (waypoints one_unit (hop ∷ []) (some (pos 3, pos 3)))
        ≡ legs one_unit
            (some (pos 1000000, pos 2000000))
            (waypoints one_unit [] (some (pos 3, pos 3))))
calculate_total_distances_unlocated_example =
    calculate_total_distances_unlocated one_unit (hop ∷ []) (some (pos 3, pos 3))
      (pos 1000000, pos 2000000) [] hop_located
