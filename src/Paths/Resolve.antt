-- ===== src/Paths/Resolve.antt =====
-- `resolvePath` of frontend/src/utils/pathUtils.ts with what it calls. Coordinates are in millionths
-- of a degree; `haversine` is the formula of `calculateDistance` on two places.
use remoteterm_meshcore.Prelude.{
  ℕ, Bool, true, false, not, ◌&&◌, ◌||◌, Option, none, some, List, [], ◌∷◌, Text, codes, keep, any,
  ltb, or_else, is_some, nat_eq, if◌then◌else◌, ◌==◌, to_upper_case, starts_with,
}
use remoteterm_meshcore.Prelude.Sort.{sort}
use remoteterm_meshcore.Prelude.Int.{ℤ, pos, int_eq}
use remoteterm_meshcore.Data.{Contact, contact_type_repeater}
use remoteterm_meshcore.Paths.{
  normalize_path_hash_mode, infer_path_hash_mode, format_endpoint_prefix, parse_path_hops,
}
use remoteterm_meshcore.Paths.Places.{
  PathHop, is_valid_location, located, single_place, calculate_total_distances,
}

pub record SenderInfo : Type 0 where
  pub name : Text
  pub public_key_or_prefix : Text
  pub lat : Option ℤ
  pub lon : Option ℤ
  pub path_hash_mode : Option ℤ

-- The fields of `RadioConfig` that are read here.
pub record RadioConfig : Type 0 where
  pub public_key : Text
  pub name : Text
  pub lat : ℤ
  pub lon : ℤ
  pub path_hash_mode : ℤ

pub record Endpoint : Type 0 where
  pub name : Text
  pub prefix : Text
  pub lat : Option ℤ
  pub lon : Option ℤ
  pub public_key : Option Text

pub record ResolvedPath : Type 0 where
  pub sender : Endpoint
  pub hops : List PathHop
  pub receiver : Endpoint
  pub total_distances : Option ℕ
  pub has_gaps : Bool

unfoldable pub find_contacts_by_prefix : Text → List Contact → Bool → List Contact
find_contacts_by_prefix prefix contacts repeaters_only =
    keep
      (λ (c : Contact).
        if repeaters_only && not (c.kind == contact_type_repeater)
        then false
        else starts_with (to_upper_case c.public_key) (to_upper_case prefix))
      contacts

module _ (haversine : ℤ × ℤ → ℤ × ℤ → ℕ) where
  unfoldable pub calculate_distance : Option ℤ → Option ℤ → Option ℤ → Option ℤ → Option ℕ
  calculate_distance (some lat1) (some lon1) (some lat2) (some lon2) =
      some (haversine (lat1, lon1) (lat2, lon2))
  calculate_distance _ _ _ _ = none

  -- `compare(a, b) < 0` of the distances: a missing one is last.
  abbrev pub nearer : Option ℕ → Option ℕ → Bool
  nearer none b = false
  nearer (some a) none = true
  nearer (some a) (some b) = ltb a b

  unfoldable pub sort_contacts_by_distance : List Contact → Option ℤ → Option ℤ → List Contact
  unfolding calculate_distance
  sort_contacts_by_distance contacts (some lat) (some lon) =
      sort
        (λ (a b : Contact).
          nearer (calculate_distance (some lat) (some lon) a.lat a.lon)
            (calculate_distance (some lat) (some lon) b.lat b.lon))
        contacts
  sort_contacts_by_distance contacts _ _ = contacts

  -- The loop of `resolvePath` over the hops, with the place of the hop before and whether it is
  -- uncertain.
  unfoldable pub resolve_path_hops :
      List Contact → Option ℤ → Option ℤ → Bool → List Text → List PathHop
  unfolding calculate_distance sort_contacts_by_distance
  resolve_path_hops contacts prev_lat prev_lon uncertain [] = []
  resolve_path_hops contacts prev_lat prev_lon uncertain (prefix ∷ prefixes) =
      let sorted =
        sort_contacts_by_distance (find_contacts_by_prefix prefix contacts true) prev_lat
          prev_lon in
      elim sorted [
        | [] ↦
            record { prefix = prefix; matches = []; distance_from_prev = none }
            ∷ resolve_path_hops contacts none none true prefixes
        | c ∷ cs ↦
            let valid = is_valid_location c.lat c.lon in
            let next_lat = if valid then c.lat else none in
            let next_lon = if valid then c.lon else none in
            elim cs [
              | [] ↦
                  record {
                    prefix = prefix;
                    matches = c ∷ [];
                    distance_from_prev =
                        if not uncertain && valid
                        then calculate_distance prev_lat prev_lon c.lat c.lon
                        else none;
                  }
                  ∷ resolve_path_hops contacts next_lat next_lon (not valid) prefixes
              | d ∷ ds ↦
                  record { prefix = prefix; matches = c ∷ d ∷ ds; distance_from_prev = none }
                  ∷ resolve_path_hops contacts next_lat next_lon true prefixes
            ]
      ]

  -- `config?.lat ?? null`
  abbrev pub of_config {ℓ} : {A : Type ℓ} → Option RadioConfig → (RadioConfig → A) → Option A
  of_config none field = none
  of_config (some config) field = some (field config)

  abbrev pub as_mode : Option ℕ → Option ℤ
  as_mode none = none
  as_mode (some mode) = some (pos mode)

  -- `config?.name || 'Unknown'`
  abbrev pub receiver_name : Option Text → Text
  receiver_name (some (c ∷ name)) = c ∷ name
  receiver_name _ = codes "Unknown"

  unfoldable pub resolve_path :
      Option Text → SenderInfo → List Contact → Option RadioConfig → Option ℤ → ResolvedPath
  unfolding resolve_path_hops
  resolve_path path sender contacts config hop_count =
      let inferred = infer_path_hash_mode path hop_count in
      let lat = of_config config (λ (c : RadioConfig). c.lat) in
      let lon = of_config config (λ (c : RadioConfig). c.lon) in
      let key = of_config config (λ (c : RadioConfig). c.public_key) in
      let mode = of_config config (λ (c : RadioConfig). c.path_hash_mode) in
      let hops =
        resolve_path_hops contacts sender.lat sender.lon
          (not (is_valid_location sender.lat sender.lon)) (parse_path_hops path hop_count) in
      record {
        sender = record {
          name = sender.name;
          prefix =
              format_endpoint_prefix (some sender.public_key_or_prefix)
                (as_mode (or_else (normalize_path_hash_mode sender.path_hash_mode) inferred));
          lat = sender.lat;
          lon = sender.lon;
          public_key = none;
        };
        hops = hops;
        receiver = record {
          name = receiver_name (of_config config (λ (c : RadioConfig). c.name));
          prefix =
              format_endpoint_prefix key
                (as_mode (or_else (normalize_path_hash_mode mode) inferred));
          lat = lat;
          lon = lon;
          public_key = key;
        };
        total_distances =
            calculate_total_distances haversine (located sender.lat sender.lon) hops
              (located lat lon);
        has_gaps =
            not (is_valid_location sender.lat sender.lon)
            || not (is_valid_location lat lon)
            || any (λ hop. not (is_some (single_place hop))) hops;
      }
