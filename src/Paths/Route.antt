-- ===== src/Paths/Route.antt =====
-- Routes to a contact: `getDirectContactRoute` to `formatRoutingOverrideInput` of
-- frontend/src/utils/pathUtils.ts.
pub mod Laws
use remoteterm_meshcore.Prelude.{
  ℕ, ◌+◌, Bool, true, false, not, ◌&&◌, ◌||◌, Option, none, some, List, [], ◌∷◌, ◌++◌, map, Text,
  codes, ltb, get_or, or_else, is_some, if◌then◌else◌, ◌==◌, join, to_string, upper_unit,
  to_lower_case,
}
use remoteterm_meshcore.Prelude.Int.{ℤ, pos, negsuc, int_eq}
use remoteterm_meshcore.Data.{Contact, ContactRoute, RouteSource, override, direct, flood}
use remoteterm_meshcore.Paths.{normalize_path_hash_mode, infer_path_hash_mode, parse_path_hops}

pub record EffectiveContactRoute : Type 0 where
  pub path : Option Text
  pub path_len : ℤ
  pub path_hash_mode : ℤ
  pub forced : Bool
  pub source : RouteSource

abbrev pub minus_one : ℤ
minus_one = negsuc 0

abbrev pub has_routing_override : Contact → Bool
has_routing_override contact = is_some contact.route_override || is_some contact.route_override_len

unfoldable pub get_direct_contact_route : Contact → Option ContactRoute
get_direct_contact_route contact = elim contact.direct_route [
  | some route ↦ some route
  | none ↦ elim contact.direct_path_len [
    | negsuc _ ↦ none
    | pos len ↦ some (record {
      path = get_or contact.direct_path [];
      path_len = pos len;
      path_hash_mode = pos (
          get_or
            (or_else (normalize_path_hash_mode (some contact.direct_path_hash_mode))
              (infer_path_hash_mode contact.direct_path (some (pos len))))
            0);
    })
  ]
]

-- `inferPathHashMode(...) ?? 0`
abbrev pub inferred_mode : Option Text → ℤ → ℤ
inferred_mode path len = pos (get_or (infer_path_hash_mode path (some len)) 0)

unfoldable pub get_route_override : Contact → Option ContactRoute
get_route_override contact = elim contact.route_override [
  | some route ↦ some route
  | none ↦
      if not (has_routing_override contact)
      then none
      else let len = get_or contact.route_override_len minus_one in
        some (record {
          path = get_or contact.route_override_path [];
          path_len = len;
          path_hash_mode =
              if len == minus_one
              then minus_one
              else elim (normalize_path_hash_mode contact.route_override_hash_mode) [
                | some mode ↦ pos mode
                | none ↦ inferred_mode contact.route_override_path len
              ];
        })
]

-- `path || null`
abbrev pub nonempty : Text → Option Text
nonempty [] = none
nonempty (c ∷ s) = some (c ∷ s)

-- A mode that is not between 0 and 2 is inferred again.
abbrev pub usable_mode : ℤ → Text → ℤ → ℤ
usable_mode (negsuc _) path len = inferred_mode (some path) len
usable_mode (pos mode) path len = if ltb 2 mode then inferred_mode (some path) len else pos mode

abbrev pub resolved : ContactRoute → RouteSource → Bool → EffectiveContactRoute
resolved route source forced = record {
  path = nonempty route.path;
  path_len = route.path_len;
  path_hash_mode =
      if route.path_len == minus_one
      then minus_one
      else usable_mode route.path_hash_mode route.path route.path_len;
  forced = forced;
  source = source;
}

abbrev pub flood_route : EffectiveContactRoute
flood_route = record {
  path = none;
  path_len = minus_one;
  path_hash_mode = minus_one;
  forced = false;
  source = flood;
}

abbrev pub is_override : Option RouteSource → Bool
is_override (some override) = true
is_override _ = false

unfoldable pub get_effective_contact_route : Contact → EffectiveContactRoute
get_effective_contact_route contact = elim contact.effective_route [
  | some route ↦ record {
    path = nonempty route.path;
    path_len = route.path_len;
    path_hash_mode = route.path_hash_mode;
    forced = is_override contact.effective_route_source;
    source = get_or contact.effective_route_source flood;
  }
  | none ↦ elim (get_route_override contact) [
    | some route ↦ resolved route override true
    | none ↦ elim (get_direct_contact_route contact) [
      | some route ↦ resolved route direct false
      | none ↦ flood_route
    ]
  ]
]

-- `String(n)` of an integer
abbrev pub int_to_string : ℤ → Text
int_to_string (pos n) = to_string n
int_to_string (negsuc n) = codes "-" ++ to_string (n + 1)

abbrev pub capitalized : Text → Text
capitalized [] = []
capitalized (c ∷ s) = upper_unit c ∷ s

unfoldable pub format_route_label : ℤ → Bool → Text
format_route_label path_len capitalize =
    let label =
      if path_len == minus_one
      then codes "flood"
      else if path_len == pos 0
      then codes "direct"
      else int_to_string path_len
        ++ codes " hop"
        ++ (if path_len == pos 1 then [] else codes "s") in
    if capitalize then capitalized label else label

-- The label, with the hops if there are any.
abbrev pub with_hops : Text → List Text → Text
with_hops label [] = label
with_hops label (hop ∷ hops) = label ++ codes " (" ++ join (codes " -> ") (hop ∷ hops) ++ codes ")"

unfoldable pub format_learned_route_summary : Contact → Text
format_learned_route_summary contact = elim (get_direct_contact_route contact) [
  | none ↦ format_route_label minus_one true
  | some route ↦
      with_hops (format_route_label route.path_len true)
        (parse_path_hops (some route.path) (some route.path_len))
]

unfoldable pub format_forced_route_summary : Contact → Option Text
format_forced_route_summary contact =
    let route = get_effective_contact_route contact in
    if not (has_routing_override contact)
    then none
    else if route.path_len == minus_one
    then some (format_route_label minus_one true)
    else some (
        with_hops (format_route_label route.path_len true)
          (parse_path_hops route.path (some route.path_len)))

unfoldable pub format_routing_override_input : Contact → Text
format_routing_override_input contact = elim (get_route_override contact) [
  | none ↦ []
  | some route ↦
      if route.path_len == minus_one
      then codes "-1"
      else if route.path_len == pos 0
      then codes "0"
      else join (codes ",")
          (map to_lower_case (parse_path_hops (some route.path) (some route.path_len)))
]
