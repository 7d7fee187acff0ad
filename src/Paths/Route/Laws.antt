-- ===== src/Paths/Route/Laws.antt =====
-- Which route `getEffectiveContactRoute` of frontend/src/utils/pathUtils.ts takes.
use remoteterm_meshcore.Prelude.{
  zero, suc, ◌≡◌, refl, inl, inr, Bool, true, false, Option, none, some, [], ◌∷◌, Text, arith, ltb,
  leb, get_or, is_some, nat_eq, if◌then◌else◌, ◌==◌, Bool-cases, Option-cases,
}
use remoteterm_meshcore.Prelude.Int.{ℤ, pos, negsuc, int_eq}
use remoteterm_meshcore.Data.{Contact, ContactRoute, RouteSource, override, direct, flood}
use remoteterm_meshcore.Paths.{infer_path_hash_mode}
use remoteterm_meshcore.Paths.Route.{
  EffectiveContactRoute, minus_one, has_routing_override, get_direct_contact_route,
  get_route_override, get_effective_contact_route, usable_mode, resolved,
}

-- A flood has the mode -1, any other route one of the modes 0, 1 and 2.
abbrev pub has_usable_mode : EffectiveContactRoute → Bool
has_usable_mode route =
    if route.path_len == minus_one
    then route.path_hash_mode == minus_one
    else (elim route.path_hash_mode [ negsuc _ ↦ false | pos mode ↦ leb mode 2 ])

infer-le :
    (path : Option Text) (len : Option ℤ) → leb (get_or (infer_path_hash_mode path len) 0) 2 ≡ true
unfolding infer_path_hash_mode
infer-le none len = refl
infer-le (some []) len = refl
infer-le (some (c ∷ path)) none = refl
infer-le (some (c ∷ path)) (some (negsuc n)) = refl
infer-le (some (c ∷ path)) (some (pos zero)) = refl
infer-le (some (c ∷ path)) (some (pos (suc n))) = ground arith

resolved-usable :
    (route : ContactRoute) (source : RouteSource) (forced : Bool)
    → has_usable_mode (resolved route source forced) ≡ true
resolved-usable route source forced = elim (Bool-cases (route.path_len == minus_one)) [
  | inl floods ↦ rw floods refl
  | inr routed ↦ rw routed (mode route.path_hash_mode)
]
  where
    mode :
        (m : ℤ)
        → (elim (usable_mode m route.path route.path_len) [ negsuc _ ↦ false | pos n ↦ leb n 2 ])
          ≡ true
    mode (negsuc n) = infer-le (some route.path) (some route.path_len)
    mode (pos n) = elim (Bool-cases (ltb 2 n)) [
      | inl large ↦ rw large (infer-le (some route.path) (some route.path_len))
      | inr small ↦ rw small (ground arith)
    ]

overridden :
    (contact : Contact) → is_some (get_route_override contact) ≡ has_routing_override contact
unfolding get_route_override
overridden contact = elim (Option-cases contact.route_override) [
  | inl absent ↦ rw (absent, get_route_override) (ground arith)
  | inr (route, given) ↦ rw (given, get_route_override) refl
]

-- Of a contact without a route from the server, the route taken has the mode -1 if it floods and one
-- of the modes 0, 1 and 2 if not; it is forced exactly if there is an override, and its source is the
-- override if there is one, else the learned route if there is one, else flooding.
pub get_effective_contact_route_lem :
    (contact : Contact)
    → contact.effective_route ≡ none
    → (has_usable_mode (get_effective_contact_route contact) ≡ true)
      × ((get_effective_contact_route contact).forced ≡ has_routing_override contact)
      × ((get_effective_contact_route contact).source ≡ (
          if has_routing_override contact
          then override
          else if is_some (get_direct_contact_route contact)
          then direct
          else flood))
unfolding get_effective_contact_route get_direct_contact_route
get_effective_contact_route_lem contact h =
    rw (h, get_effective_contact_route, ← overridden contact)
      (elim (Option-cases (get_route_override contact)) [
        | inr (route, forced) ↦ rw forced (resolved-usable route override true, refl, refl)
        | inl free ↦ rw free (elim (Option-cases (get_direct_contact_route contact)) [
          | inr (route, known) ↦ rw known (resolved-usable route direct false, refl, refl)
          | inl unknown ↦ rw unknown (refl, refl, refl)
        ])
      ])
