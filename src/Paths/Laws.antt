-- ===== src/Paths/Laws.antt =====
-- The hops of `parsePathHops` of frontend/src/utils/pathUtils.ts.
use remoteterm_meshcore.Prelude.{
  ℕ, zero, suc, ◌*◌, ◌/◌, ◌≤◌, ◌<◌, ◌≡◌, refl, ap, ◌∙◌, inl, inr, true, Option, none, some, List,
  [], ◌∷◌, ◌++◌, append_assoc, map, Text, arith, All, length, length-append, length-drop,
  length-take, take, drop, take-append-drop, leb, nat_eq, Bool-cases, to_upper_case,
  to_upper_case-append, take-append_self, drop-append_self, length-to_upper_case,
}
use mathlib.Core.Path.{subst}
use native.Mathlib.Nat.{mul-div_right, mul_comm, le-mul_of_pos_right}
use remoteterm_meshcore.Prelude.Int.{ℤ, pos, negsuc}
use remoteterm_meshcore.Paths.{chars_per_hop_of, hops_from, parse_path_hops}

-- The texts one after the other.
abbrev pub concat : List Text → Text
concat [] = []
concat (s ∷ ss) = s ++ concat ss

length-concat :
    (w : ℕ) (ss : List Text) → All (λ s. length s ≡ w) ss → length (concat ss) ≡ length ss * w
length-concat w [] h = omega arith
length-concat w (s ∷ ss) h = omega (arith, length-append s (concat ss), length-concat w ss h.1, h.0)

hops_from-concat :
    (fuel w : ℕ) (ss : List Text)
    → 0 < w
    → length ss ≤ fuel
    → All (λ s. length s ≡ w) ss
    → hops_from fuel w (concat ss) ≡ ss
unfolding hops_from
hops_from-concat zero w [] pos_w enough h = refl
hops_from-concat zero w (s ∷ ss) pos_w enough h = absurd (omega arith)
hops_from-concat (suc fuel) w [] pos_w enough h = ground arith
hops_from-concat (suc fuel) w (s ∷ ss) pos_w enough h =
    rw (fits, cut, left) (ap (◌∷◌ s) (hops_from-concat fuel w ss pos_w (omega arith) h.1))
  where
    fits : leb w (length (s ++ concat ss)) ≡ true
    fits = ground (arith, length-append s (concat ss), h.0)

    cut : take w (s ++ concat ss) ≡ s
    cut = subst (λ k. take k (s ++ concat ss) ≡ s) h.0 (take-append_self s (concat ss))

    left : drop w (s ++ concat ss) ≡ concat ss
    left = subst (λ k. drop k (s ++ concat ss) ≡ concat ss) h.0 (drop-append_self s (concat ss))

-- Cutting leaves nothing out but a rest that is shorter than a hop.
hops_from-split :
    (fuel w : ℕ) (s : Text)
    → 0 < w
    → length s ≤ fuel
    → (rest : Text) × (concat (hops_from fuel w s) ++ rest ≡ s)
      × (length rest < w)
      × All (λ hop. length hop ≡ w) (hops_from fuel w s)
unfolding hops_from
hops_from-split zero w [] pos_w enough = ([], refl, omega arith, tt)
hops_from-split zero w (c ∷ s) pos_w enough = absurd (omega arith)
hops_from-split (suc fuel) w s pos_w enough = elim (Bool-cases (leb w (length s))) [
  | inl fits ↦
      let (rest, split, small, widths) =
        hops_from-split fuel w (drop w s) pos_w (ground (arith, length-drop w s)) in
      rw fits (
        rest,
        append_assoc (take w s) (concat (hops_from fuel w (drop w s))) rest
            ∙ ap (λ t. take w s ++ t) split
            ∙ take-append-drop w s,
        small,
        (ground (arith, length-take w s), widths),
      )
  | inr short ↦ rw short (s, refl, ground arith, tt)
]

chars_per_hop_of_mul :
    (n w : ℕ) → 0 < n → 0 < w → chars_per_hop_of (n * (2 * w)) (some (pos n)) ≡ 2 * w
unfolding chars_per_hop_of
chars_per_hop_of_mul zero w pos_n pos_w = absurd (omega arith)
chars_per_hop_of_mul (suc n) w pos_n pos_w =
    let exact : suc n * (2 * w) / suc n ≡ 2 * w = mul-div_right (2 * w) pos_n in
    rw exact (ground (arith, mul_comm (2 * w) (suc n)))

chars_per_hop_of-pos : (len : ℕ) (hop_count : Option ℤ) → 0 < chars_per_hop_of len hop_count
unfolding chars_per_hop_of
chars_per_hop_of-pos len none = omega arith
chars_per_hop_of-pos len (some (negsuc n)) = omega arith
chars_per_hop_of-pos len (some (pos zero)) = omega arith
chars_per_hop_of-pos len (some (pos (suc n))) = ground arith

upper-concat : (ss : List Text) → to_upper_case (concat ss) ≡ concat (map to_upper_case ss)
unfolding to_upper_case
upper-concat [] = refl
upper-concat (s ∷ ss) =
    to_upper_case-append s (concat ss) ∙ ap (λ t. to_upper_case s ++ t) (upper-concat ss)

upper-widths :
    (w : ℕ) (ss : List Text)
    → All (λ s. length s ≡ w) ss
    → All (λ s. length s ≡ w) (map to_upper_case ss)
upper-widths w [] h = tt
upper-widths w (s ∷ ss) h = (length-to_upper_case s ∙ h.0, upper-widths w ss h.1)

length-map_upper : (ss : List Text) → length (map to_upper_case ss) ≡ length ss
length-map_upper [] = refl
length-map_upper (s ∷ ss) = ap suc (length-map_upper ss)

no_hops : (w : ℕ) → hops_from zero w [] ≡ []
unfolding hops_from
no_hops w = refl

cut_all :
    (ss : List Text) (w n : ℕ)
    → 0 < w
    → 0 < n
    → length ss ≡ n
    → All (λ s. length s ≡ 2 * w) ss
    → hops_from
        (length (concat ss))
        (chars_per_hop_of (length (concat ss)) (some (pos n)))
        (concat ss)
      ≡ ss
cut_all ss w n pos_w pos_n count h =
    let total : length (concat ss) ≡ n * (2 * w) =
      length-concat (2 * w) ss h ∙ ap (λ k. k * (2 * w)) count in
    let width : chars_per_hop_of (length (concat ss)) (some (pos n)) ≡ 2 * w =
      ap (λ k. chars_per_hop_of k (some (pos n))) total ∙ chars_per_hop_of_mul n w pos_n pos_w in
    rw width (
      hops_from-concat (length (concat ss)) (2 * w) ss (omega arith)
        (omega (arith, total, count, le-mul_of_pos_right {m = 2 * w} n (omega arith))) h)

-- Writing hops one after the other and parsing the path with their number gives the hops again, in
-- upper case, for hops of any one width of one byte or more.
pub parse_path_hops-concat :
    (hops : List Text) (w : ℕ)
    → 0 < w
    → All (λ hop. length hop ≡ 2 * w) hops
    → parse_path_hops (some (concat hops)) (some (pos (length hops))) ≡ map to_upper_case hops
unfolding parse_path_hops to_upper_case
parse_path_hops-concat [] w pos_w h = no_hops _
parse_path_hops-concat (hop ∷ hops) w pos_w h = rw (upper-concat (hop ∷ hops)) (
    cut_all (map to_upper_case (hop ∷ hops)) w (suc (length hops)) pos_w (omega arith)
      (length-map_upper (hop ∷ hops)) (upper-widths (2 * w) (hop ∷ hops) h))

-- Of any path, with any hop count, the hops and a rest shorter than one hop, which the code drops, are
-- the path in upper case, and all hops have the one width that the path and the count give.
pub parse_path_hops_split :
    (path : Text) (hop_count : Option ℤ)
    → (rest : Text) × (concat (parse_path_hops (some path) hop_count) ++ rest ≡ to_upper_case path)
      × (length rest < chars_per_hop_of (length path) hop_count)
      × All
          (λ hop. length hop ≡ chars_per_hop_of (length path) hop_count)
          (parse_path_hops (some path) hop_count)
unfolding parse_path_hops
parse_path_hops_split path hop_count = rw (← length-to_upper_case path) (
    hops_from-split (length (to_upper_case path))
      (chars_per_hop_of (length (to_upper_case path)) hop_count) (to_upper_case path)
      (chars_per_hop_of-pos (length (to_upper_case path)) hop_count) (omega arith))
