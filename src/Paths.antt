-- ===== src/Paths.antt =====
-- Hash modes and hops of frontend/src/utils/pathUtils.ts. A mode of `m` stands for hops of `m + 1`
-- bytes, which is `2 * (m + 1)` hex digits. Numbers are integers.
pub mod Display
pub mod Places
pub mod Resolve
pub mod Laws
pub mod Payload
pub mod Route
use remoteterm_meshcore.Prelude.{
  ℕ, zero, suc, ◌+◌, ◌-◌, ◌*◌, ◌/◌, ◌%◌, min, Bool, true, false, not, ◌&&◌, ◌||◌, Option, none,
  some, List, [], ◌∷◌, ◌++◌, Text, codes, length, take, drop, ltb, leb, or_else, get_or, nat_eq,
  if◌then◌else◌, ◌==◌, to_upper_case,
}
use remoteterm_meshcore.Prelude.Int.{ℤ, pos, negsuc}

unfoldable pub normalize_path_hash_mode : Option ℤ → Option ℕ
normalize_path_hash_mode none = none
normalize_path_hash_mode (some (negsuc n)) = none
normalize_path_hash_mode (some (pos mode)) = if ltb 2 mode then none else some mode

-- The quotient is rounded down here; that it is exact is the last test.
unfoldable pub infer_path_hash_mode : Option Text → Option ℤ → Option ℕ
infer_path_hash_mode (some (c ∷ path)) (some (pos (suc n))) =
    let chars_per_hop = length (c ∷ path) / suc n in
    if ltb chars_per_hop 2
      || ltb 6 chars_per_hop
      || not (chars_per_hop % 2 == 0)
      || not (chars_per_hop * suc n == length (c ∷ path))
    then none
    else some (chars_per_hop / 2 - 1)
infer_path_hash_mode _ _ = none

-- `undefined`, `null` and the empty key are falsy.
unfoldable pub format_endpoint_prefix : Option Text → Option ℤ → Text
format_endpoint_prefix none mode = codes "??"
format_endpoint_prefix (some []) mode = codes "??"
format_endpoint_prefix (some (c ∷ key)) mode =
    let normalized = to_upper_case (c ∷ key) in
    let chars = (get_or (normalize_path_hash_mode mode) 0 + 1) * 2 in
    take (min chars (length normalized)) normalized

-- The number of hex digits of a hop, of a path of the given length.
unfoldable pub chars_per_hop_of : ℕ → Option ℤ → ℕ
chars_per_hop_of len (some (pos (suc n))) =
    let derived = len / suc n in
    if leb 2 derived && derived % 2 == 0 && derived * suc n == len then derived else 2
chars_per_hop_of len _ = 2

-- The loop of `parsePathHops`, on fuel: the length of the text is enough.
unfoldable pub hops_from : ℕ → ℕ → Text → List Text
hops_from zero chars_per_hop s = []
hops_from (suc fuel) chars_per_hop s =
    let rest = hops_from fuel chars_per_hop (drop chars_per_hop s) in
    if leb chars_per_hop (length s) then take chars_per_hop s ∷ rest else []

unfoldable pub parse_path_hops : Option Text → Option ℤ → List Text
parse_path_hops none hop_count = []
parse_path_hops (some path) hop_count =
    let normalized = to_upper_case path in
    hops_from (length normalized) (chars_per_hop_of (length normalized) hop_count) normalized

-- The legacy count of a path without one takes two digits for a hop.
unfoldable pub get_hop_count : Option Text → Option ℤ → ℕ
get_hop_count path (some (pos n)) = n
get_hop_count none hop_count = 0
get_hop_count (some path) hop_count = length path / 2
