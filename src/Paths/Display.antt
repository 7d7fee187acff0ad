-- ===== src/Paths/Display.antt =====
-- `formatHopCounts` and `formatPathHopWidths` of frontend/src/utils/pathUtils.ts.
use remoteterm_meshcore.Prelude.{
  ℕ, ◌+◌, Bool, true, false, Option, none, some, List, [], ◌∷◌, ◌++◌, map, Text, codes, length,
  every, ltb, nat_eq, if◌then◌else◌, ◌==◌, insert, join, to_string,
}
use remoteterm_meshcore.Prelude.Sort.{sort}
use remoteterm_meshcore.Prelude.Int.{ℤ, pos}
use remoteterm_meshcore.Data.{MessagePath}
use remoteterm_meshcore.Paths.{infer_path_hash_mode, get_hop_count}

pub record HopCounts : Type 0 where
  pub display : Text
  pub all_direct : Bool
  pub has_multiple : Bool

abbrev pub path_len_of : MessagePath → Option ℤ
path_len_of p = elim p.path_len [ none ↦ none | some n ↦ some (pos n) ]

-- "d" for a direct path
abbrev pub hop_count_label : ℕ → Text
hop_count_label count = if count == 0 then codes "d" else to_string count

-- `undefined` and `null` are shown as no paths are.
unfoldable pub format_hop_counts : Option (List MessagePath) → HopCounts
format_hop_counts (some (p ∷ paths)) =
    let counts =
      sort (λ a b. ltb a b)
        (map (λ (q : MessagePath). get_hop_count (some q.path) (path_len_of q)) (p ∷ paths)) in
    record {
      display = join (codes "/") (map hop_count_label counts);
      all_direct = every (λ count. count == 0) counts;
      has_multiple = ltb 1 (length (p ∷ paths));
    }
format_hop_counts _ = record { display = []; all_direct = true; has_multiple = false }

-- The bytes for a hop of each path that tells them, without repetition.
unfoldable pub hop_widths : List ℕ → List MessagePath → List ℕ
hop_widths widths [] = widths
hop_widths widths (p ∷ paths) = elim (infer_path_hash_mode (some p.path) (path_len_of p)) [
  | none ↦ hop_widths widths paths
  | some mode ↦ hop_widths (insert (mode + 1) widths) paths
]

unfoldable pub format_path_hop_widths : Option (List MessagePath) → Option Text
unfolding hop_widths
format_path_hop_widths none = none
format_path_hop_widths (some paths) = elim (hop_widths [] paths) [
  | [] ↦ none
  | w ∷ ws ↦ some (
      join (codes "/")
        (map (λ width. to_string width ++ codes "B") (sort (λ a b. ltb a b) (w ∷ ws))))
]
