-- ===== src/Tests/Replacement.antt =====
-- The theorems about replacing default_map, at concrete maps.
use remoteterm_meshcore.Prelude.{
  All, ◌≡◌, refl, true, Option, none, some, List, [], ◌∷◌, Text, codes, arith, ◌≤◌, length, every,
  keep, find, starts_with,
}
use remoteterm_meshcore.Prelude.Sort.{sort, insert_sorted}
use remoteterm_meshcore.Codecs.Sender.{includes}
use remoteterm_meshcore.Codecs.Replacement.{
  default_map, advance, ParsedJson, string_entries, re_expansion, set_text_replace_map_json,
  Replaced, apply_text_replacements, match_at,
}
use remoteterm_meshcore.Codecs.Replacement.Laws.{
  apply_text_replacements-cursor, apply_text_replacements-again,
}

abbrev parse_as : List (Text × Option Text) → Text → Option ParsedJson
parse_as entries json = some (record { is_object = true; entries = entries })

abbrev typed : Text
typed = b'a' ∷ 0x410 ∷ 0x401 ∷ b'b' ∷ []

abbrev replaced : Replaced
replaced = record { text = codes "aAEb"; cursor = 3 }

replaces : apply_text_replacements (parse_as default_map) (typed) 3 [] ≡ some replaced
unfolding apply_text_replacements match_at advance default_map string_entries keep find starts_with
    sort insert_sorted
replaces = refl

apply_text_replacements-cursor_example :
    (replaced.cursor ≤ length replaced.text)
    × (3 ≡ length typed → replaced.cursor ≡ length replaced.text)
apply_text_replacements-cursor_example =
    apply_text_replacements-cursor (parse_as default_map) (typed) 3 [] replaced (omega arith)
      replaces

default_map_units : All (λ entry. length entry.0 ≤ 1) (string_entries default_map)
unfolding string_entries default_map
default_map_units = ground arith

apply_text_replacements-again_example :
    apply_text_replacements (parse_as default_map) (codes "aAEb") 1 [] ≡ none
unfolding set_text_replace_map_json default_map every re_expansion string_entries find includes
    starts_with
apply_text_replacements-again_example =
    apply_text_replacements-again (parse_as default_map) true none []
      (record { is_object = true; entries = default_map }) (typed) 3 1 replaced refl refl
      default_map_units replaces

abbrev pairs : List (Text × Option Text)
pairs = (codes "ab", some []) ∷ []

-- A map that is accepted and whose key has two units: what is written has the key again.
pairs_accepted : (set_text_replace_map_json (parse_as pairs) true none []).0 ≡ none
unfolding set_text_replace_map_json default_map every re_expansion string_entries find includes
    starts_with
pairs_accepted = refl

pairs_leave_key :
    apply_text_replacements (parse_as pairs) (codes "aabb") 4 []
    ≡ some (record { text = codes "ab"; cursor = 2 })
unfolding apply_text_replacements match_at advance default_map string_entries keep find starts_with
    sort insert_sorted
pairs_leave_key = refl
