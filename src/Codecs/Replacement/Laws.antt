-- ===== src/Codecs/Replacement/Laws.antt =====
-- What applyTextReplacements of frontend/src/utils/textReplace.ts does to the text and the cursor,
-- and to a text that it wrote before.
use remoteterm_meshcore.Prelude.{
  keep_holds, ℕ, suc, ◌≤◌, ◌<◌, ◌≡◌, refl, ◌∙◌, inl, inr, Bool, true, false, Option, none, some,
  List, [], ◌∷◌, Text, arith, All, All_imp, All_both, All-keep, length, ltb, nat_eq, list_eq, ◌==◌,
  eq_refl, keep, find, Bool-cases, Option-cases,
}
use mathlib.Core.Path.{subst}
use remoteterm_meshcore.Prelude.Sort.{sort, All-sort}
use remoteterm_meshcore.Codecs.Sender.{includes}
use remoteterm_meshcore.Codecs.Replacement.{
  ParsedJson, string_entries, re_expansion, set_text_replace_map_json, is_nonempty, is_longer,
  sorted_entries, replace_all, store_map, build_replacements, Scan, scan_text, start_scan, Replaced,
  changed_text, apply_text_replacements,
}
use remoteterm_meshcore.Codecs.Replacement.Loop.{IsPlaced, scan_text-IsPlaced}
use remoteterm_meshcore.Codecs.Replacement.Units.{
  replace_units, scan_text-replace_units, replace_units_twice,
}

sorted_entries_nonempty :
    (parsed : Option ParsedJson) → All (λ entry. 0 < length entry.0) (sorted_entries parsed)
unfolding sorted_entries
sorted_entries_nonempty none = tt
sorted_entries_nonempty (some parsed) =
    All-sort is_longer (λ entry. 0 < length entry.0) _
      (All_imp (λ entry. is_nonempty entry ≡ true) (λ entry. 0 < length entry.0) _
        (λ entry h. ground arith) (keep_holds is_nonempty (string_entries parsed.entries)))

abbrev final : List (Text × Text) → Text → ℕ → Scan
final replacements text cursor_pos =
    scan_text replacements cursor_pos (length text) (start_scan text cursor_pos)

replace_all_lem :
    (replacements : List (Text × Text)) (text : Text) (cursor_pos : ℕ) (r : Replaced)
    → replace_all replacements text cursor_pos ≡ some r
    → (r.text ≡ (final replacements text cursor_pos).result)
      × (r.cursor ≡ (final replacements text cursor_pos).cursor)
unfolding replace_all changed_text
replace_all_lem [] text cursor_pos r h = absurd (cc h)
replace_all_lem (first ∷ others) text cursor_pos r h =
    elim (Bool-cases ((final (first ∷ others) text cursor_pos).result == text)) [
      | inl same ↦ absurd (ground arith)
      | inr changed ↦ ground arith
    ]

replace_all_same :
    (replacements : List (Text × Text)) (text : Text) (cursor_pos : ℕ)
    → (final replacements text cursor_pos).result ≡ text
    → replace_all replacements text cursor_pos ≡ none
unfolding replace_all changed_text
replace_all_same [] text cursor_pos same = refl
replace_all_same (first ∷ others) text cursor_pos same = rw (same, eq_refl text) refl

IsPlaced-end :
    (cursor_pos : ℕ) (scan : Scan)
    → IsPlaced cursor_pos scan
    → (size : ℕ) → scan.index ≡ size
    → cursor_pos ≤ size
    → (scan.cursor ≤ length scan.result) × (cursor_pos ≡ size → scan.cursor ≡ length scan.result)
IsPlaced-end cursor_pos scan placed size end inside = (ground arith, λ e. ground arith)

-- When replacing changes the text, a cursor that is not behind the end of the text comes to stand
-- not behind the end of the new text, and one at the end of the text at the end of the new one.
pub apply_text_replacements-cursor :
    (parse : Text → Option ParsedJson) (text : Text) (cursor_pos : ℕ) (json : Text) (r : Replaced)
    → cursor_pos ≤ length text
    → apply_text_replacements parse text cursor_pos json ≡ some r
    → (r.cursor ≤ length r.text) × (cursor_pos ≡ length text → r.cursor ≡ length r.text)
unfolding apply_text_replacements build_replacements
apply_text_replacements-cursor parse text cursor_pos json r inside h =
    let replacements = build_replacements parse json in
    let placed =
      scan_text-IsPlaced replacements cursor_pos (sorted_entries_nonempty (parse json))
        (length text) (start_scan text cursor_pos) (omega arith)
        (λ k. omega arith, λ k. omega arith) in
    let parts = replace_all_lem replacements text cursor_pos r h in
    rw (parts.0, parts.1)
      (IsPlaced-end cursor_pos (final replacements text cursor_pos) placed.0 (length text)
        (omega (arith, placed.1)) inside)

find-none {ℓ} :
    {A : Type ℓ} (p : A → Bool) (xs : List A) → find p xs ≡ none → All (λ x. p x ≡ false) xs
unfolding find
find-none p [] h = tt
find-none p (x ∷ xs) h = elim (Bool-cases (p x)) [
  | inl holds ↦ absurd (ground arith)
  | inr fails ↦ (fails, find-none p xs (ground arith))
]

re_expansion-none :
    (entries needles : List (Text × Text))
    → re_expansion entries needles ≡ none
    → All (λ key. All (λ entry. includes entry.1 key.0 ≡ false) entries) (keep is_nonempty needles)
unfolding re_expansion keep
re_expansion-none entries [] h = tt
re_expansion-none entries (([], value) ∷ needles) h = re_expansion-none entries needles h
re_expansion-none entries ((c ∷ key, value) ∷ needles) h =
    elim (Option-cases (find (λ entry. includes entry.1 (c ∷ key)) entries)) [
      | inl absent ↦
          let nonempty : ltb 0 (suc (length key)) ≡ true = ground arith in
          rw nonempty (find-none _ entries absent, re_expansion-none entries needles (ground arith))
      | inr (entry, there) ↦ absurd (ground arith)
    ]

final_units :
    (replacements : List (Text × Text))
    → All (λ entry. length entry.0 ≡ 1) replacements
    → (text : Text) (cursor_pos : ℕ)
    → (final replacements text cursor_pos).result ≡ replace_units replacements text
final_units replacements units text cursor_pos =
    scan_text-replace_units replacements units cursor_pos (length text) text
      (start_scan text cursor_pos) refl (omega arith)

accepted_entries :
    (writable : Bool) (stored : Option Text) (json : Text) (parsed : ParsedJson)
    → (store_map writable stored json (some parsed)).0 ≡ none
    → re_expansion (string_entries parsed.entries) (string_entries parsed.entries) ≡ none
unfolding store_map
accepted_entries writable stored json parsed h =
    elim (Option-cases
      (re_expansion (string_entries parsed.entries) (string_entries parsed.entries))) [
        | inl absent ↦ absent
        | inr (both, there) ↦ absurd (ground (arith, there))
      ]

units_of :
    (entries : List (Text × Text))
    → All (λ entry. length entry.0 ≤ 1) entries
    → All (λ entry. length entry.0 ≡ 1) (sort is_longer (keep is_nonempty entries))
units_of entries h =
    All-sort is_longer (λ entry. length entry.0 ≡ 1) _
      (All_imp (λ entry. (length entry.0 ≤ 1) × (is_nonempty entry ≡ true)) _ _
        (λ entry k. ground arith)
        (All_both _ _ _ (All-keep (λ entry. length entry.0 ≤ 1) is_nonempty entries h)
          (keep_holds is_nonempty entries)))

separate_of :
    (entries : List (Text × Text))
    → re_expansion entries entries ≡ none
    → All
        (λ key.
          All (λ entry. includes entry.1 key.0 ≡ false) (sort is_longer (keep is_nonempty entries)))
        (sort is_longer (keep is_nonempty entries))
separate_of entries h = All-sort is_longer _ _ (
    All_imp (λ key. All (λ entry. includes entry.1 key.0 ≡ false) entries) _ _
      (λ key k.
        All-sort is_longer (λ entry. includes entry.1 key.0 ≡ false) _
          (All-keep _ is_nonempty entries k))
      (re_expansion-none entries entries h))

-- With a map that was accepted, whose keys have one code unit at most, a text that was written by
-- replacing is left as it is, wherever the cursor stands then.
pub apply_text_replacements-again :
    (parse : Text → Option ParsedJson) (writable : Bool) (stored : Option Text) (json : Text)
    (parsed : ParsedJson) (text : Text) (cursor_pos next_pos : ℕ) (r : Replaced)
    → parse json ≡ some parsed
    → (set_text_replace_map_json parse writable stored json).0 ≡ none
    → All (λ entry. length entry.0 ≤ 1) (string_entries parsed.entries)
    → apply_text_replacements parse text cursor_pos json ≡ some r
    → apply_text_replacements parse r.text next_pos json ≡ none
unfolding apply_text_replacements build_replacements set_text_replace_map_json sorted_entries
apply_text_replacements-again parse writable stored json parsed text cursor_pos next_pos r is
      accepted single h =
    let replacements = sorted_entries (some parsed) in
    let known = subst (λ o. (store_map writable stored json o).0 ≡ none) is accepted in
    let units = units_of (string_entries parsed.entries) single in
    let separate =
      separate_of (string_entries parsed.entries)
        (accepted_entries writable stored json parsed known) in
    let parts =
      replace_all_lem replacements text cursor_pos r
        (subst (λ o. replace_all (sorted_entries o) text cursor_pos ≡ some r) is h) in
    let first : r.text ≡ replace_units replacements text =
      parts.0 ∙ final_units replacements units text cursor_pos in
    let second : replace_units replacements r.text ≡ r.text =
      rw first (replace_units_twice replacements units separate text) in
    rw is (
      replace_all_same replacements r.text next_pos
        (final_units replacements units r.text next_pos ∙ second))
