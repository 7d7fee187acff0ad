-- ===== src/Codecs/Replacement/Units.antt =====
-- Replacing single code units, as the map that frontend/src/utils/textReplace.ts starts with does:
-- unit by unit.
use remoteterm_meshcore.Prelude.{
  ℕ, zero, suc, ◌≤◌, ◌≡◌, refl, sym, ap, ◌∙◌, inl, inr, false, Option, none, some, List, [], ◌∷◌,
  ◌++◌, append_assoc, append-nil, Text, arith, All, All_imp, All_both, All-append, length,
  starts_with, find, Option-cases,
}
use remoteterm_meshcore.Codecs.Sender.{includes}
use remoteterm_meshcore.Codecs.Replacement.{Scan, advance_by, match_at, advance, scan_text}
use remoteterm_meshcore.Codecs.Replacement.Loop.{to_list, find_lem, scan_text_done, scan_text_more}

-- What is written for a unit.
abbrev written : ℕ → Option (Text × Text) → Text
written c none = c ∷ []
written c (some entry) = entry.1

unfoldable pub replace_units : List (Text × Text) → Text → Text
replace_units replacements [] = []
replace_units replacements (c ∷ s) =
    written c (match_at replacements (c ∷ [])) ++ replace_units replacements s

starts_with_unit :
    (c : ℕ) (s p : Text) → length p ≡ 1 → starts_with (c ∷ s) p ≡ starts_with (c ∷ []) p
unfolding starts_with
starts_with_unit c s [] h = absurd (omega arith)
starts_with_unit c s (k ∷ []) h = refl
starts_with_unit c s (k ∷ l ∷ p) h = absurd (omega arith)

includes_unit :
    (c : ℕ) (s p : Text)
    → length p ≡ 1
    → includes (c ∷ s) p ≡ false
    → (starts_with (c ∷ []) p ≡ false) × (includes s p ≡ false)
unfolding includes starts_with
includes_unit c s [] h e = absurd (omega arith)
includes_unit c s (k ∷ []) h e = ground arith
includes_unit c s (k ∷ l ∷ p) h e = absurd (omega arith)

match_at_unit :
    (replacements : List (Text × Text)) (c : ℕ) (s : Text)
    → All (λ entry. length entry.0 ≡ 1) replacements
    → match_at replacements (c ∷ s) ≡ match_at replacements (c ∷ [])
unfolding match_at find
match_at_unit [] c s h = refl
match_at_unit (entry ∷ replacements) c s h =
    rw (starts_with_unit c s entry.0 h.0, match_at_unit replacements c s h.1) refl

match_at-none :
    (replacements : List (Text × Text)) (s : Text)
    → All (λ entry. starts_with s entry.0 ≡ false) replacements
    → match_at replacements s ≡ none
unfolding match_at find
match_at-none [] s h = refl
match_at-none (entry ∷ replacements) s h = rw h.0 (match_at-none replacements s h.1)

module _ (replacements : List (Text × Text))
    (units : All (λ entry. length entry.0 ≡ 1) replacements) where
  advance_by_unit :
      (cursor_pos c : ℕ) (s : Text) (scan : Scan) (found : Option (Text × Text))
      → scan.rest ≡ c ∷ s
      → All (λ entry. length entry.0 ≡ 1) (to_list found)
      → ((advance_by cursor_pos scan found).rest ≡ s)
        × ((advance_by cursor_pos scan found).result ≡ scan.result ++ written c found)
  unfolding advance_by
  advance_by_unit cursor_pos c s scan none same h = rw same (refl, refl)
  advance_by_unit cursor_pos c s scan (some entry) same h = rw (same, h.0) (refl, refl)

  found_unit : (s : Text) → All (λ entry. length entry.0 ≡ 1) (to_list (match_at replacements s))
  unfolding match_at
  found_unit s = elim (Option-cases (match_at replacements s)) [
    | inl absent ↦ rw absent tt
    | inr (entry, there) ↦
        let unit =
          find_lem (λ e. length e.0 ≡ 1) (λ e. starts_with s e.0) replacements entry units there in
        rw there (unit.0, tt)
  ]

  advance_unit :
      (cursor_pos c : ℕ) (s : Text) (scan : Scan)
      → scan.rest ≡ c ∷ s
      → ((advance replacements cursor_pos scan).rest ≡ s)
        × ((advance replacements cursor_pos scan).result
            ≡ scan.result ++ written c (match_at replacements (c ∷ [])))
  unfolding advance
  advance_unit cursor_pos c s scan same =
      let found : match_at replacements scan.rest ≡ match_at replacements (c ∷ []) =
        ap (match_at replacements) same ∙ match_at_unit replacements c s units in
      rw found (
        advance_by_unit cursor_pos c s scan (match_at replacements (c ∷ [])) same
          (found_unit (c ∷ [])))

  -- The loop writes what the replacement of each unit gives.
  pub scan_text-replace_units :
      (cursor_pos fuel : ℕ) (s : Text) (scan : Scan)
      → scan.rest ≡ s
      → length s ≤ fuel
      → (scan_text replacements cursor_pos fuel scan).result
        ≡ scan.result ++ replace_units replacements s
  unfolding replace_units
  scan_text-replace_units cursor_pos fuel [] scan same enough =
      rw (scan_text_done replacements cursor_pos fuel scan same) (sym (append-nil scan.result))
  scan_text-replace_units cursor_pos zero (c ∷ s) scan same enough = absurd (omega arith)
  scan_text-replace_units cursor_pos (suc fuel) (c ∷ s) scan same enough =
      let next = advance_unit cursor_pos c s scan same in
      let later =
        scan_text-replace_units cursor_pos fuel s (advance replacements cursor_pos scan) next.0
          (omega arith) in
      rw (scan_text_more replacements cursor_pos fuel scan (rw same (omega arith)), later, next.1)
        (append_assoc scan.result (written c (match_at replacements (c ∷ [])))
          (replace_units replacements s))

  -- No key stands at the unit.
  abbrev IsFree : ℕ → Type 0
  IsFree c = match_at replacements (c ∷ []) ≡ none

  includes-IsFree :
      (value : Text) → All (λ entry. includes value entry.0 ≡ false) replacements → All IsFree value
  includes-IsFree [] h = tt
  includes-IsFree (c ∷ value) h =
      let both =
        All_imp _
          (λ entry. (starts_with (c ∷ []) entry.0 ≡ false) × (includes value entry.0 ≡ false))
          replacements (λ entry k. includes_unit c value entry.0 k.0 k.1)
          (All_both _ _ replacements units h) in
      (
        match_at-none replacements (c ∷ []) (All_imp _ _ replacements (λ entry k. k.0) both),
        includes-IsFree value (All_imp _ _ replacements (λ entry k. k.1) both),
      )

  replace_units_free : (s : Text) → All IsFree s → replace_units replacements s ≡ s
  unfolding replace_units
  replace_units_free [] h = refl
  replace_units_free (c ∷ s) h = rw (h.0, replace_units_free s h.1) refl

  module _
      (separate : All
        (λ key. All (λ entry. includes entry.1 key.0 ≡ false) replacements)
        replacements) where
    written-IsFree : (c : ℕ) → All IsFree (written c (match_at replacements (c ∷ [])))
    unfolding match_at
    written-IsFree c = elim (Option-cases (match_at replacements (c ∷ []))) [
      | inl absent ↦ rw absent (absent, tt)
      | inr (entry, there) ↦ rw there (
          includes-IsFree entry.1 (
            All_imp _ _ replacements
              (λ key h.
                (find_lem (λ e. includes e.1 key.0 ≡ false) (λ e. starts_with (c ∷ []) e.0)
                  replacements entry h there).0)
              separate))
    ]

    replace_units-IsFree : (s : Text) → All IsFree (replace_units replacements s)
    unfolding replace_units
    replace_units-IsFree [] = tt
    replace_units-IsFree (c ∷ s) = All-append IsFree _ _ (written-IsFree c) (replace_units-IsFree s)

    pub replace_units_twice :
        (s : Text)
        → replace_units replacements (replace_units replacements s) ≡ replace_units replacements s
    replace_units_twice s =
        replace_units_free (replace_units replacements s) (replace_units-IsFree s)
