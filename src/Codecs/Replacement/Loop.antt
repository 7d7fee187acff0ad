-- ===== src/Codecs/Replacement/Loop.antt =====
-- The loop of applyTextReplacements in frontend/src/utils/textReplace.ts: it reads the whole text,
-- and where it leaves the cursor.
use remoteterm_meshcore.Prelude.{
  ℕ, zero, suc, ◌+◌, ◌≤◌, ◌<◌, ◌≡◌, refl, ◌∙◌, ◌⊎◌, inl, inr, Bool, true, Option, none, some, List,
  [], ◌∷◌, Text, arith, All, length, length-append, length-drop, take, nat_eq, list_eq, starts_with,
  find, Bool-cases, Option-cases,
}
use mathlib.Core.Path.{subst}
use remoteterm_meshcore.Codecs.Replacement.{
  Scan, move_cursor, advance_by, match_at, advance, scan_text,
}

pub find_lem {ℓ κ} :
    {A : Type ℓ} (P : A → Type κ) (p : A → Bool) (xs : List A) (x : A)
    → All P xs
    → find p xs ≡ some x
    → P x × (p x ≡ true)
unfolding find
find_lem P p [] x h e = absurd (cc e)
find_lem P p (y ∷ xs) x h e = elim (Bool-cases (p y)) [
  | inl holds ↦ let same : y ≡ x = ground arith in subst (λ z. P z × (p z ≡ true)) same (h.0, holds)
  | inr no_ ↦ find_lem P p xs x h.1 (ground arith)
]

starts_with_short : (s p : Text) → starts_with s p ≡ true → length p ≤ length s
unfolding starts_with
starts_with_short s [] h = omega arith
starts_with_short [] (c ∷ p) h = absurd (cc h)
starts_with_short (d ∷ s) (c ∷ p) h = ground (arith, starts_with_short s p)

abbrev pub to_list : Option (Text × Text) → List (Text × Text)
to_list none = []
to_list (some entry) = entry ∷ []

-- Up to the cursor, what was read and what was written differ by as much as the cursors do; after
-- it, the new cursor stands inside of what was written.
abbrev pub IsPlaced : ℕ → Scan → Type 0
IsPlaced cursor_pos scan =
    (scan.index ≤ cursor_pos → scan.cursor + scan.index ≡ length scan.result + cursor_pos)
    × (cursor_pos < scan.index → scan.cursor ≤ length scan.result)

-- What one turn of the loop leaves true.
abbrev IsKey : Text → Option (Text × Text) → Type 0
IsKey s found = All (λ entry. (0 < length entry.0) × (length entry.0 ≤ length s)) (to_list found)

advance_by-IsPlaced :
    (cursor_pos : ℕ) (scan : Scan) (found : Option (Text × Text))
    → IsPlaced cursor_pos scan
    → 0 < length scan.rest
    → IsKey scan.rest found
    → IsPlaced cursor_pos (advance_by cursor_pos scan found)
unfolding advance_by move_cursor
advance_by-IsPlaced cursor_pos scan none placed more h =
    ground (arith, length-append scan.result (take 1 scan.rest))
advance_by-IsPlaced cursor_pos scan (some (needle, replacement)) placed more h =
    ground (arith, length-append scan.result replacement)

pub advance_by-rest :
    (cursor_pos : ℕ) (scan : Scan) (found : Option (Text × Text))
    → 0 < length scan.rest
    → IsKey scan.rest found
    → (length (advance_by cursor_pos scan found).rest < length scan.rest)
      × ((advance_by cursor_pos scan found).index + length (advance_by cursor_pos scan found).rest
          ≡ scan.index + length scan.rest)
unfolding advance_by
advance_by-rest cursor_pos scan none more h = omega (arith, length-drop 1 scan.rest)
advance_by-rest cursor_pos scan (some (needle, replacement)) more h =
    omega (arith, length-drop (length needle) scan.rest, h.0.0, h.0.1)

pub length-cases : (s : Text) → (s ≡ []) ⊎ (0 < length s)
length-cases [] = inl refl
length-cases (c ∷ s) = inr (omega arith)

pub scan_text_done :
    (replacements : List (Text × Text)) (cursor_pos fuel : ℕ) (scan : Scan)
    → scan.rest ≡ []
    → scan_text replacements cursor_pos fuel scan ≡ scan
unfolding scan_text
scan_text_done replacements cursor_pos zero scan done = refl
scan_text_done replacements cursor_pos (suc fuel) scan done = rw done refl

pub scan_text_more :
    (replacements : List (Text × Text)) (cursor_pos fuel : ℕ) (scan : Scan)
    → 0 < length scan.rest
    → scan_text replacements cursor_pos (suc fuel) scan
      ≡ scan_text replacements cursor_pos fuel (advance replacements cursor_pos scan)
unfolding scan_text
scan_text_more replacements cursor_pos fuel scan more = go scan.rest refl more
  where
    go :
        (rest : Text)
        → scan.rest ≡ rest
        → 0 < length rest
        → scan_text replacements cursor_pos (suc fuel) scan
          ≡ scan_text replacements cursor_pos fuel (advance replacements cursor_pos scan)
    go [] same nonzero = absurd (omega arith)
    go (c ∷ s) same nonzero = rw same refl

module _ (replacements : List (Text × Text)) (cursor_pos : ℕ)
    (nonempty : All (λ entry. 0 < length entry.0) replacements) where
  match_at-IsKey : (s : Text) → IsKey s (match_at replacements s)
  unfolding match_at
  match_at-IsKey s = elim (Option-cases (match_at replacements s)) [
    | inl absent ↦ rw absent tt
    | inr (entry, there) ↦
        let key =
          find_lem (λ e. 0 < length e.0) (λ e. starts_with s e.0) replacements entry nonempty
            there in
        rw there ((key.0, starts_with_short s entry.0 key.1), tt)
  ]

  -- With as much fuel as the text is long the loop reads the text to its end.
  pub scan_text-IsPlaced :
      (fuel : ℕ) (scan : Scan)
      → length scan.rest ≤ fuel
      → IsPlaced cursor_pos scan
      → IsPlaced cursor_pos (scan_text replacements cursor_pos fuel scan)
        × ((scan_text replacements cursor_pos fuel scan).index ≡ scan.index + length scan.rest)
  unfolding scan_text advance
  scan_text-IsPlaced zero scan enough placed = (placed, omega arith)
  scan_text-IsPlaced (suc fuel) scan enough placed = elim (length-cases scan.rest) [
    | inl done ↦
        rw (scan_text_done replacements cursor_pos (suc fuel) scan done)
          (placed, rw done (omega arith))
    | inr more ↦
        let key = match_at-IsKey scan.rest in
        let found = match_at replacements scan.rest in
        let less = advance_by-rest cursor_pos scan found more key in
        let later =
          scan_text-IsPlaced fuel (advance replacements cursor_pos scan)
            (omega (arith, less.0, enough))
            (advance_by-IsPlaced cursor_pos scan found placed more key) in
        rw (scan_text_more replacements cursor_pos fuel scan more) (later.0, later.1 ∙ less.1)
  ]
