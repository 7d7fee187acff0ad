-- ===== src/Codecs/Replacement.antt =====
-- Replacing letters in what the user types: frontend/src/utils/textReplace.ts. What JSON.parse and
-- Object.entries make of a text, and whether the storage takes a write, are arguments.
pub mod Loop
pub mod Units
pub mod Laws
use remoteterm_meshcore.Prelude.{
  ℕ, zero, suc, ◌+◌, ◌-◌, Bool, true, false, Option, none, some, List, [], ◌∷◌, ◌++◌, Text, length,
  take, drop, ltb, leb, nat_eq, list_eq, if◌then◌else◌, ◌==◌, starts_with, keep, find, every,
}
use remoteterm_meshcore.Prelude.Sort.{sort}
use remoteterm_meshcore.Codecs.Sender.{includes}

-- Whether the value is an object that is neither null nor an array, and its entries; an entry has
-- no text if its value is not a string.
pub record ParsedJson : Type 0 where
  pub is_object : Bool
  pub entries : List (Text × Option Text)

pub data MapError : Type 0 where
  not_an_object : MapError
  not_strings : MapError
  re_expands : Text → Text → MapError
  invalid_json : MapError

abbrev pub entry_of : ℕ → ℕ → Text × Option Text
entry_of key value = (key ∷ [], some (value ∷ []))

-- DEFAULT_MAP, the keys as code units.
unfoldable pub default_map : List (Text × Option Text)
default_map =
    entry_of 0x410 b'A'
    ∷ entry_of 0x412 b'B'
    ∷ entry_of 0x415 b'E'
    ∷ entry_of 0x401 b'E'
    ∷ entry_of 0x417 b'3'
    ∷ entry_of 0x41a b'K'
    ∷ entry_of 0x41c b'M'
    ∷ entry_of 0x41d b'H'
    ∷ entry_of 0x41e b'O'
    ∷ entry_of 0x420 b'P'
    ∷ entry_of 0x421 b'C'
    ∷ entry_of 0x422 b'T'
    ∷ entry_of 0x425 b'X'
    ∷ entry_of 0x42c b'b'
    ∷ entry_of 0x430 b'a'
    ∷ entry_of 0x435 b'e'
    ∷ entry_of 0x451 b'e'
    ∷ entry_of 0x43e b'o'
    ∷ entry_of 0x440 b'p'
    ∷ entry_of 0x441 b'c'
    ∷ entry_of 0x443 b'y'
    ∷ entry_of 0x445 b'x'
    ∷ []

-- What the storage has, if it can be read and has something. What JSON.stringify makes of the
-- default map is an argument.
unfoldable pub get_text_replace_map_json : Text → Option (Option Text) → Text
get_text_replace_map_json default_map_json none = default_map_json
get_text_replace_map_json default_map_json (some none) = default_map_json
get_text_replace_map_json default_map_json (some (some raw)) = raw

abbrev pub is_string : Text × Option Text → Bool
is_string (key, none) = false
is_string (key, some value) = true

-- The cast of the entries; a value that is not a string, which is never stored, is left out.
unfoldable pub string_entries : List (Text × Option Text) → List (Text × Text)
string_entries [] = []
string_entries ((key, none) ∷ entries) = string_entries entries
string_entries ((key, some value) ∷ entries) = (key, value) ∷ string_entries entries

-- The first key, and the first replacement that has it as a part.
unfoldable pub re_expansion : List (Text × Text) → List (Text × Text) → Option (Text × Text)
re_expansion entries [] = none
re_expansion entries (([], value) ∷ needles) = re_expansion entries needles
re_expansion entries ((c ∷ key, value) ∷ needles) =
    let later = re_expansion entries needles in
    elim (find (λ entry. includes entry.1 (c ∷ key)) entries) [
      | none ↦ later
      | some entry ↦ some (c ∷ key, entry.1)
    ]

-- The error, if there is one, and what the storage has afterwards.
unfoldable pub store_map :
    Bool → Option Text → Text → Option ParsedJson → Option MapError × Option Text
store_map writable stored json none = (some invalid_json, stored)
store_map writable stored json (some parsed) =
    if parsed.is_object
    then if every is_string parsed.entries
      then elim (re_expansion (string_entries parsed.entries) (string_entries parsed.entries)) [
        | some (needle, replacement) ↦ (some (re_expands needle replacement), stored)
        | none ↦ if writable then (none, some json) else (some invalid_json, stored)
      ]
      else (some not_strings, stored)
    else (some not_an_object, stored)

unfoldable pub set_text_replace_map_json :
    (Text → Option ParsedJson) → Bool → Option Text → Text → Option MapError × Option Text
unfolding store_map
set_text_replace_map_json parse writable stored json = store_map writable stored json (parse json)

abbrev pub is_nonempty : Text × Text → Bool
is_nonempty entry = ltb 0 (length entry.0)

abbrev pub is_longer : Text × Text → Text × Text → Bool
is_longer a b = ltb (length b.0) (length a.0)

-- The entries, the longest keys first; none for a text that is refused.
unfoldable pub sorted_entries : Option ParsedJson → List (Text × Text)
sorted_entries none = []
sorted_entries (some parsed) = sort is_longer (keep is_nonempty (string_entries parsed.entries))

unfoldable pub build_replacements : (Text → Option ParsedJson) → Text → List (Text × Text)
unfolding sorted_entries
build_replacements parse json = sorted_entries (parse json)

-- The variables of the loop: `rest` is the text from `index` on.
pub record Scan : Type 0 where
  pub rest : Text
  pub index : ℕ
  pub result : Text
  pub cursor : ℕ

-- The cursor after a match. Up to the cursor the result and the text differ by as much as the two
-- cursors do, so nothing is taken from less.
unfoldable pub move_cursor : ℕ → Scan → Text → Text → ℕ
move_cursor cursor_pos scan needle replacement =
    if leb (scan.index + length needle) cursor_pos
    then scan.cursor + length replacement - length needle
    else if ltb scan.index cursor_pos
    then length (scan.result ++ replacement)
    else scan.cursor

-- The body of the loop, for the first entry whose key stands at the index, if there is one.
unfoldable pub advance_by : ℕ → Scan → Option (Text × Text) → Scan
unfolding move_cursor
advance_by cursor_pos scan none = record {
  rest = drop 1 scan.rest;
  index = suc scan.index;
  result = scan.result ++ take 1 scan.rest;
  cursor = scan.cursor;
}
advance_by cursor_pos scan (some (needle, replacement)) = record {
  rest = drop (length needle) scan.rest;
  index = scan.index + length needle;
  result = scan.result ++ replacement;
  cursor = move_cursor cursor_pos scan needle replacement;
}

unfoldable pub match_at : List (Text × Text) → Text → Option (Text × Text)
match_at replacements s = find (λ entry. starts_with s entry.0) replacements

unfoldable pub advance : List (Text × Text) → ℕ → Scan → Scan
unfolding advance_by match_at
advance replacements cursor_pos scan = advance_by cursor_pos scan (match_at replacements scan.rest)

-- The loop, on fuel: each turn takes at least one unit of the text.
unfoldable pub scan_text : List (Text × Text) → ℕ → ℕ → Scan → Scan
scan_text replacements cursor_pos zero scan = scan
scan_text replacements cursor_pos (suc fuel) scan = elim scan.rest [
  | [] ↦ scan
  | c ∷ s ↦ scan_text replacements cursor_pos fuel (advance replacements cursor_pos scan)
]

pub record Replaced : Type 0 where
  pub text : Text
  pub cursor : ℕ

unfoldable pub changed_text : Text → Scan → Option Replaced
changed_text text scan =
    if scan.result == text then none else some (record { text = scan.result; cursor = scan.cursor })

abbrev pub start_scan : Text → ℕ → Scan
start_scan text cursor_pos = record { rest = text; index = 0; result = []; cursor = cursor_pos }

unfoldable pub replace_all : List (Text × Text) → Text → ℕ → Option Replaced
unfolding changed_text scan_text
replace_all [] text cursor_pos = none
replace_all (first ∷ others) text cursor_pos =
    changed_text text
      (scan_text (first ∷ others) cursor_pos (length text) (start_scan text cursor_pos))

unfoldable pub apply_text_replacements :
    (Text → Option ParsedJson) → Text → ℕ → Text → Option Replaced
unfolding replace_all build_replacements
apply_text_replacements parse text cursor_pos json =
    replace_all (build_replacements parse json) text cursor_pos
