-- ===== src/Codecs/Sender.antt =====
-- Senders, mentions, channel references and ages: frontend/src/utils/messageParser.ts. Letter case
-- is that of ASCII; what the locale makes of a date is an argument.
pub mod Laws
use remoteterm_meshcore.Prelude.{
  ℕ, zero, suc, ◌+◌, ◌-◌, ◌*◌, ◌/◌, ◌<◌, Bool, true, false, not, ◌&&◌, ◌||◌, Option, none, some,
  List, [], ◌∷◌, ◌++◌, Text, codes, length, take, drop, ltb, leb, nat_eq, nat_beq, if◌then◌else◌,
  ◌==◌, contains, to_string, to_upper_case, starts_with, is_space,
}

pub record ParsedSender : Type 0 where
  pub sender : Option Text
  pub content : Text

-- `text.indexOf(': ')` as the texts before and after it.
unfoldable pub split_colon : Text → Option (Text × Text)
split_colon [] = none
split_colon (c ∷ s) =
    let rest = split_colon s in
    if starts_with (c ∷ s) (codes ": ")
    then some ([], drop 1 s)
    else elim rest [ none ↦ none | some (before, after) ↦ some (c ∷ before, after) ]

unfoldable pub parse_sender_from_text : Text → ParsedSender
parse_sender_from_text text = elim (split_colon text) [
  | none ↦ record { sender = none; content = text }
  | some (before, after) ↦
      if ltb 0 (length before) && ltb (length before) 50 && not (contains before b':')
      then record { sender = some before; content = after }
      else record { sender = none; content = text }
]

pub record HashtagChannelReference : Type 0 where
  pub label : Text
  pub start : ℕ
  pub end : ℕ

abbrev pub is_label_unit : ℕ → Bool
is_label_unit c = (leb b'a' c && leb c b'z') || (leb b'0' c && leb c b'9')

-- The longest text of letters, digits and dashes.
unfoldable pub label_run : Text → Text
label_run [] = []
label_run (c ∷ s) = if is_label_unit c || nat_beq c b'-' then c ∷ label_run s else []

-- Runs of letters and digits with one dash between two of them; `after_dash` is whether a letter or
-- a digit has to come.
unfoldable pub is_label : Bool → Text → Bool
is_label after_dash [] = not after_dash
is_label after_dash (c ∷ s) =
    if is_label_unit c
    then is_label false s
    else nat_beq c b'-' && not after_dash && is_label true s

-- `$|[\s.,;:]`
abbrev pub ends_label : Text → Bool
ends_label [] = true
ends_label (c ∷ s) =
    is_space c || nat_beq c b'.' || nat_beq c b',' || nat_beq c b';' || nat_beq c b':'

-- The label at a `#`: a match takes all letters, digits and dashes, since none of them may follow.
unfoldable pub match_label : Text → Option Text
match_label [] = none
match_label (c ∷ s) =
    let run = label_run s in
    if nat_beq c b'#' && is_label true run && ends_label (drop (length run) s)
    then some (c ∷ run)
    else none

-- The matches from an index on; `free` is whether the text starts here or white space stands before.
unfoldable pub references_from : ℕ → Bool → Text → List HashtagChannelReference
references_from index free [] = []
references_from index free (c ∷ s) =
    let rest = references_from (suc index) (is_space c) s in
    if free
    then elim (match_label (c ∷ s)) [
      | none ↦ rest
      | some label ↦ record { label = label; start = index; end = index + length label } ∷ rest
    ]
    else rest

unfoldable pub find_linked_channel_references : Text → List HashtagChannelReference
find_linked_channel_references text = references_from 0 true text

-- `nowMs / 1000 - timestamp`, rounded down and not below 0.
unfoldable pub format_short_ago : (ℕ → Text) → ℕ → ℕ → Text
format_short_ago short_date timestamp now_ms =
    let seconds = now_ms / 1000 - timestamp in
    if ltb seconds 60
    then codes "now"
    else if ltb seconds 3600
    then to_string (seconds / 60) ++ codes "m"
    else if ltb seconds 86400
    then to_string (seconds / 3600) ++ codes "h"
    else if ltb seconds (7 * 86400)
    then to_string (seconds / 86400) ++ codes "d"
    else short_date timestamp

-- The mention stands somewhere in the text.
unfoldable pub includes : Text → Text → Bool
includes [] needle = starts_with [] needle
includes (c ∷ s) needle = starts_with (c ∷ s) needle || includes s needle

unfoldable pub message_contains_mention : Text → Option Text → Bool
message_contains_mention text none = false
message_contains_mention text (some []) = false
message_contains_mention text (some (c ∷ name)) =
    includes (to_upper_case text) (codes "@[" ++ (to_upper_case (c ∷ name) ++ codes "]"))
