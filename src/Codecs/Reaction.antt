-- ===== src/Codecs/Reaction.antt =====
-- Reactions and GIFs of MeshCore Open: frontend/src/utils/meshcoreOpenPayloads.ts.
pub mod Digits
pub mod Laws
pub mod Emojis
use remoteterm_meshcore.Prelude.{
  ℕ, zero, suc, ◌+◌, ◌-◌, ◌*◌, ◌/◌, ◌%◌, ◌^◌, Bool, true, false, not, ◌&&◌, ◌||◌, Option, none,
  some, List, [], ◌∷◌, ◌++◌, Text, codes, length, take, get_elem?, every, ltb, leb, get_or, nat_eq,
  nat_beq, list_eq, if◌then◌else◌, ◌==◌, to_string, trim, starts_with,
}
use Prim.Native.Nat.{bit_xor}
use remoteterm_meshcore.Codecs.Reaction.Emojis.{reaction_emojis}

pub record ParsedReaction : Type 0 where
  pub emoji : Text
  pub target_hash : Text

-- `[A-Za-z0-9_-]`
abbrev pub is_gif_unit : ℕ → Bool
is_gif_unit c =
    (leb b'A' c && leb c b'Z')
    || (leb b'a' c && leb c b'z')
    || (leb b'0' c && leb c b'9')
    || nat_beq c b'_'
    || nat_beq c b'-'

unfoldable pub match_gif : Text → Option Text
match_gif (g ∷ colon ∷ c ∷ id) =
    if nat_beq g b'g' && nat_beq colon b':' && every is_gif_unit (c ∷ id)
    then some (c ∷ id)
    else none
match_gif _ = none

abbrev pub parse_gif : Text → Option Text
parse_gif text = match_gif (trim text)

abbrev pub giphy_url_for_id : Text → Text
giphy_url_for_id gif_id = codes "https://media.giphy.com/media/" ++ (gif_id ++ codes "/giphy.gif")

-- `[0-9a-f]`, with its value
unfoldable pub lower_hex_value : ℕ → Option ℕ
lower_hex_value c =
    if leb b'0' c && leb c b'9'
    then some (c - b'0')
    else if leb b'a' c && leb c b'f'
    then some (c - b'a' + 10)
    else none

abbrev pub is_lower_hex : ℕ → Bool
is_lower_hex c = elim (lower_hex_value c) [ none ↦ false | some _ ↦ true ]

-- `REACTION_PATTERN`, with the index of its two last digits.
unfoldable pub match_reaction : Text → Option (Text × ℕ)
match_reaction (r ∷ p ∷ a ∷ b ∷ c ∷ d ∷ q ∷ x ∷ y ∷ []) =
    if nat_beq r b'r'
      && nat_beq p b':'
      && nat_beq q b':'
      && (is_lower_hex a && is_lower_hex b && is_lower_hex c && is_lower_hex d)
    then elim (lower_hex_value x) [
      | none ↦ none
      | some high ↦ elim (lower_hex_value y) [
        | none ↦ none
        | some low ↦ some (a ∷ b ∷ c ∷ d ∷ [], high * 16 + low)
      ]
    ]
    else none
match_reaction _ = none

unfoldable pub parse_reaction : Text → Option ParsedReaction
parse_reaction text = elim (match_reaction (trim text)) [
  | none ↦ none
  | some (target_hash, index) ↦ elim (get_elem? reaction_emojis index) [
    | none ↦ none
    | some emoji ↦ some (record { emoji = emoji; target_hash = target_hash })
  ]
]

-- One character of the hash, on 32 bits.
unfoldable pub hash_unit : ℕ → ℕ → ℕ
hash_unit hash c =
    let added = (hash + c) % 2 ^ 32 in
    let shifted = (added + added * 2 ^ 10) % 2 ^ 32 in bit_xor shifted (shifted / 2 ^ 6) % 2 ^ 32

unfoldable pub hash_units : ℕ → Text → ℕ
hash_units hash [] = hash
hash_units hash (c ∷ s) = hash_units (hash_unit hash c) s

-- Shifting left and adding, and the conversion to 32 bits after each step, agree on the signed and
-- the unsigned number of the same bits.
unfoldable pub dart_string_hash : Text → ℕ
dart_string_hash s =
    let hash = hash_units 0 s in
    let shifted = (hash + hash * 2 ^ 3) % 2 ^ 32 in
    let mixed = bit_xor shifted (shifted / 2 ^ 11) % 2 ^ 32 in
    let result = (mixed + mixed * 2 ^ 15) % 2 ^ 32 % 2 ^ 30 in if result == 0 then 1 else result

abbrev pub lower_hex_digit : ℕ → ℕ
lower_hex_digit d = if ltb d 10 then b'0' + d else b'a' + (d - 10)

-- `n.toString(16)`, on fuel, of which a number below `16 ^ (fuel + 1)` needs no more.
unfoldable pub hex_digits_from : ℕ → ℕ → Text
hex_digits_from zero n = lower_hex_digit (n % 16) ∷ []
hex_digits_from (suc fuel) n =
    let more = hex_digits_from fuel (n / 16) in
    if ltb n 16 then lower_hex_digit n ∷ [] else more ++ lower_hex_digit (n % 16) ∷ []

-- `s.padStart(n, '0')`
unfoldable pub pad_start : ℕ → Text → Text
pad_start zero s = s
pad_start (suc n) s = if leb (suc n) (length s) then s else b'0' ∷ pad_start n s

unfoldable pub compute_reaction_hash : ℕ → Option Text → Text → Text
compute_reaction_hash timestamp_seconds sender_name text =
    let input = to_string timestamp_seconds ++ (get_or sender_name [] ++ take 5 text) in
    pad_start 4 (hex_digits_from 3 (dart_string_hash input % 2 ^ 16))

-- `table.indexOf(emoji)`, of which -1 is none.
unfoldable pub index_of : Text → List Text → Option ℕ
index_of emoji [] = none
index_of emoji (e ∷ es) =
    let rest = index_of emoji es in
    if e == emoji then some 0 else elim rest [ none ↦ none | some i ↦ some (suc i) ]

unfoldable pub encode_reaction : Text → ℕ → Option Text → Text → Option Text
encode_reaction emoji timestamp_seconds sender_name text = elim (index_of emoji reaction_emojis) [
  | none ↦ none
  | some index ↦ some (
      codes "r:"
      ++ (compute_reaction_hash timestamp_seconds sender_name text
          ++ (codes ":" ++ pad_start 2 (hex_digits_from 1 index))))
]
