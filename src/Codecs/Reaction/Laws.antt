-- ===== src/Codecs/Reaction/Laws.antt =====
-- Reactions of frontend/src/utils/meshcoreOpenPayloads.ts, encoded and parsed.
use remoteterm_meshcore.Prelude.{
  ℕ, suc, ◌+◌, ◌*◌, ◌/◌, ◌%◌, ◌^◌, ◌<◌, ◌≡◌, refl, ap, sym, ◌∙◌, inl, inr, true, false, Option,
  some, List, [], ◌∷◌, ◌++◌, Text, codes, arith, length, contains, get_elem?, take, get_or,
  to_string, nat_eq, list_eq, ◌==◌, eq_iff, is_space, trim, trim_start, Bool-cases, Option-cases,
}
use remoteterm_meshcore.Codecs.Reaction.Emojis.{reaction_emojis}
use remoteterm_meshcore.Codecs.Reaction.{
  is_lower_hex, match_reaction, parse_reaction, dart_string_hash, lower_hex_digit, hex_digits_from,
  pad_start, compute_reaction_hash, index_of, encode_reaction,
}
use remoteterm_meshcore.Codecs.Reaction.Digits.{
  value_back, digit_not_space, two_digits, four_digits,
}

get-index_of :
    (emoji : Text) (es : List Text) (i : ℕ)
    → index_of emoji es ≡ some i
    → (get_elem? es i ≡ some emoji) × (i < length es)
unfolding index_of
get-index_of emoji [] i h = absurd (cc h)
get-index_of emoji (e ∷ es) i h = elim (Bool-cases (e == emoji)) [
  | inl same ↦
      let first : 0 ≡ i = ground arith in
      rw (← first) (ap some ((eq_iff e emoji).0 same), omega arith)
  | inr other ↦ elim (Option-cases (index_of emoji es)) [
    | inl missing ↦ absurd (ground arith)
    | inr (j, there) ↦
        let later : suc j ≡ i = ground arith in
        let (found, inside) = get-index_of emoji es j there in
        rw (← later) (found, omega (arith, inside))
  ]
]

table_length : length reaction_emojis ≡ 184
unfolding reaction_emojis
table_length = refl

trim_start_none : (c : ℕ) (s : Text) → is_space c ≡ false → trim_start (c ∷ s) ≡ c ∷ s
unfolding trim_start
trim_start_none c s h = ground arith

-- The text of a reaction with the hash digits `a` to `d` and the index digits `x` and `y`.
abbrev payload : ℕ → ℕ → ℕ → ℕ → ℕ → ℕ → Text
payload a b c d x y = b'r' ∷ b':' ∷ a ∷ b ∷ c ∷ d ∷ b':' ∷ x ∷ y ∷ []

trim-payload :
    (a b c d x y : ℕ) → is_space y ≡ false → trim (payload a b c d x y) ≡ payload a b c d x y
unfolding trim
trim-payload a b c d x y h =
    rw (trim_start_none b'r' (b':' ∷ a ∷ b ∷ c ∷ d ∷ b':' ∷ x ∷ y ∷ []) refl)
      (rw (trim_start_none y (x ∷ b':' ∷ d ∷ c ∷ b ∷ a ∷ b':' ∷ b'r' ∷ []) h) refl)

hex_is_lower : (d : ℕ) → d < 16 → is_lower_hex (lower_hex_digit d) ≡ true
hex_is_lower d h = rw (value_back d h, is_lower_hex) refl

match-payload :
    (a b c d x y : ℕ)
    → a < 16
    → b < 16
    → c < 16
    → d < 16
    → x < 16
    → y < 16
    → match_reaction (
        payload
          (lower_hex_digit a)
          (lower_hex_digit b)
          (lower_hex_digit c)
          (lower_hex_digit d)
          (lower_hex_digit x)
          (lower_hex_digit y))
      ≡ some (
        lower_hex_digit a ∷ lower_hex_digit b ∷ lower_hex_digit c ∷ lower_hex_digit d ∷ [],
        x * 16 + y,
      )
unfolding match_reaction
match-payload a b c d x y ha hb hc hd hx hy = rw (hex_is_lower a ha) (
    rw (hex_is_lower b hb) (
      rw (hex_is_lower c hc)
        (rw (hex_is_lower d hd) (rw (value_back x hx) (rw (value_back y hy) refl)))))

index_of-contains :
    (emoji : Text) (es : List Text)
    → contains es emoji ≡ true
    → (i : ℕ) × (index_of emoji es ≡ some i)
unfolding contains index_of
index_of-contains emoji [] h = absurd (cc h)
index_of-contains emoji (e ∷ es) h = elim (Bool-cases (e == emoji)) [
  | inl same ↦ (0, rw same refl)
  | inr other ↦
      let (i, there) = index_of-contains emoji es (ground arith) in (suc i, rw (other, there) refl)
]

parse-matched :
    (sent target_hash : Text) (index : ℕ) (emoji : Text)
    → match_reaction (trim sent) ≡ some (target_hash, index)
    → get_elem? reaction_emojis index ≡ some emoji
    → parse_reaction sent ≡ some (record { emoji = emoji; target_hash = target_hash })
unfolding parse_reaction
parse-matched sent target_hash index emoji m found = rw (m, parse_reaction) (rw found refl)

parse-payload :
    (emoji target_hash : Text) (index hash : ℕ)
    → index < 256
    → hash < 65536
    → get_elem? reaction_emojis index ≡ some emoji
    → target_hash ≡ pad_start 4 (hex_digits_from 3 hash)
    → parse_reaction
        (codes "r:" ++ (target_hash ++ (codes ":" ++ pad_start 2 (hex_digits_from 1 index))))
      ≡ some (record { emoji = emoji; target_hash = target_hash })
parse-payload emoji target_hash index hash small low found same =
    parse-matched _ target_hash index emoji
      (ap match_reaction (ap trim written ∙ trimmed)
        ∙ matched
        ∙ ap some (λ i. (sym digits i, number i)))
      found
  where
    hex : ℕ → ℕ
    hex = lower_hex_digit

    digits :
        target_hash
        ≡ hex (hash / 4096) ∷ hex (hash / 256 % 16) ∷ hex (hash / 16 % 16) ∷ hex (hash % 16) ∷ []
    digits = same ∙ four_digits hash low

    number : index / 16 * 16 + index % 16 ≡ index
    number = omega arith

    written :
        codes "r:" ++ (target_hash ++ (codes ":" ++ pad_start 2 (hex_digits_from 1 index)))
        ≡ payload
            (hex (hash / 4096))
            (hex (hash / 256 % 16))
            (hex (hash / 16 % 16))
            (hex (hash % 16))
            (hex (index / 16))
            (hex (index % 16))
    written = rw (digits, two_digits index small) refl

    trimmed :
        trim (
          payload
            (hex (hash / 4096))
            (hex (hash / 256 % 16))
            (hex (hash / 16 % 16))
            (hex (hash % 16))
            (hex (index / 16))
            (hex (index % 16)))
        ≡ payload
            (hex (hash / 4096))
            (hex (hash / 256 % 16))
            (hex (hash / 16 % 16))
            (hex (hash % 16))
            (hex (index / 16))
            (hex (index % 16))
    trimmed = trim-payload _ _ _ _ _ _ (digit_not_space (index % 16) (omega arith))

    matched :
        match_reaction (
          payload
            (hex (hash / 4096))
            (hex (hash / 256 % 16))
            (hex (hash / 16 % 16))
            (hex (hash % 16))
            (hex (index / 16))
            (hex (index % 16)))
        ≡ some (
          hex (hash / 4096) ∷ hex (hash / 256 % 16) ∷ hex (hash / 16 % 16) ∷ hex (hash % 16) ∷ [],
          index / 16 * 16 + index % 16,
        )
    matched =
        match-payload (hash / 4096) (hash / 256 % 16) (hash / 16 % 16) (hash % 16) (index / 16)
          (index % 16) (omega arith) (omega arith) (omega arith) (omega arith) (omega arith)
          (omega arith)

-- The low 16 bits of the hash of a message.
abbrev reaction_number : ℕ → Option Text → Text → ℕ
reaction_number timestamp_seconds sender_name text =
    dart_string_hash (to_string timestamp_seconds ++ (get_or sender_name [] ++ take 5 text))
    % 2 ^ 16

-- An emoji of the table is encoded, and the text that is sent is parsed back to it, with the hash of
-- the message that it is for.
pub parse_reaction-encode :
    (emoji : Text) (timestamp_seconds : ℕ) (sender_name : Option Text) (text : Text)
    → contains reaction_emojis emoji ≡ true
    → (sent : Text) × (encode_reaction emoji timestamp_seconds sender_name text ≡ some sent)
      × (parse_reaction sent
          ≡ some (record {
            emoji = emoji;
            target_hash = compute_reaction_hash timestamp_seconds sender_name text;
          }))
unfolding encode_reaction compute_reaction_hash
parse_reaction-encode emoji timestamp_seconds sender_name text h =
    let (index, there) = index_of-contains emoji reaction_emojis h in
    let (found, inside) = get-index_of emoji reaction_emojis index there in
    (
      _,
      rw (there, encode_reaction) refl,
      parse-payload emoji (compute_reaction_hash timestamp_seconds sender_name text) index
          (reaction_number timestamp_seconds sender_name text) (omega (arith, inside, table_length))
          (omega arith) found refl,
    )

-- The hash of a text is at least 1 and below 2 ^ 30, as Dart's is.
pub dart_string_hash_bounds : (s : Text) → (0 < dart_string_hash s) × (dart_string_hash s < 2 ^ 30)
unfolding dart_string_hash
dart_string_hash_bounds s = (ground arith, ground arith)
