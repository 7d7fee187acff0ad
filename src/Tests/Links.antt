-- ===== src/Tests/Links.antt =====
-- The theorems about URL hashes, with a small percent encoding.
use remoteterm_meshcore.Prelude.{
  ℕ, ◌≡◌, ◌↔◌, true, refl, inl, inr, false, Option, none, some, [], ◌∷◌, ◌++◌, Text, codes, arith,
  nat_beq, nat_eq, list_eq, if◌then◌else◌, contains, Bool-cases,
}
use remoteterm_meshcore.Data.{Conversation}
use remoteterm_meshcore.Data
use remoteterm_meshcore.UrlHash.{parse_hash_conversation, get_conversation_hash}
use remoteterm_meshcore.UrlHash.Reading.{
  parsed_of, link_value, IsUndecodable, parse_hash_conversation_throws,
}
use remoteterm_meshcore.UrlHash.Laws.{is_well_formed, parse_hash_conversation-get}

-- A percent sign and a slash are escaped.
unfoldable escape : Text → Text
escape [] = []
escape (c ∷ s) =
    if nat_beq c b'%'
    then b'%' ∷ b'5' ∷ escape s
    else if nat_beq c b'/'
    then b'%' ∷ b'F' ∷ escape s
    else c ∷ escape s

-- An escape that is none of these is malformed.
abbrev unescape : ℕ → Option Text → Option Text
unescape c none = none
unescape c (some s) =
    if nat_beq c b'5' then some (b'%' ∷ s) else if nat_beq c b'F' then some (b'/' ∷ s) else none

abbrev keep_unit : ℕ → Option Text → Option Text
keep_unit c none = none
keep_unit c (some s) = some (c ∷ s)

unfoldable decode : Text → Option Text
decode [] = some []
decode (c ∷ []) = if nat_beq c b'%' then none else some (c ∷ [])
decode (c ∷ d ∷ s) =
    let escaped = unescape d (decode s) in
    let plain = keep_unit c (decode (d ∷ s)) in if nat_beq c b'%' then escaped else plain

decode_plain : (c : ℕ) (s : Text) → nat_beq c b'%' ≡ false → decode (c ∷ s) ≡ keep_unit c (decode s)
unfolding decode
decode_plain c [] h = rw h refl
decode_plain c (d ∷ s) h = rw h refl

decode-escape : (s : Text) → decode (escape s) ≡ some s
unfolding decode escape
decode-escape [] = refl
decode-escape (c ∷ s) = elim (Bool-cases (nat_beq c b'%')) [
  | inl percent ↦ rw percent (rw (decode-escape s) (ground arith))
  | inr other ↦ rw other (elim (Bool-cases (nat_beq c b'/')) [
    | inl slash ↦ rw slash (rw (decode-escape s) (ground arith))
    | inr plain ↦ rw plain (rw (decode_plain c (escape s) other) (rw (decode-escape s) refl))
  ])
]

escape_slash : (s : Text) → contains (escape s) b'/' ≡ false
unfolding escape contains
escape_slash [] = refl
escape_slash (c ∷ s) = ground (arith, escape_slash s)

-- A lone surrogate throws.
unfoldable encode : Text → Option Text
encode s = if is_well_formed s then some (escape s) else none

encode-some : (s : Text) → is_well_formed s ≡ true → (e : Text) × (encode s ≡ some e)
unfolding encode
encode-some s h = (escape s, rw h refl)

encode-escape : (s e : Text) → encode s ≡ some e → e ≡ escape s
unfolding encode
encode-escape s e h = ground arith

decode-encode : (s e : Text) → encode s ≡ some e → decode e ≡ some s
decode-encode s e h = rw (encode-escape s e h) (decode-escape s)

encode_slash : (s e : Text) → encode s ≡ some e → contains e b'/' ≡ false
encode_slash s e h = rw (encode-escape s e h) (escape_slash s)

encode_empty : encode [] ≡ some []
unfolding encode escape is_well_formed
encode_empty = refl

abbrev hashed : Conversation
hashed = record {
  kind = Data.channel;
  id = codes "8B/3";
  name = codes "#a%b";
  map_focus_key = none;
}

parse_hash_conversation-get_example :
    (hash : Text) × (get_conversation_hash encode (some hashed) ≡ some hash)
    × (parse_hash_conversation decode hash ≡ some (some (parsed_of hashed)))
unfolding is_well_formed
parse_hash_conversation-get_example =
    parse_hash_conversation-get encode decode encode-some decode-encode encode_slash encode_empty
      Data.channel b'8' (codes "B/3") (codes "#a%b") none refl refl

parse_hash_conversation_throws_example :
    ((parse_hash_conversation decode (codes "#channel/" ++ link_value (codes "100%") none) ≡ none)
      ↔ IsUndecodable decode (codes "100%") [])
    × ((parse_hash_conversation decode (codes "#contact/" ++ link_value (codes "100%") none) ≡ none)
        ↔ IsUndecodable decode (codes "100%") [])
unfolding contains
parse_hash_conversation_throws_example =
    parse_hash_conversation_throws decode b'1' (codes "00%") none refl

-- Such a link does throw.
undecodable : decode (codes "100%") ≡ none
unfolding decode
undecodable = refl
