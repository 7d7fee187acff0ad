-- ===== src/Paths/Payload/Laws.antt =====
-- Packets that `extractPacketPayloadHex` of frontend/src/utils/pathUtils.ts takes apart.
use remoteterm_meshcore.Prelude.{
  ℕ, suc, ◌+◌, ◌*◌, ◌/◌, ◌%◌, ◌≤◌, ◌<◌, ◌≡◌, refl, ap, ◌∙◌, inl, inr, Bool, ◌||◌, Option, none,
  some, [], ◌∷◌, ◌++◌, Text, arith, length, length-append, length-drop, take, drop, ltb, leb,
  nat_eq, if◌then◌else◌, ◌==◌, Bool-cases, to_upper_case, to_upper_case-append, drop-append_self,
  length-to_upper_case,
}
use mathlib.Core.Path.{subst}
use remoteterm_meshcore.Paths.Payload.{
  max_path_bytes, parse_int_16, payload_after_path, extract_packet_payload_hex,
}
use remoteterm_meshcore.Paths.Payload.Digits.{hex_byte, upper-digit, parse_hex_byte}

-- The bytes of the path that a path byte announces.
abbrev pub announced : ℕ → ℕ
announced path_byte = path_byte % 64 * (path_byte / 64 + 1)

-- A path byte that the firmware refuses, or a path that leaves no payload of the digits after it.
abbrev pub is_refused : ℕ → Text → Bool
is_refused path_byte rest =
    path_byte / 64 == 3
    || ltb max_path_bytes (announced path_byte)
    || leb (length rest) (announced path_byte * 2)

ends :
    (s : Text)
    → (elim s [ [] ↦ none | c ∷ t ↦ some (c ∷ t) ]) ≡ (if leb (length s) 0 then none else some s)
ends [] = refl
ends (c ∷ s) = ground arith

settle :
    (mode bytes : ℕ) (rest : Text)
    → (if ltb (suc (suc (length rest))) 2
        then none
        else if mode == 3
        then none
        else if ltb max_path_bytes bytes
        then none
        else if ltb (length rest) (bytes * 2)
        then none
        else elim (drop (bytes * 2) rest) [ [] ↦ none | c ∷ payload ↦ some (c ∷ payload) ])
      ≡ (if mode == 3 || ltb max_path_bytes bytes || leb (length rest) (bytes * 2)
          then none
          else some (drop (bytes * 2) rest))
settle mode bytes rest =
    rw (ends (drop (bytes * 2) rest)) (ground (arith, length-drop (bytes * 2) rest))

payload_after_path_lem :
    (path_byte : ℕ) (rest : Text)
    → path_byte < 256
    → payload_after_path (hex_byte path_byte ++ rest)
      ≡ (if is_refused path_byte rest then none else some (drop (announced path_byte * 2) rest))
unfolding payload_after_path
payload_after_path_lem path_byte rest h =
    rw (parse_hex_byte path_byte h) (rw mode (settle (path_byte / 64) (announced path_byte) rest))
  where
    mode : path_byte / 64 % 4 ≡ path_byte / 64
    mode = omega arith

-- The transport codes that a header calls for: eight digits on the routes 0 and 3.
abbrev pub transport_length : ℕ → ℕ
transport_length header = if header % 4 == 0 || header % 4 == 3 then 8 else 0

upper-byte : (b : ℕ) → b < 256 → to_upper_case (hex_byte b) ≡ hex_byte b
unfolding to_upper_case
upper-byte b h =
    rw (upper-digit (b / 16) (omega arith)) (rw (upper-digit (b % 16) (omega arith)) refl)

upper-frame :
    (a b c d : Text)
    → to_upper_case (a ++ (b ++ (c ++ d)))
      ≡ to_upper_case a ++ (to_upper_case b ++ (to_upper_case c ++ to_upper_case d))
upper-frame a b c d =
    to_upper_case-append a (b ++ (c ++ d))
    ∙ ap (λ u. to_upper_case a ++ u)
        (to_upper_case-append b (c ++ d)
          ∙ ap (λ u. to_upper_case b ++ u) (to_upper_case-append c d))

-- What is done with the text in upper case.
abbrev extract_normalized : Text → Option Text
extract_normalized normalized =
    let route_type = parse_int_16 (take 2 normalized) % 4 in
    let rest = drop 2 normalized in
    if ltb (length normalized) 4
    then none
    else if route_type == 0 || route_type == 3
    then if ltb (length normalized) (2 + 8) then none else payload_after_path (drop 8 rest)
    else payload_after_path rest

extract-normalized :
    (s : Text) → extract_packet_payload_hex s ≡ extract_normalized (to_upper_case s)
unfolding extract_packet_payload_hex
extract-normalized s = rw (← length-to_upper_case s) refl

after_header :
    (header : ℕ) (transport rest : Text)
    → header < 256
    → length transport ≡ transport_length header
    → 2 ≤ length rest
    → extract_normalized (hex_byte header ++ (transport ++ rest)) ≡ payload_after_path rest
after_header header transport rest h t long =
    rw (parse_hex_byte header h) (elim (Bool-cases (header % 4 == 0 || header % 4 == 3)) [
      | inl coded ↦
          let eight : length transport ≡ 8 = t ∙ rw coded refl in
          let left : drop 8 (transport ++ rest) ≡ rest =
            subst (λ n. drop n (transport ++ rest) ≡ rest) eight
              (drop-append_self transport rest) in
          rw (coded, left) (ground (arith, length-append transport rest, eight))
      | inr plain ↦
          let none_there : length transport ≡ 0 = t ∙ rw plain refl in
          let left : transport ++ rest ≡ rest =
            subst (λ n. drop n (transport ++ rest) ≡ rest) none_there
              (drop-append_self transport rest) in
          rw (plain, left) (ground arith)
    ])

-- Of a packet of a header byte, the transport codes that the header calls for, a path byte and any
-- digits after it, the payload is what stands after the announced path, in upper case, and nothing
-- exactly when the hash mode is 3, the path is over 64 bytes, or no digit is left after it.
pub extract_packet_payload_hex_lem :
    (header path_byte : ℕ) (transport rest : Text)
    → header < 256
    → path_byte < 256
    → length transport ≡ transport_length header
    → extract_packet_payload_hex (hex_byte header ++ (transport ++ (hex_byte path_byte ++ rest)))
      ≡ (if is_refused path_byte rest
          then none
          else some (drop (announced path_byte * 2) (to_upper_case rest)))
unfolding extract_packet_payload_hex
extract_packet_payload_hex_lem header path_byte transport rest h k t =
    extract-normalized _
    ∙ ap extract_normalized upper
    ∙ after_header header (to_upper_case transport) (hex_byte path_byte ++ to_upper_case rest) h
        (length-to_upper_case transport ∙ t) (omega arith)
    ∙ payload_after_path_lem path_byte (to_upper_case rest) k
    ∙ rw (length-to_upper_case rest) refl
  where
    upper :
        to_upper_case (hex_byte header ++ (transport ++ (hex_byte path_byte ++ rest)))
        ≡ hex_byte header ++ (to_upper_case transport ++ (hex_byte path_byte ++ to_upper_case rest))
    upper =
        upper-frame (hex_byte header) transport (hex_byte path_byte) rest
        ∙ ap
            (λ u.
              u
              ++ (to_upper_case transport
                  ++ (to_upper_case (hex_byte path_byte) ++ to_upper_case rest)))
            (upper-byte header h)
        ∙ ap (λ u. hex_byte header ++ (to_upper_case transport ++ (u ++ to_upper_case rest)))
            (upper-byte path_byte k)
