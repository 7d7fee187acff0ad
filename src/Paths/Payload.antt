-- ===== src/Paths/Payload.antt =====
-- `extractPacketPayloadHex` of frontend/src/utils/pathUtils.ts, with `parseInt(s, 16)` and the
-- conversion to 32 bits that the bitwise operators make of its result.
pub mod Digits
pub mod Laws
use remoteterm_meshcore.Prelude.{
  ℕ, zero, suc, ◌+◌, ◌-◌, ◌*◌, ◌/◌, ◌%◌, ◌^◌, Bool, true, false, not, ◌&&◌, ◌||◌, Option, none,
  some, List, [], ◌∷◌, Text, length, take, drop, slice, ltb, leb, nat_eq, nat_beq, if◌then◌else◌,
  ◌==◌, to_upper_case, trim_start,
}

abbrev pub max_path_bytes : ℕ
max_path_bytes = 64

unfoldable pub hex_digit_value : ℕ → Option ℕ
hex_digit_value c =
    if leb b'0' c && leb c b'9'
    then some (c - b'0')
    else if leb b'A' c && leb c b'F'
    then some (c - b'A' + 10)
    else if leb b'a' c && leb c b'f'
    then some (c - b'a' + 10)
    else none

-- The longest prefix of hex digits, after the value of the digits before it.
unfoldable pub hex_prefix_value : ℕ → Text → ℕ
hex_prefix_value value [] = value
hex_prefix_value value (c ∷ s) = elim (hex_digit_value c) [
  | none ↦ value
  | some d ↦ hex_prefix_value (value * 16 + d) s
]

-- A prefix `0x` is skipped.
unfoldable pub skip_hex_mark : Text → Text
skip_hex_mark (z ∷ x ∷ s) =
    if nat_beq z b'0' && (nat_beq x b'x' || nat_beq x b'X') then s else z ∷ x ∷ s
skip_hex_mark s = s

-- The 32 bits of the number after its sign, in two's complement.
unfoldable pub signed_bits : Text → ℕ
signed_bits [] = 0
signed_bits (c ∷ s) =
    if nat_beq c b'-'
    then (2 ^ 32 - hex_prefix_value 0 (skip_hex_mark s) % 2 ^ 32) % 2 ^ 32
    else if nat_beq c b'+'
    then hex_prefix_value 0 (skip_hex_mark s) % 2 ^ 32
    else hex_prefix_value 0 (skip_hex_mark (c ∷ s)) % 2 ^ 32

-- `parseInt(s, 16)` as the bitwise operators read it: `NaN` as 0.
unfoldable pub parse_int_16 : Text → ℕ
parse_int_16 s = signed_bits (trim_start s)

-- From the path byte on: `rest` is what stands after the header and the transport codes.
unfoldable pub payload_after_path : Text → Option Text
payload_after_path rest =
    let path_byte = parse_int_16 (take 2 rest) in
    let hash_mode = path_byte / 64 % 4 in
    let path_byte_len = path_byte % 64 * (hash_mode + 1) in
    let after = drop 2 rest in
    if ltb (length rest) 2
    then none
    else if hash_mode == 3
    then none
    else if ltb max_path_bytes path_byte_len
    then none
    else if ltb (length after) (path_byte_len * 2)
    then none
    else elim (drop (path_byte_len * 2) after) [ [] ↦ none | c ∷ payload ↦ some (c ∷ payload) ]

unfoldable pub extract_packet_payload_hex : Text → Option Text
extract_packet_payload_hex packet_hex =
    let normalized = to_upper_case packet_hex in
    let route_type = parse_int_16 (take 2 normalized) % 4 in
    let rest = drop 2 normalized in
    if ltb (length packet_hex) 4
    then none
    else if route_type == 0 || route_type == 3
    then if ltb (length normalized) (2 + 8) then none else payload_after_path (drop 8 rest)
    else payload_after_path rest
