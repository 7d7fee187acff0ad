-- ===== src/Paths/Payload/Digits.antt =====
-- Two hex digits, written and read by `parseInt(s, 16)` as frontend/src/utils/pathUtils.ts uses it.
use remoteterm_meshcore.Prelude.{
  ℕ, ◌+◌, ◌-◌, ◌*◌, ◌/◌, ◌%◌, ◌^◌, ◌<◌, ◌≡◌, refl, ap, ◌∙◌, some, [], ◌∷◌, Text, arith, ltb, nat_eq,
  if◌then◌else◌, upper_unit, is_space, trim_start,
}
use remoteterm_meshcore.Paths.Payload.{
  hex_digit_value, hex_prefix_value, skip_hex_mark, signed_bits, parse_int_16,
}

-- A byte as two upper-case hex digits.
abbrev pub hex_digit : ℕ → ℕ
hex_digit d = if ltb d 10 then b'0' + d else b'A' + (d - 10)

abbrev pub hex_byte : ℕ → Text
hex_byte b = hex_digit (b / 16) ∷ hex_digit (b % 16) ∷ []

digit_back : (d : ℕ) → d < 16 → hex_digit_value (hex_digit d) ≡ some d
unfolding hex_digit_value
digit_back d h = ground arith

pub upper-digit : (d : ℕ) → d < 16 → upper_unit (hex_digit d) ≡ hex_digit d
unfolding upper_unit
upper-digit d h = ground arith

trim_digit : (d : ℕ) (s : Text) → d < 16 → trim_start (hex_digit d ∷ s) ≡ hex_digit d ∷ s
unfolding trim_start is_space
trim_digit d s h = ground arith

no_mark :
    (d e : ℕ)
    → d < 16
    → e < 16
    → skip_hex_mark (hex_digit d ∷ hex_digit e ∷ []) ≡ hex_digit d ∷ hex_digit e ∷ []
unfolding skip_hex_mark
no_mark d e h k = ground arith

next_digit :
    (value c d : ℕ) (s : Text)
    → hex_digit_value c ≡ some d
    → hex_prefix_value value (c ∷ s) ≡ hex_prefix_value (value * 16 + d) s
unfolding hex_prefix_value
next_digit value c d s h = rw (h, hex_prefix_value) refl

last_digit : (value : ℕ) → hex_prefix_value value [] ≡ value
unfolding hex_prefix_value
last_digit value = refl

two_digits :
    (d e : ℕ) → d < 16 → e < 16 → hex_prefix_value 0 (hex_digit d ∷ hex_digit e ∷ []) ≡ d * 16 + e
two_digits d e h k =
    next_digit 0 (hex_digit d) d (hex_digit e ∷ []) (digit_back d h)
    ∙ next_digit (0 * 16 + d) (hex_digit e) e [] (digit_back e k)
    ∙ last_digit ((0 * 16 + d) * 16 + e)
    ∙ omega arith

unsigned :
    (d e : ℕ)
    → d < 16
    → e < 16
    → signed_bits (hex_digit d ∷ hex_digit e ∷ [])
      ≡ hex_prefix_value 0 (hex_digit d ∷ hex_digit e ∷ []) % 2 ^ 32
unfolding signed_bits
unsigned d e h k = ground (arith, no_mark d e h k)

pub parse_hex_byte : (b : ℕ) → b < 256 → parse_int_16 (hex_byte b) ≡ b
unfolding parse_int_16
parse_hex_byte b h =
    ap signed_bits (trim_digit (b / 16) (hex_digit (b % 16) ∷ []) (omega arith))
    ∙ unsigned (b / 16) (b % 16) (omega arith) (omega arith)
    ∙ ap (λ v. v % 2 ^ 32) (two_digits (b / 16) (b % 16) (omega arith) (omega arith))
    ∙ omega arith
