-- ===== src/Codecs/Reaction/Digits.antt =====
-- The hex digits of reactions in frontend/src/utils/meshcoreOpenPayloads.ts, read back.
use remoteterm_meshcore.Prelude.{
  ℕ, ◌/◌, ◌%◌, ◌<◌, ◌≡◌, refl, inl, inr, false, some, [], ◌∷◌, arith, ltb, nat_eq, list_eq,
  is_space, Bool-cases,
}
use remoteterm_meshcore.Codecs.Reaction.{
  lower_hex_value, lower_hex_digit, hex_digits_from, pad_start,
}

pub value_back : (d : ℕ) → d < 16 → lower_hex_value (lower_hex_digit d) ≡ some d
unfolding lower_hex_value
value_back d h = ground arith

pub digit_not_space : (d : ℕ) → d < 16 → is_space (lower_hex_digit d) ≡ false
unfolding is_space
digit_not_space d h = ground arith

pub two_digits :
    (n : ℕ)
    → n < 256
    → pad_start 2 (hex_digits_from 1 n) ≡ lower_hex_digit (n / 16) ∷ lower_hex_digit (n % 16) ∷ []
unfolding pad_start hex_digits_from
two_digits n h = elim (Bool-cases (ltb n 16)) [
  | inl small ↦ rw small (
      let high : n / 16 ≡ 0 = ground arith in
      let low : n % 16 ≡ n = ground arith in rw (high, low) refl)
  | inr large ↦ rw large (let high : n / 16 % 16 ≡ n / 16 = omega arith in rw high refl)
]

-- The four digits of a number below 2 ^ 16.
pub four_digits :
    (n : ℕ)
    → n < 65536
    → pad_start 4 (hex_digits_from 3 n)
      ≡ lower_hex_digit (n / 4096)
        ∷ lower_hex_digit (n / 256 % 16)
        ∷ lower_hex_digit (n / 16 % 16)
        ∷ lower_hex_digit (n % 16)
        ∷ []
unfolding pad_start hex_digits_from
four_digits n h = elim (Bool-cases (ltb n 16)) [
  | inl one ↦ rw one (
      let p : n / 4096 ≡ 0 = ground arith in
      let q : n / 256 % 16 ≡ 0 = ground arith in
      let r : n / 16 % 16 ≡ 0 = ground arith in
      let s : n % 16 ≡ n = ground arith in rw (p, q, r, s) refl)
  | inr more ↦ rw more (elim (Bool-cases (ltb (n / 16) 16)) [
    | inl two ↦ rw two (
        let p : n / 4096 ≡ 0 = ground arith in
        let q : n / 256 % 16 ≡ 0 = ground arith in
        let r : n / 16 % 16 ≡ n / 16 = ground arith in rw (p, q, r) refl)
    | inr more' ↦ rw more' (elim (Bool-cases (ltb (n / 16 / 16) 16)) [
      | inl three ↦ rw three (
          let p : n / 4096 ≡ 0 = ground arith in
          let q : n / 256 % 16 ≡ n / 16 / 16 = ground arith in rw (p, q) refl)
      | inr four ↦ rw four (
          let p : n / 4096 ≡ n / 16 / 16 / 16 % 16 = ground arith in
          let q : n / 256 % 16 ≡ n / 16 / 16 % 16 = ground arith in rw (p, q) refl)
    ])
  ])
]
