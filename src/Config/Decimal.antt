-- ===== src/Config/Decimal.antt =====
-- Decimal numbers of 32 bits, as a configuration file writes them, and parse_uint32 of
-- src/config.cpp.
use obscura_proto.Common.{
  ℕ, zero, suc, ◌+◌, ◌*◌, ◌/◌, ◌%◌, ◌^◌, ◌≤◌, ◌<◌, ◌≡◌, refl, ◌∙◌, ap, inl, inr, List, [], ◌∷◌,
  false, some, ltb→lt, lt→ltb, true, arith, ltb, if◌then◌else◌, Bool-cases, All,
}
use obscura_proto.Common.Words.{IsU32}
use obscura_proto.Config.Numbers.{
  digit_value, is_digit, is_space, skip_space, read_sign, read_digits, stoul, is_hex, parse_uint32,
}

-- The digits of `n` in front of `after`, with one round for each digit.
unfoldable pub digits : ℕ → ℕ → List ℕ → List ℕ
digits zero n after = after
digits (suc rounds) n after =
    let more = digits rounds (n / 10) ((48 + n % 10) ∷ after) in
    if ltb n 10 then (48 + n % 10) ∷ after else more

-- Ten rounds are enough for 32 bits.
unfoldable pub decimal : ℕ → List ℕ
unfolding digits
decimal n = digits 10 n []

abbrev pub IsDigit : ℕ → Type 0
IsDigit c = (48 ≤ c) × (c ≤ 57)

read_digit :
    (m r : ℕ) (after : List ℕ)
    → r < 10
    → read_digits 10 m ((48 + r) ∷ after) ≡ read_digits 10 (m * 10 + r) after
unfolding read_digits is_digit digit_value
read_digit m r after small = ground arith

read_digits-digits :
    (rounds n : ℕ) (after : List ℕ)
    → n < 10 ^ rounds
    → read_digits 10 0 (digits rounds n after) ≡ read_digits 10 n after
unfolding digits
read_digits-digits zero n after small =
    let nothing : n ≡ 0 = omega (arith, small) in rw nothing refl
read_digits-digits (suc rounds) n after small =
    let last_digit = read_digit (n / 10) (n % 10) after (omega arith) in
    let whole : n / 10 * 10 + n % 10 ≡ n = omega arith in
    elim (Bool-cases (ltb n 10)) [
      | inl last ↦
          let first = read_digit 0 (n % 10) after (omega arith) in
          let same : 0 * 10 + n % 10 ≡ n = omega (arith, ltb→lt n 10 last) in
          rw last (first ∙ ap (λ k. read_digits 10 k after) same)
      | inr more ↦ rw more (
          read_digits-digits rounds (n / 10) ((48 + n % 10) ∷ after) (omega (arith, small))
          ∙ last_digit
          ∙ ap (λ k. read_digits 10 k after) whole)
    ]

digits-IsDigit :
    (rounds n : ℕ) (after : List ℕ) → All IsDigit after → All IsDigit (digits rounds n after)
unfolding digits
digits-IsDigit zero n after all = all
digits-IsDigit (suc rounds) n after all =
    let first : IsDigit (48 + n % 10) = (omega arith, omega arith) in
    elim (Bool-cases (ltb n 10)) [
      | inl last ↦ rw last (first, all)
      | inr more ↦ rw more (digits-IsDigit rounds (n / 10) ((48 + n % 10) ∷ after) (first, all))
    ]

pub decimal-IsDigit : (n : ℕ) → All IsDigit (decimal n)
unfolding decimal
decimal-IsDigit n = digits-IsDigit 10 n [] tt

-- There is a first digit.
digits_first :
    (rounds n c : ℕ) (after : List ℕ)
    → (d : ℕ) × ((ds : List ℕ) × (digits rounds n (c ∷ after) ≡ d ∷ ds))
unfolding digits
digits_first zero n c after = (c, (after, refl))
digits_first (suc rounds) n c after = elim (Bool-cases (ltb n 10)) [
  | inl last ↦ rw last (48 + n % 10, (c ∷ after, refl))
  | inr more ↦ rw more (digits_first rounds (n / 10) (48 + n % 10) (c ∷ after))
]

pub decimal_first : (n : ℕ) → (d : ℕ) × ((ds : List ℕ) × (decimal n ≡ d ∷ ds))
unfolding decimal digits
decimal_first n = elim (Bool-cases (ltb n 10)) [
  | inl last ↦ rw last (48 + n % 10, ([], refl))
  | inr more ↦ rw more (digits_first 9 (n / 10) (48 + n % 10) [])
]

skip_space-digit : (d : ℕ) (ds : List ℕ) → IsDigit d → skip_space (d ∷ ds) ≡ d ∷ ds
unfolding skip_space is_space
skip_space-digit d ds (low, high) = ground arith

read_sign-digit : (d : ℕ) (ds : List ℕ) → IsDigit d → read_sign (d ∷ ds) ≡ (false, d ∷ ds)
unfolding read_sign
read_sign-digit d ds (low, high) = ground arith

is_digit-digit : (d : ℕ) → IsDigit d → is_digit 10 d ≡ true
unfolding is_digit digit_value
is_digit-digit d (low, high) = ground arith

stoul-digits :
    (d : ℕ) (ds : List ℕ)
    → IsDigit d
    → read_digits 10 0 (d ∷ ds) < 2 ^ 32
    → stoul 10 (d ∷ ds) ≡ some (read_digits 10 0 (d ∷ ds))
unfolding stoul
stoul-digits d ds digit small =
    let fits : read_digits 10 0 (d ∷ ds) < 2 ^ 64 = omega (arith, small) in
    rw
      (
        skip_space-digit d ds digit,
        read_sign-digit d ds digit,
        is_digit-digit d digit,
        lt→ltb _ _ fits,
      )
      refl

-- A number that starts with a digit and has no x is read as its digits say.
parse_digits :
    (d : ℕ) (ds : List ℕ)
    → All IsDigit (d ∷ ds)
    → read_digits 10 0 (d ∷ ds) < 2 ^ 32
    → parse_uint32 (d ∷ ds) ≡ some (read_digits 10 0 (d ∷ ds))
unfolding parse_uint32 is_hex
parse_digits d [] (first, all) small = ground (arith, stoul-digits d [] first small)
parse_digits d (e ∷ []) (first, all) small = ground (arith, stoul-digits d (e ∷ []) first small)
parse_digits d (e ∷ (f ∷ ds)) (first, (second, all)) small =
    ground (arith, stoul-digits d (e ∷ (f ∷ ds)) first small)

nothing_left : (n : ℕ) → read_digits 10 n [] ≡ n
unfolding read_digits
nothing_left n = refl

-- Every 32-bit number that is written in decimal is read back.
pub parse_uint32-decimal : (n : ℕ) → IsU32 n → parse_uint32 (decimal n) ≡ some n
unfolding decimal
parse_uint32-decimal n small =
    let (d, (ds, same)) = decimal_first n in
    let value : read_digits 10 0 (decimal n) ≡ n =
      read_digits-digits 10 n [] (omega (arith, small)) ∙ nothing_left n in
    let read = parse_digits d ds (rw same at (decimal-IsDigit n)) (rw (← same) (rw value small)) in
    rw same (read ∙ ap some (rw same at value))
