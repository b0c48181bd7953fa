-- ===== src/Text/Number.antt =====
-- `u64::from_str`, which is `usize::from_str` on a 64-bit target, and `Display` of unsigned numbers.
use native.Mathlib.Nat.{pow-suc}
use rust_vpn.Prelude.{
  ℕ, zero, suc, ◌+◌, ◌-◌, ◌*◌, ◌/◌, ◌%◌, ◌^◌, ◌≤◌, ◌<◌, ◌≡◌, refl, ◌≢◌, [], ◌∷◌, Option, none, some,
  ◌||◌, Bool-cases, inl, inr, arith, ltb, ◌==◌, if◌then◌else◌, All, length,
}
use rust_vpn.Text.{Text, chars, IsDigit}

abbrev pub max_u64 : ℕ
max_u64 = 2 ^ 64 - 1

-- One digit at a time with `checked_mul` and `checked_add`.
read_digits : Text → ℕ → Option ℕ
read_digits [] n = some n
read_digits (c ∷ s) n =
    if ltb c b'0' || ltb b'9' c
    then none
    else if ltb max_u64 (n * 10 + (c - b'0'))
    then none
    else read_digits s (n * 10 + (c - b'0'))

-- A leading `+` is allowed before at least one digit.
unfoldable pub parse_u64 : Text → Option ℕ
unfolding read_digits
parse_u64 [] = none
parse_u64 (c ∷ []) = read_digits (c ∷ []) 0
parse_u64 (c ∷ d ∷ s) = if c == b'+' then read_digits (d ∷ s) 0 else read_digits (c ∷ d ∷ s) 0

-- The buffer holds 40 digits, more than a `u128` has.
abbrev pub display_digits : ℕ
display_digits = 40

spell : ℕ → ℕ → Text → Text
spell zero n out = out
spell (suc f) n out =
    let rest = spell f (n / 10) ((b'0' + n % 10) ∷ out) in if n == 0 then out else rest

unfoldable pub display : ℕ → Text
unfolding spell
display n = if n == 0 then b'0' ∷ [] else spell display_digits n []

last_digit :
    (n : ℕ) (out : Text)
    → n ≤ max_u64
    → read_digits ((b'0' + n % 10) ∷ out) (n / 10) ≡ read_digits out n
unfolding read_digits
last_digit n out h = ground arith

read_digits-spell :
    (f n : ℕ) (out : Text)
    → n < 10 ^ f
    → n ≤ max_u64
    → read_digits (spell f n out) 0 ≡ read_digits out n
unfolding spell
read_digits-spell zero n out h fits = let e : n ≡ 0 = omega arith in ground arith
read_digits-spell (suc f) n out h fits = ground (
  arith,
  pow-suc 10 f,
  read_digits-spell f (n / 10) ((b'0' + n % 10) ∷ out),
  last_digit n out fits,
)

spell-digits : (f n : ℕ) (out : Text) → All IsDigit out → All IsDigit (spell f n out)
unfolding spell
spell-digits zero n out h = h
spell-digits (suc f) n out h = ground (arith, spell-digits f (n / 10) ((b'0' + n % 10) ∷ out))

pub display-digits : (n : ℕ) → All IsDigit (display n)
unfolding display
display-digits n = ground (arith, spell-digits display_digits n [] tt)

spell-ne-nil : (f n : ℕ) (out : Text) → out ≢ [] → spell f n out ≢ []
unfolding spell
spell-ne-nil zero n out h = h
spell-ne-nil (suc f) n out h =
    ground (arith, spell-ne-nil f (n / 10) ((b'0' + n % 10) ∷ out) (λ e. cc))

pub display-ne-nil : (n : ℕ) → display n ≢ []
unfolding display
display-ne-nil n = ground (arith, spell-ne-nil 39 (n / 10) ((b'0' + n % 10) ∷ []) (λ e. cc))

parse-digits : (s : Text) → s ≢ [] → All IsDigit s → parse_u64 s ≡ read_digits s 0
unfolding parse_u64
parse-digits [] h d = absurd (h refl)
parse-digits (c ∷ []) h d = refl
parse-digits (c ∷ e ∷ s) h d = ground arith

-- Every `u64` is read back from its print.
pub parse_u64-display : (n : ℕ) → n ≤ max_u64 → parse_u64 (display n) ≡ some n
parse_u64-display n h =
    rw (parse-digits (display n) (display-ne-nil n) (display-digits n)) (read_digits-display n h)
  where
    read_digits-display : (n : ℕ) → n ≤ max_u64 → read_digits (display n) 0 ≡ some n
    read_digits-display n h =
        unfold display read_digits in ground (arith, read_digits-spell 40 n [] (omega arith) h)

length-spell : (d f n : ℕ) (out : Text) → n < 10 ^ d → length (spell f n out) ≤ d + length out
unfolding spell
length-spell d zero n out h = omega arith
length-spell zero (suc f) n out h = let e : n ≡ 0 = omega arith in ground arith
length-spell (suc d) (suc f) n out h =
    ground (arith, pow-suc 10 d, length-spell d f (n / 10) ((b'0' + n % 10) ∷ out))

-- A `u64` prints with 20 digits at most.
pub length-display : (n : ℕ) → n ≤ max_u64 → length (display n) ≤ 20
unfolding display
length-display n h = ground (arith, length-spell 20 40 n [] (omega arith))

read_digits-le : (s : Text) (n r : ℕ) → n ≤ max_u64 → read_digits s n ≡ some r → r ≤ max_u64
unfolding read_digits
read_digits-le [] n r fits h = ground arith
read_digits-le (c ∷ s) n r fits h = ground (arith, read_digits-le s (n * 10 + (c - b'0')) r)

-- A parsed number fits in 64 bits.
pub parse_u64-le : (s : Text) {r : ℕ} → parse_u64 s ≡ some r → r ≤ max_u64
unfolding parse_u64
parse_u64-le [] h = cc
parse_u64-le (c ∷ []) {r} h = read_digits-le (c ∷ []) 0 r (omega arith) h
parse_u64-le (c ∷ d ∷ s) {r} h = elim (Bool-cases (c == b'+')) [
  | inl e ↦ read_digits-le (d ∷ s) 0 r (omega arith) (rw e at h)
  | inr e ↦ read_digits-le (c ∷ d ∷ s) 0 r (omega arith) (rw e at h)
]

parse_u64_tests :
    (parse_u64 (chars "+7") ≡ some 7)
    × (parse_u64 (chars "+") ≡ none)
    × (parse_u64 [] ≡ none)
    × (parse_u64 (chars "18446744073709551616") ≡ none)
    × (display 18446744073709551615 ≡ chars "18446744073709551615")
unfolding parse_u64 display
parse_u64_tests = (refl, refl, refl, refl, refl)
