-- ===== src/Text.antt =====
-- The text functions of Rust's standard library that the program calls. A `&str` is the list of its
-- characters (Unicode scalar values); `Text/Utf8` goes between these and bytes.
pub mod Utf8
pub mod Number
pub mod Words
pub mod Lines
use Prim.Native.Char.{code}
use Prim.Native.String.{String}
use rust_vpn.Prelude.{
  ℕ, ◌≡◌, refl, Bool, true, false, ◌||◌, ◌&&◌, List, [], ◌∷◌, ◌++◌, Option, none, some, arith, leb,
  ◌==◌, if◌then◌else◌, All,
}

abbrev pub Text : Type 0
Text = List ℕ

-- The characters of a literal.
abbrev pub chars : String → Text
chars String.[] = []
chars (String.◌∷◌ c s) = code c ∷ chars s

abbrev pub newline : ℕ
newline = b'\n'

abbrev pub carriage_return : ℕ
carriage_return = 13

-- `char::is_whitespace`, the Unicode property White_Space.
unfoldable pub is_whitespace : ℕ → Bool
is_whitespace c =
    (leb 9 c && leb c 13)
    || (c == 32
        || (c == 0x85
            || (c == 0xa0
                || (c == 0x1680
                    || ((leb 0x2000 c && leb c 0x200a)
                        || ((leb 0x2028 c && leb c 0x2029)
                            || (c == 0x202f || (c == 0x205f || c == 0x3000))))))))

-- `s.strip_prefix(p)`
unfoldable pub strip_prefix : Text → Text → Option Text
strip_prefix [] s = some s
strip_prefix (p ∷ ps) [] = none
strip_prefix (p ∷ ps) (c ∷ s) = if p == c then strip_prefix ps s else none

-- `s.strip_suffix(c)` for a character `c`
unfoldable pub strip_suffix : ℕ → Text → Option Text
strip_suffix e [] = none
strip_suffix e (c ∷ []) = if c == e then some [] else none
strip_suffix e (c ∷ d ∷ s) = elim (strip_suffix e (d ∷ s)) [ none ↦ none | some t ↦ some (c ∷ t) ]

unfoldable pub trim_start : Text → Text
trim_start [] = []
trim_start (c ∷ s) = if is_whitespace c then trim_start s else c ∷ s

unfoldable pub trim_end : Text → Text
trim_end [] = []
trim_end (c ∷ s) = elim (trim_end s) [
  | [] ↦ if is_whitespace c then [] else c ∷ []
  | d ∷ t ↦ c ∷ d ∷ t
]

-- `s.trim()`
unfoldable pub trim : Text → Text
unfolding trim_start trim_end is_whitespace
trim s = trim_end (trim_start s)

abbrev pub is_empty {ℓ} : {A : Type ℓ} → List A → Bool
is_empty [] = true
is_empty (x ∷ xs) = false

-- No white space in the text.
abbrev pub Solid : Text → Type 0
Solid = All (λ c. is_whitespace c ≡ false)

abbrev pub IsDigit : ℕ → Type 0
IsDigit c = (leb b'0' c ≡ true) × (leb c b'9' ≡ true)

pub strip_prefix-append : (p s : Text) → strip_prefix p (p ++ s) ≡ some s
unfolding strip_prefix
strip_prefix-append [] s = refl
strip_prefix-append (c ∷ p) s = ground (arith, strip_prefix-append p s)

pub strip_suffix-append : (e : ℕ) (s : Text) → strip_suffix e (s ++ e ∷ []) ≡ some s
unfolding strip_suffix
strip_suffix-append e [] = ground arith
strip_suffix-append e (c ∷ []) = ground arith
strip_suffix-append e (c ∷ d ∷ s) = ground (arith, strip_suffix-append e (d ∷ s))

pub digit_solid : (c : ℕ) → IsDigit c → is_whitespace c ≡ false
unfolding is_whitespace
digit_solid c h = ground arith

pub Solid-digits : (s : Text) → All IsDigit s → Solid s
Solid-digits [] h = tt
Solid-digits (c ∷ s) h = (digit_solid c h.0, Solid-digits s h.1)
