-- ===== src/Text/Utf8.antt =====
-- `str::as_bytes` and `std::str::from_utf8`.
use mathlib.Core.Option
use rust_vpn.Prelude.{
  ℕ, zero, suc, ◌+◌, ◌-◌, ◌*◌, ◌/◌, ◌%◌, ◌≤◌, ◌<◌, ◌⊎◌, ◌≡◌, refl, true, false, ◌&&◌, List, [], ◌∷◌,
  ◌++◌, append_assoc, Option, none, some, arith, leb, ltb, ◌==◌, if◌then◌else◌, All, ap, ◌∙◌,
}
use rust_vpn.Text.{Text, chars}

abbrev pub Bytes : Type 0
Bytes = List ℕ

-- A Unicode scalar value, what a `char` may hold.
abbrev pub IsChar : ℕ → Type 0
IsChar c = (c < 0xd800) ⊎ ((0xe000 ≤ c) × (c < 0x110000))

encode_char : ℕ → Bytes
encode_char c =
    if ltb c 0x80
    then c ∷ []
    else if ltb c 0x800
    then (0xc0 + c / 64) ∷ (0x80 + c % 64) ∷ []
    else if ltb c 0x10000
    then (0xe0 + c / 4096) ∷ (0x80 + c / 64 % 64) ∷ (0x80 + c % 64) ∷ []
    else (0xf0 + c / 262144) ∷ (0x80 + c / 4096 % 64) ∷ (0x80 + c / 64 % 64) ∷ (0x80 + c % 64) ∷ []

-- `s.as_bytes()`
unfoldable pub as_bytes : Text → Bytes
unfolding encode_char
as_bytes [] = []
as_bytes (c ∷ s) = encode_char c ++ as_bytes s

-- What a byte at the start of a character says: the bytes that follow, the range of the first of
-- them, and the top bits.
pub data Lead : Type 0 where
  ascii invalid : Lead
  start : ℕ → ℕ → ℕ → ℕ → Lead

lead : ℕ → Lead
lead b =
    if ltb b 0x80
    then ascii
    else if ltb b 0xc2
    then invalid
    else if ltb b 0xe0
    then start 1 0x80 0xbf (b - 0xc0)
    else if ltb b 0xf0
    then start 2 (if b == 0xe0 then 0xa0 else 0x80) (if b == 0xed then 0x9f else 0xbf) (b - 0xe0)
    else if ltb b 0xf5
    then start 3 (if b == 0xf0 then 0x90 else 0x80) (if b == 0xf4 then 0x8f else 0xbf) (b - 0xf0)
    else invalid

decode : ℕ → ℕ → ℕ → ℕ → Bytes → Option Text
decode zero lo hi top [] = some []
decode (suc n) lo hi top [] = none
decode zero lo hi top (b ∷ s) = elim (lead b) [
  | ascii ↦ Option.map (λ t. b ∷ t) (decode 0 0 0 0 s)
  | invalid ↦ none
  | start n lo' hi' bits ↦ decode n lo' hi' bits s
]
decode (suc zero) lo hi top (b ∷ s) = elim (leb lo b && leb b hi) [
  | true ↦ Option.map (λ t. (top * 64 + (b - 0x80)) ∷ t) (decode 0 0 0 0 s)
  | false ↦ none
]
decode (suc (suc n)) lo hi top (b ∷ s) = elim (leb lo b && leb b hi) [
  | true ↦ decode (suc n) 0x80 0xbf (top * 64 + (b - 0x80)) s
  | false ↦ none
]

-- `std::str::from_utf8(bytes)`
unfoldable pub from_utf8 : Bytes → Option Text
unfolding decode lead
from_utf8 s = decode 0 0 0 0 s

from_utf8-one :
    (c : ℕ) (s : Bytes) → c < 0x80 → from_utf8 (c ∷ s) ≡ Option.map (λ t. c ∷ t) (from_utf8 s)
unfolding from_utf8
from_utf8-one c s h = ground arith

lead-two : (h : ℕ) → 2 ≤ h → h < 32 → lead (0xc0 + h) ≡ start 1 0x80 0xbf h
unfolding lead
lead-two h a b = ground arith

abbrev low3 : ℕ → ℕ
low3 h = if h == 0 then 0xa0 else 0x80

abbrev high3 : ℕ → ℕ
high3 h = if h == 13 then 0x9f else 0xbf

lead-three : (h : ℕ) → h < 16 → lead (0xe0 + h) ≡ start 2 (low3 h) (high3 h) h
unfolding lead
lead-three h a = ground arith

abbrev low4 : ℕ → ℕ
low4 h = if h == 0 then 0x90 else 0x80

abbrev high4 : ℕ → ℕ
high4 h = if h == 4 then 0x8f else 0xbf

lead-four : (h : ℕ) → h < 5 → lead (0xf0 + h) ≡ start 3 (low4 h) (high4 h) h
unfolding lead
lead-four h a = ground arith

decode-start :
    (b n lo hi bits : ℕ) (s : Bytes)
    → lead b ≡ start n lo hi bits
    → from_utf8 (b ∷ s) ≡ decode n lo hi bits s
unfolding from_utf8
decode-start b n lo hi bits s e = unfold decode in ground arith

decode_middle :
    (n lo hi top m : ℕ) (s : Bytes)
    → lo ≤ 0x80 + m
    → 0x80 + m ≤ hi
    → decode (suc (suc n)) lo hi top ((0x80 + m) ∷ s) ≡ decode (suc n) 0x80 0xbf (top * 64 + m) s
unfolding decode
decode_middle n lo hi top m s a b = ground arith

decode_accept :
    (lo hi top b : ℕ) (s : Bytes)
    → (leb lo b && leb b hi) ≡ true
    → decode 1 lo hi top (b ∷ s) ≡ Option.map (λ t. (top * 64 + (b - 0x80)) ∷ t) (decode 0 0 0 0 s)
unfolding decode
decode_accept lo hi top b s e = rw (e, decode)

decode_last :
    (lo hi top m : ℕ) (s : Bytes)
    → lo ≤ 0x80 + m
    → 0x80 + m ≤ hi
    → decode 1 lo hi top ((0x80 + m) ∷ s) ≡ Option.map (λ t. (top * 64 + m) ∷ t) (from_utf8 s)
unfolding from_utf8
decode_last lo hi top m s a b =
    decode_accept lo hi top (0x80 + m) s (ground arith)
    ∙ ap (λ (k : ℕ). Option.map (λ t. (top * 64 + k) ∷ t) (from_utf8 s)) (omega arith)

from_utf8-two :
    (h l : ℕ) (s : Bytes)
    → 2 ≤ h
    → h < 32
    → l < 64
    → from_utf8 ((0xc0 + h) ∷ (0x80 + l) ∷ s) ≡ Option.map (λ t. (h * 64 + l) ∷ t) (from_utf8 s)
from_utf8-two h l s a b d =
    decode-start _ _ _ _ _ _ (lead-two h a b)
    ∙ decode_last 0x80 0xbf h l s (omega arith) (omega arith)

from_utf8-three :
    (h m l : ℕ) (s : Bytes)
    → h < 16
    → m < 64
    → l < 64
    → 32 ≤ h * 64 + m
    → (h * 64 + m < 864) ⊎ (896 ≤ h * 64 + m)
    → from_utf8 ((0xe0 + h) ∷ (0x80 + m) ∷ (0x80 + l) ∷ s)
      ≡ Option.map (λ t. ((h * 64 + m) * 64 + l) ∷ t) (from_utf8 s)
from_utf8-three h m l s a b d e f =
    decode-start _ _ _ _ _ _ (lead-three h a)
    ∙ decode_middle 0 (low3 h) (high3 h) h m _ (ground arith) (ground arith)
    ∙ decode_last 0x80 0xbf (h * 64 + m) l s (omega arith) (omega arith)

from_utf8-four :
    (h m k l : ℕ) (s : Bytes)
    → h < 5
    → m < 64
    → k < 64
    → l < 64
    → 16 ≤ h * 64 + m
    → h * 64 + m < 272
    → from_utf8 ((0xf0 + h) ∷ (0x80 + m) ∷ (0x80 + k) ∷ (0x80 + l) ∷ s)
      ≡ Option.map (λ t. (((h * 64 + m) * 64 + k) * 64 + l) ∷ t) (from_utf8 s)
from_utf8-four h m k l s a b d e f g =
    decode-start _ _ _ _ _ _ (lead-four h a)
    ∙ decode_middle 1 (low4 h) (high4 h) h m _ (ground arith) (ground arith)
    ∙ decode_middle 0 0x80 0xbf (h * 64 + m) k _ (omega arith) (omega arith)
    ∙ decode_last 0x80 0xbf ((h * 64 + m) * 64 + k) l s (omega arith) (omega arith)

decode-encode_char :
    (c : ℕ) (s : Bytes)
    → IsChar c
    → from_utf8 (encode_char c ++ s) ≡ Option.map (λ t. c ∷ t) (from_utf8 s)
unfolding encode_char
decode-encode_char c s h = ground (
  arith,
  from_utf8-one c s,
  from_utf8-two (c / 64) (c % 64) s,
  from_utf8-three (c / 4096) (c / 64 % 64) (c % 64) s,
  from_utf8-four (c / 262144) (c / 4096 % 64) (c / 64 % 64) (c % 64) s,
)

-- Text survives the way to bytes and back.
pub from_utf8-as_bytes : (s : Text) → All IsChar s → from_utf8 (as_bytes s) ≡ some s
unfolding as_bytes
from_utf8-as_bytes [] h = unfold from_utf8 in refl
from_utf8-as_bytes (c ∷ s) h =
    ground (arith, decode-encode_char c (as_bytes s) h.0, from_utf8-as_bytes s h.1)

pub as_bytes-append : (s t : Text) → as_bytes (s ++ t) ≡ as_bytes s ++ as_bytes t
unfolding as_bytes
as_bytes-append [] t = refl
as_bytes-append (c ∷ s) t =
    ground (arith, as_bytes-append s t, append_assoc (encode_char c) (as_bytes s) (as_bytes t))

abbrev pub IsAscii : ℕ → Type 0
IsAscii c = c < 0x80

-- ASCII text is its own bytes.
pub as_bytes-ascii : (s : Text) → All IsAscii s → as_bytes s ≡ s
unfolding as_bytes
as_bytes-ascii [] h = refl
as_bytes-ascii (c ∷ s) h = ground (arith, as_bytes-ascii s h.1)

utf8_tests :
    (from_utf8 (as_bytes (chars "aé€😀")) ≡ some (chars "aé€😀"))
    × (from_utf8 (0xc0 ∷ 0x80 ∷ []) ≡ none)
    × (from_utf8 (0xed ∷ 0xa0 ∷ 0x80 ∷ []) ≡ none)
    × (from_utf8 (0xe2 ∷ 0x82 ∷ []) ≡ none)
unfolding from_utf8 as_bytes
utf8_tests = (refl, refl, refl, refl)
