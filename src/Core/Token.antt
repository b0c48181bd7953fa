-- ===== src/Core/Token.antt =====
-- The client token: `load_token` of crates/litevpn-core/src/config.rs and the token that
-- crates/litevpn-keygen/src/main.rs writes. Random bytes and their hexadecimal print are parameters.
use rust_vpn.Prelude.{
  ℕ, ◌≤◌, ◌≡◌, refl, true, [], ◌∷◌, ◌++◌, Option, none, some, Result, ok, err, context, bail_if,
  ◌>>=◌, ◌>>◌, arith, ltb, All, length, Bool-cases, inl, inr, subst, ap, ◌∙◌, if◌then◌else◌,
}
use rust_vpn.Core.Config.{ConfigError, read_failed, token_too_short}
use rust_vpn.Text.{Text, chars, newline, trim, trim_start, trim_end, is_whitespace, Solid}
use rust_vpn.Text.Utf8.{as_bytes, IsAscii, as_bytes-ascii}

-- `load_token`: the argument is what `fs::read_to_string` answers, `none` for an error.
unfoldable pub load_token : Option Text → Result ConfigError Text
load_token file = do
  raw ← context file read_failed
  let token = trim raw
  bail_if (ltb (length (as_bytes token)) 32) token_too_short
  ok token

-- White space only.
abbrev pub Blank : Text → Type 0
Blank = All (λ c. is_whitespace c ≡ true)

trim_start_split : (s : Text) → (b : Text) × (s ≡ b ++ trim_start s) × Blank b
unfolding trim_start
trim_start_split [] = ([], refl, tt)
trim_start_split (c ∷ s) = elim (Bool-cases (is_whitespace c)) [
  | inl e ↦
      let (b, split, blank) = trim_start_split s in
      (c ∷ b, rw e (ap (λ (t : Text). c ∷ t) split), (e, blank))
  | inr e ↦ ([], rw e, tt)
]

trim_end_split : (s : Text) → (b : Text) × (s ≡ trim_end s ++ b) × Blank b
unfolding trim_end
trim_end_split [] = ([], refl, tt)
trim_end_split (c ∷ s) = step (trim_end s) (trim_end_split s)
  where
    step :
        (t : Text)
        → ((b : Text) × (s ≡ t ++ b) × Blank b)
        → (b : Text) × (c ∷ s
            ≡ (elim t [ [] ↦ if is_whitespace c then [] else c ∷ [] | d ∷ u ↦ c ∷ d ∷ u ]) ++ b)
          × Blank b
    step [] (b, split, blank) = elim (Bool-cases (is_whitespace c)) [
      | inl e ↦ (c ∷ b, rw e (ap (λ (t : Text). c ∷ t) split), (e, blank))
      | inr e ↦ (b, rw e (ap (λ (t : Text). c ∷ t) split), blank)
    ]
    step (d ∷ u) (b, split, blank) = (b, ap (λ (t : Text). c ∷ t) split, blank)

-- What `load_token` answers: the file's text less white space at both ends, 32 bytes or more.
pub record Loaded (file : Option Text) (token : Text) : Type 0 where
  pub before : Text
  pub after : Text
  pub read : file ≡ some (before ++ (token ++ after))
  pub blank_before : Blank before
  pub blank_after : Blank after
  pub long_enough : 32 ≤ length (as_bytes token)

load_trimmed : (raw : Text) → 32 ≤ length (as_bytes (trim raw)) → Loaded (some raw) (trim raw)
unfolding trim
load_trimmed raw h =
    let (b, front, blank_front) = trim_start_split raw in
    let (e, back, blank_back) = trim_end_split (trim_start raw) in
    record {
      before = b;
      after = e;
      read = ap some (front ∙ ap (λ (t : Text). b ++ t) back);
      blank_before = blank_front;
      blank_after = blank_back;
      long_enough = h;
    }

-- A token that `load_token` returns is what the file holds between white space, and has 32 bytes.
pub load_token-Loaded :
    (file : Option Text) (token : Text) → load_token file ≡ ok token → Loaded file token
unfolding load_token
load_token-Loaded none token h = cc
load_token-Loaded (some raw) token h = elim (Bool-cases (ltb (length (as_bytes (trim raw))) 32)) [
  | inl e ↦ absurd (ground arith)
  | inr e ↦
      let same : trim raw ≡ token = ground arith in
      subst (Loaded (some raw)) same (load_trimmed raw (ground arith))
]

trim_end-Blank : (e : Text) → Blank e → trim_end e ≡ []
unfolding trim_end
trim_end-Blank [] h = refl
trim_end-Blank (c ∷ e) h = ground (arith, trim_end-Blank e h.1)

trim_end-cons : (c d : ℕ) (s t : Text) → trim_end s ≡ d ∷ t → trim_end (c ∷ s) ≡ c ∷ d ∷ t
unfolding trim_end
trim_end-cons c d s t h = rw (h, trim_end)

trim_end-Solid : (s e : Text) → Solid s → Blank e → trim_end (s ++ e) ≡ s
trim_end-Solid [] e hs he = trim_end-Blank e he
trim_end-Solid (c ∷ []) e hs he = unfold trim_end in ground (arith, trim_end-Blank e he)
trim_end-Solid (c ∷ d ∷ s) e hs he =
    trim_end-cons c d (d ∷ s ++ e) s (trim_end-Solid (d ∷ s) e hs.1 he)

trim_start-Blank : (e : Text) → Blank e → trim_start e ≡ []
unfolding trim_start
trim_start-Blank [] h = refl
trim_start-Blank (c ∷ e) h = ground (arith, trim_start-Blank e h.1)

trim_start-Solid :
    (s e : Text) → Solid s → Blank e → trim_end (trim_start (s ++ e)) ≡ trim_end (s ++ e)
trim_start-Solid [] e hs he = rw (trim_start-Blank e he, trim_end-Blank e he) (trim_end-Blank [] tt)
trim_start-Solid (c ∷ s) e hs he = unfold trim_start in ground arith

-- White space behind a text that holds none is what `trim` takes off.
pub trim-Solid : (s e : Text) → Solid s → Blank e → trim (s ++ e) ≡ s
unfolding trim
trim-Solid s e hs he = trim_start-Solid s e hs he ∙ trim_end-Solid s e hs he

pub newline-Blank : Blank (newline ∷ [])
unfolding is_whitespace
newline-Blank = (refl, tt)

-- A file of one unbroken ASCII text and a newline loads as that text, if it has 32 characters.
pub load_token-line :
    (s : Text)
    → Solid s
    → All IsAscii s
    → load_token (some (s ++ newline ∷ []))
      ≡ (if ltb (length s) 32 then err token_too_short else ok s)
unfolding load_token
load_token-line s hs ascii =
    rw (trim-Solid s (newline ∷ []) hs newline-Blank, as_bytes-ascii s ascii) (ground arith)

load_token_tests :
    (load_token (some (chars " 0123456789abcdef0123456789abcdef\n"))
      ≡ ok (chars "0123456789abcdef0123456789abcdef"))
    × (load_token (some (chars "short")) ≡ err token_too_short)
unfolding load_token trim as_bytes
load_token_tests = (refl, refl)
