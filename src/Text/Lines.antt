-- ===== src/Text/Lines.antt =====
-- `str::lines`.
use rust_vpn.Prelude.{
  ◌≡◌, refl, ◌≢◌, true, false, List, [], ◌∷◌, ◌++◌, append_assoc, append-nil, ap, ◌∙◌, arith, none,
  some, ◌==◌, All, All-append, Bool, Option, subst, Option-cases, inl, inr,
}
use rust_vpn.Text.{Text, chars, newline, carriage_return, strip_suffix}

-- A line that a newline ends loses one carriage return too.
strip_return : Text → Text
unfolding strip_suffix
strip_return l = elim (strip_suffix carriage_return l) [ none ↦ l | some t ↦ t ]

-- What follows the last newline is a line unless it is empty.
last_line : Text → List Text
last_line [] = []
last_line (c ∷ line) = (c ∷ line) ∷ []

lines_from : Text → Text → List Text
lines_from line [] = last_line line
lines_from line (c ∷ s) = elim (c == newline) [
  | true ↦ strip_return line ∷ lines_from [] s
  | false ↦ lines_from (line ++ c ∷ []) s
]

-- `s.lines()`
unfoldable pub lines : Text → List Text
unfolding lines_from strip_return last_line
lines s = lines_from [] s

-- No line break in the text.
abbrev pub OneLine : Text → Type 0
OneLine = All (λ c. (c ≢ newline) × (c ≢ carriage_return))

lines_from-append :
    (l line s : Text) → OneLine l → lines_from line (l ++ s) ≡ lines_from (line ++ l) s
unfolding lines_from
lines_from-append [] line s h = rw append-nil
lines_from-append (c ∷ l) line s h =
    ground (arith, lines_from-append l (line ++ c ∷ []) s h.1, append_assoc line (c ∷ []) l)

strip_suffix-OneLine : (l : Text) → OneLine l → strip_suffix carriage_return l ≡ none
unfolding strip_suffix
strip_suffix-OneLine [] h = refl
strip_suffix-OneLine (c ∷ []) h = ground arith
strip_suffix-OneLine (c ∷ d ∷ l) h = ground (arith, strip_suffix-OneLine (d ∷ l) h.1)

strip_return-OneLine : (l : Text) → OneLine l → strip_return l ≡ l
unfolding strip_return
strip_return-OneLine l h = ground (arith, strip_suffix-OneLine l h)

-- One line with no break at its end.
pub lines-single : (l : Text) → l ≢ [] → OneLine l → lines l ≡ l ∷ []
unfolding lines
lines-single [] e h = absurd (e refl)
lines-single (c ∷ l) e h = ground (arith, lines_from-append (c ∷ l) [] [] h, append-nil (c ∷ l))

lines_from_break :
    (line s : Text) → lines_from line (newline ∷ s) ≡ strip_return line ∷ lines_from [] s
unfolding lines_from
lines_from_break line s = refl

-- A line, a newline, and the lines of the rest.
pub lines-break : (l s : Text) → OneLine l → lines (l ++ newline ∷ s) ≡ l ∷ lines s
unfolding lines
lines-break l s h =
    lines_from-append l [] (newline ∷ s) h
    ∙ lines_from_break l s
    ∙ ap (λ (r : Text). r ∷ lines_from [] s) (strip_return-OneLine l h)

abbrev pub NoNewline : Text → Type 0
NoNewline = All (λ c. c ≢ newline)

strip_suffix-NoNewline :
    (l t : Text) → strip_suffix carriage_return l ≡ some t → NoNewline l → NoNewline t
unfolding strip_suffix
strip_suffix-NoNewline [] t e h = absurd (ground arith)
strip_suffix-NoNewline (c ∷ []) [] e h = tt
strip_suffix-NoNewline (c ∷ []) (d ∷ t) e h = absurd (ground arith)
strip_suffix-NoNewline (c ∷ d ∷ l) t e h =
    elim (Option-cases (strip_suffix carriage_return (d ∷ l))) [
      | inl none_left ↦ absurd (ground arith)
      | inr (u, left) ↦
          let same : c ∷ u ≡ t = ground arith in
          subst NoNewline same (h.0, strip_suffix-NoNewline (d ∷ l) u left h.1)
    ]

strip_return-NoNewline : (l : Text) → NoNewline l → NoNewline (strip_return l)
unfolding strip_return
strip_return-NoNewline l h = cases (strip_suffix carriage_return l) refl
  where
    cases :
        (o : Option Text)
        → strip_suffix carriage_return l ≡ o
        → NoNewline (elim o [ none ↦ l | some t ↦ t ])
    cases none e = h
    cases (some t) e = strip_suffix-NoNewline l t e h

lines_from-NoNewline : (line s : Text) → NoNewline line → All NoNewline (lines_from line s)
unfolding lines_from last_line
lines_from-NoNewline [] [] h = tt
lines_from-NoNewline (c ∷ line) [] h = (h, tt)
lines_from-NoNewline line (c ∷ s) h =
    cases (c == newline) refl (lines_from-NoNewline [] s tt)
      (lines_from-NoNewline (line ++ c ∷ []) s)
  where
    cases :
        (b : Bool)
        → (c == newline) ≡ b
        → All NoNewline (lines_from [] s)
        → (NoNewline (line ++ c ∷ []) → All NoNewline (lines_from (line ++ c ∷ []) s))
        → All NoNewline (elim b [
          | true ↦ strip_return line ∷ lines_from [] s
          | false ↦ lines_from (line ++ c ∷ []) s
        ])
    cases true e next more = (strip_return-NoNewline line h, next)
    cases false e next more = more (All-append _ line (c ∷ []) h ((λ same. ground arith), tt))

-- No line holds its break.
pub lines-NoNewline : (s : Text) → All NoNewline (lines s)
unfolding lines
lines-NoNewline s = lines_from-NoNewline [] s tt

lines_test :
    lines (chars "ab" ++ carriage_return ∷ newline ∷ newline ∷ chars "c" ++ carriage_return ∷ [])
    ≡ chars "ab" ∷ [] ∷ (chars "c" ++ carriage_return ∷ []) ∷ []
unfolding lines
lines_test = refl
