-- ===== src/Text/Words/Trim.antt =====
-- `trim` and `split_whitespace` together.
use rust_vpn.Prelude.{ℕ, ◌≡◌, refl, ◌∙◌, Bool, true, false, [], ◌∷◌, ◌++◌, arith, if◌then◌else◌}
use rust_vpn.Text.{Text, is_whitespace, trim, trim_start, trim_end}
use rust_vpn.Text.Words.{words, words_from, flush}

words-trim_start : (s : Text) → words (trim_start s) ≡ words s
unfolding words words_from trim_start flush
words-trim_start [] = refl
words-trim_start (c ∷ s) = ground (arith, words-trim_start s)

words_from-trim_end : (word s : Text) → words_from word (trim_end s) ≡ words_from word s
unfolding words_from trim_end flush
words_from-trim_end word [] = refl
words_from-trim_end word (c ∷ s) =
    cases (is_whitespace c) refl (trim_end s) (words_from-trim_end [] s)
      (words_from-trim_end (word ++ c ∷ []) s)
  where
    cases :
        (space : Bool)
        → is_whitespace c ≡ space
        → (t : Text) → words_from [] t ≡ words_from [] s
        → words_from (word ++ c ∷ []) t ≡ words_from (word ++ c ∷ []) s
        → words_from word
            (elim t [ [] ↦ if is_whitespace c then [] else c ∷ [] | d ∷ u ↦ c ∷ d ∷ u ])
          ≡ words_from word (c ∷ s)
    cases true e [] h k = ground arith
    cases false e [] h k = ground arith
    cases true e (d ∷ t) h k = ground arith
    cases false e (d ∷ t) h k = ground arith

-- Trimming a text does not change its words.
pub words-trim : (s : Text) → words (trim s) ≡ words s
unfolding words trim
words-trim s = words_from-trim_end [] (trim_start s) ∙ words-trim_start s

words_from-ended :
    (word s : Text) (c : ℕ)
    → is_whitespace c ≡ true
    → words_from word (s ++ c ∷ []) ≡ words_from word s
unfolding words_from flush
words_from-ended word [] c h = ground arith
words_from-ended word (d ∷ s) c h =
    ground (arith, words_from-ended [] s c h, words_from-ended (word ++ d ∷ []) s c h)

-- White space at the end of a text does not change its words.
pub words-ended : (s : Text) (c : ℕ) → is_whitespace c ≡ true → words (s ++ c ∷ []) ≡ words s
unfolding words
words-ended s c h = words_from-ended [] s c h
