-- ===== src/Text/Words.antt =====
-- `str::split_whitespace`, and the words of a text that is spelled word by word.
pub mod Trim
use rust_vpn.Prelude.{
  ℕ, ◌≡◌, refl, ◌≢◌, true, false, List, [], ◌∷◌, ◌++◌, append_assoc, append-nil, ap, arith, All,
  ◌∙◌,
}
use rust_vpn.Text.{Text, chars, is_whitespace, Solid}

-- An empty word is dropped.
flush : Text → List Text → List Text
flush [] ws = ws
flush (c ∷ w) ws = (c ∷ w) ∷ ws

-- `word` holds the characters since the last white space.
words_from : Text → Text → List Text
words_from word [] = flush word []
words_from word (c ∷ s) = elim (is_whitespace c) [
  | true ↦ flush word (words_from [] s)
  | false ↦ words_from (word ++ c ∷ []) s
]

-- `s.split_whitespace()`
unfoldable pub words : Text → List Text
unfolding words_from flush is_whitespace
words s = words_from [] s

words_from-append :
    (w word s : Text) → Solid w → words_from word (w ++ s) ≡ words_from (word ++ w) s
unfolding words_from
words_from-append [] word s h = rw append-nil
words_from-append (c ∷ w) word s h =
    ground (arith, words_from-append w (word ++ c ∷ []) s h.1, append_assoc word (c ∷ []) w)

words_from_space :
    (word s : Text) (c : ℕ)
    → is_whitespace c ≡ true
    → words_from word (c ∷ s) ≡ flush word (words_from [] s)
unfolding words_from
words_from_space word s c hc = ground arith

-- A word in front of a white space character is the first word.
pub words-append_space :
    (w s : Text) (c : ℕ)
    → Solid w
    → w ≢ []
    → is_whitespace c ≡ true
    → words (w ++ c ∷ s) ≡ w ∷ words s
unfolding words
words-append_space [] s c h e hc = absurd (e refl)
words-append_space (d ∷ w) s c h e hc =
    unfold flush in words_from-append (d ∷ w) [] (c ∷ s) h ∙ words_from_space (d ∷ w) s c hc

pub words-Solid : (w : Text) → Solid w → w ≢ [] → words w ≡ w ∷ []
unfolding words
words-Solid [] h e = absurd (e refl)
words-Solid (d ∷ w) h e = ground (arith, words_from-append (d ∷ w) [] [] h, append-nil (d ∷ w))

words-nil : words [] ≡ []
unfolding words
words-nil = refl

-- Words with one space between them.
abbrev pub unwords : List Text → Text
unwords [] = []
unwords (w ∷ []) = w
unwords (w ∷ v ∷ ws) = w ++ b' ' ∷ unwords (v ∷ ws)

abbrev pub IsWord : Text → Type 0
IsWord w = (w ≢ []) × Solid w

space-is_whitespace : is_whitespace b' ' ≡ true
unfolding is_whitespace
space-is_whitespace = refl

-- Splitting gives the words back, for words that are not empty and hold no white space.
pub words-unwords : (ws : List Text) → All IsWord ws → words (unwords ws) ≡ ws
words-unwords [] h = words-nil
words-unwords (w ∷ []) h = words-Solid w h.0.1 h.0.0
words-unwords (w ∷ v ∷ ws) h =
    words-append_space w (unwords (v ∷ ws)) b' ' h.0.1 h.0.0 space-is_whitespace
    ∙ ap (λ (r : List Text). w ∷ r) (words-unwords (v ∷ ws) h.1)

words_test : words (chars "  bench up\n") ≡ chars "bench" ∷ chars "up" ∷ []
unfolding words
words_test = refl
