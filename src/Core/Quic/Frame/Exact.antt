-- ===== src/Core/Quic/Frame/Exact.antt =====
-- crates/litevpn-core/src/quic.rs: `read_stream_exact_or_eof` fills its buffer however the stream
-- cuts the data into chunks.
use rust_vpn.Prelude.{
  ℕ, zero, suc, ◌+◌, ◌-◌, ◌≤◌, ◌<◌, ◌≡◌, refl, sym, ap, ◌∙◌, [], ◌∷◌, ◌++◌, none, some, ok,
  append_assoc, append-nil, arith, le→ltb_false, length, length-append,
}
use rust_vpn.Core.Quic.Frame.{
  Read, chunk, finished, failed, fill, read_stream_exact_or_eof, Delivers, Filled,
}
use rust_vpn.Text.Utf8.{Bytes}

-- Two ways to cut one byte string.
append_cut :
    (c p n r : Bytes)
    → c ++ p ≡ n ++ r
    → length c ≤ length n
    → (m : Bytes) × (n ≡ c ++ m) × (p ≡ m ++ r)
append_cut [] p n r e h = (n, refl, e)
append_cut (x ∷ c) p [] r e h = absurd (omega arith)
append_cut (x ∷ c) p (y ∷ n) r e h =
    let (m, same, rest) = append_cut c p n r (ground arith) (omega arith) in (m, ground arith, rest)

module _ {S : Type 0} (read : ℕ → S → Read × S) where
  fill_done :
      (fuel len : ℕ) (got : Bytes) (s : S)
      → len ≤ length got
      → fill read (suc fuel) len got s ≡ (ok (some got), s)
  unfolding fill
  fill_done fuel len got s h = rw (le→ltb_false (length got) len h)

  fill_chunk :
      (fuel len : ℕ) (got c : Bytes) (s s1 : S)
      → length got < len
      → read (len - length got) s ≡ (chunk c, s1)
      → fill read (suc fuel) len got s ≡ fill read fuel len (got ++ c) s1
  unfolding fill
  fill_chunk zero len got c s s1 h e = ground arith
  fill_chunk (suc fuel) len got c s s1 h e = ground arith

  fill_end :
      (fuel len : ℕ) (s s1 : S)
      → 0 < len
      → read len s ≡ (finished, s1)
      → fill read (suc fuel) len [] s ≡ (ok none, s1)
  unfolding fill
  fill_end fuel len s s1 h e = ground arith

-- Two steps of a run, and the same bytes under another grouping.
chain :
    {S : Type 0} (first second : Filled S) (s : S) (b b' : Bytes)
    → first ≡ second
    → second ≡ (ok (some b), s)
    → b ≡ b'
    → first ≡ (ok (some b'), s)
chain first second s b b' e f g = e ∙ f ∙ ap (λ (x : Bytes). (ok (some x), s)) g

module _ {S : Type 0} (read : ℕ → S → Read × S) (pending : S → Bytes)
    (d : Delivers read pending) where
  -- The bytes that are still wanted come, and nothing behind them is taken.
  fill-Delivers :
      (fuel len : ℕ) (got want rest : Bytes) (s : S)
      → length want < fuel
      → length got + length want ≡ len
      → pending s ≡ want ++ rest
      → (s' : S) × (fill read fuel len got s ≡ (ok (some (got ++ want)), s')) × (pending s' ≡ rest)
  fill-Delivers zero len got want rest s f l p = absurd (omega arith)
  fill-Delivers (suc fuel) len got [] rest s f l p =
      (s, fill_done read fuel len got s (omega arith) ∙ rw append-nil, p)
  fill-Delivers (suc fuel) len got (w ∷ ws) rest s f l p =
      go (read (len - length got) s).0 (read (len - length got) s).1 refl
        (λ s1 got' ws' lf ll lp. fill-Delivers fuel len got' ws' rest s1 lf ll lp)
    where
      go :
          (r : Read) (s1 : S)
          → read (len - length got) s ≡ (r, s1)
          → ((s1 : S) (got' ws' : Bytes)
              → length ws' < fuel
              → length got' + length ws' ≡ len
              → pending s1 ≡ ws' ++ rest
              → (s' : S) × (fill read fuel len got' s1 ≡ (ok (some (got' ++ ws')), s'))
                × (pending s' ≡ rest))
          → (s' : S) × (fill read (suc fuel) len got s ≡ (ok (some (got ++ w ∷ ws)), s'))
            × (pending s' ≡ rest)
      go (chunk c) s1 e ih =
          let (split, fits) = d.in_order _ _ _ _ e in
          let nonempty = d.progress _ _ _ _ (omega arith) e in
          let (m, same, others) =
            append_cut c (pending s1) (w ∷ ws) rest (sym split ∙ p) (omega arith) in
          let count : length (w ∷ ws) ≡ length c + length m = ap length same ∙ length-append c m in
          let (s', run, left) =
            ih s1 (got ++ c) m (omega arith) (omega (arith, length-append got c)) others in
          let whole : (got ++ c) ++ m ≡ got ++ w ∷ ws =
            append_assoc got c m ∙ ap (λ (b : Bytes). got ++ b) (sym same) in
          (
            s',
            chain (fill read (suc fuel) len got s) (fill read fuel len (got ++ c) s1) s'
                ((got ++ c) ++ m) (got ++ w ∷ ws)
                (fill_chunk read fuel len got c s s1 (omega arith) e) run whole,
            left,
          )
      go finished s1 e ih = let (empty, _) = d.ends _ _ _ e in absurd (ground arith)
      go failed s1 e ih = absurd (d.reliable _ _ _ e)

  -- However the data is cut into chunks, the buffer is filled with the next bytes of the stream.
  pub read_stream_exact_or_eof-Delivers :
      (want rest : Bytes) (s : S)
      → pending s ≡ want ++ rest
      → (s' : S) × (read_stream_exact_or_eof read (length want) s ≡ (ok (some want), s'))
        × (pending s' ≡ rest)
  unfolding read_stream_exact_or_eof
  read_stream_exact_or_eof-Delivers want rest s p =
      fill-Delivers (suc (length want)) (length want) [] want rest s (omega arith) (omega arith) p

  -- Where no byte is left, the end of the stream is reported, and not an error.
  pub read_stream_exact_or_eof-end :
      (len : ℕ) (s : S)
      → 0 < len
      → pending s ≡ []
      → (s' : S) × (read_stream_exact_or_eof read len s ≡ (ok none, s')) × (pending s' ≡ [])
  unfolding read_stream_exact_or_eof
  read_stream_exact_or_eof-end len s h p = go (read len s).0 (read len s).1 refl
    where
      go :
          (r : Read) (s1 : S)
          → read len s ≡ (r, s1)
          → (s' : S) × (fill read (suc len) len [] s ≡ (ok none, s')) × (pending s' ≡ [])
      go (chunk c) s1 e =
          let (split, _) = d.in_order _ _ _ _ e in
          let nonempty = d.progress _ _ _ _ h e in
          let none_left : 0 ≡ length c + length (pending s1) =
            ap length (sym p ∙ split) ∙ length-append c (pending s1) in
          absurd (omega arith)
      go finished s1 e = (s1, fill_end read len len s s1 h e, (d.ends _ _ _ e).1)
      go failed s1 e = absurd (d.reliable _ _ _ e)
