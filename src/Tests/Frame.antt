-- ===== src/Tests/Frame.antt =====
-- Framed packets over a stream of chunks, at concrete inputs.
use rust_vpn.Prelude.{
  ℕ, zero, suc, ◌≤◌, ◌<◌, ◌≡◌, refl, [], ◌∷◌, ◌++◌, none, some, ok, err, arith, length,
}
use rust_vpn.Core.Quic.Frame.{
  Read, chunk, finished, failed, Delivers, read_stream_exact_or_eof, ended_mid_frame,
  write_stream_packet, read_stream_packet, packet_exceeds_max,
}
use rust_vpn.Core.Quic.Frame.RoundTrip.{read-write_stream_packet, read_stream_packet-exceeds}
use rust_vpn.Text.Utf8.{Bytes}

-- A finished stream that hands out one byte at a time.
abbrev pub byte_read : ℕ → Bytes → Read × Bytes
byte_read n [] = (finished, [])
byte_read zero (b ∷ s) = (chunk [], b ∷ s)
byte_read (suc n) (b ∷ s) = (chunk (b ∷ []), s)

pub byte_in_order :
    (n : ℕ) (s s' c : Bytes) → byte_read n s ≡ (chunk c, s') → (s ≡ c ++ s') × (length c ≤ n)
byte_in_order n [] s' c e = absurd (ground arith)
byte_in_order zero (b ∷ s) s' c e = ground arith
byte_in_order (suc n) (b ∷ s) s' c e = ground arith

pub byte_progress : (n : ℕ) (s s' c : Bytes) → 0 < n → byte_read n s ≡ (chunk c, s') → 0 < length c
byte_progress n [] s' c h e = absurd (ground arith)
byte_progress zero (b ∷ s) s' c h e = absurd (omega arith)
byte_progress (suc n) (b ∷ s) s' c h e = ground arith

pub byte_ends : (n : ℕ) (s s' : Bytes) → byte_read n s ≡ (finished, s') → (s ≡ []) × (s' ≡ [])
byte_ends n [] s' e = ground arith
byte_ends zero (b ∷ s) s' e = ground arith
byte_ends (suc n) (b ∷ s) s' e = ground arith

pub byte_reliable : (n : ℕ) (s s' : Bytes) → byte_read n s ≡ (failed, s') → ⊥
byte_reliable n [] s' e = ground arith
byte_reliable zero (b ∷ s) s' e = ground arith
byte_reliable (suc n) (b ∷ s) s' e = ground arith

abbrev pub byte_delivers : Delivers byte_read (λ s. s)
byte_delivers = record {
  in_order = byte_in_order;
  progress = byte_progress;
  ends = byte_ends;
  reliable = byte_reliable;
}

abbrev packet : Bytes
packet = 0x45 ∷ 0 ∷ 7 ∷ []

abbrev framed : Bytes
framed = 0 ∷ 3 ∷ 0x45 ∷ 0 ∷ 7 ∷ []

frame_sent : write_stream_packet 2 packet ≡ ok framed
unfolding write_stream_packet
frame_sent = refl

read-write_stream_packet_example :
    (s' : Bytes) × (read_stream_packet byte_read 1364 (framed ++ 9 ∷ []) ≡ (ok (some packet), s'))
    × (s' ≡ 9 ∷ [])
read-write_stream_packet_example =
    read-write_stream_packet byte_read (λ s. s) byte_delivers 2 1364 packet framed (9 ∷ [])
      (framed ++ 9 ∷ []) frame_sent (omega arith) refl

read_stream_packet-exceeds_example :
    (s' : Bytes) × (read_stream_packet byte_read 2 (framed ++ 9 ∷ [])
      ≡ (err packet_exceeds_max, s'))
    × (s' ≡ packet ++ 9 ∷ [])
read_stream_packet-exceeds_example =
    read_stream_packet-exceeds byte_read (λ s. s) byte_delivers 2 2 packet framed (9 ∷ [])
      (framed ++ 9 ∷ []) frame_sent (omega arith) refl

read_end_test : read_stream_packet byte_read 1364 [] ≡ (ok none, [])
unfolding read_stream_packet read_stream_exact_or_eof
read_end_test = refl

read_cut_test : read_stream_packet byte_read 1364 (0 ∷ []) ≡ (err ended_mid_frame, [])
unfolding read_stream_packet read_stream_exact_or_eof
read_cut_test = refl
