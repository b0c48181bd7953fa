-- ===== src/Core/Quic/Frame/RoundTrip.antt =====
-- crates/litevpn-core/src/quic.rs: packets that `write_stream_packet` frames are read back one by one.
use rust_vpn.Prelude.{
  ℕ, ◌≤◌, ◌<◌, ◌≡◌, refl, ap, ◌∙◌, [], ◌∷◌, ◌++◌, none, some, ok, err, arith, length,
}
use rust_vpn.Core.Quic.Frame.{
  Read, max_u16, packet_exceeds_max, to_be_bytes, from_be_bytes, write_stream_packet, read_body,
  read_stream_packet, Delivers,
}
use rust_vpn.Core.Quic.Frame.Exact.{read_stream_exact_or_eof-Delivers, read_stream_exact_or_eof-end}
use rust_vpn.Text.Utf8.{Bytes}

-- What a successful write sends: the length in two bytes, then the packet.
pub write_stream_packet-ok :
    (header_len : ℕ) (packet sent : Bytes)
    → write_stream_packet header_len packet ≡ ok sent
    → (sent ≡ to_be_bytes (length packet) ++ packet) × (length packet ≤ max_u16)
unfolding write_stream_packet
write_stream_packet-ok header_len packet sent h = ground arith

from-to_be_bytes : (n : ℕ) → n ≤ max_u16 → from_be_bytes (to_be_bytes n) ≡ n
from-to_be_bytes n h = omega arith

module _ {S : Type 0} (read : ℕ → S → Read × S) (pending : S → Bytes)
    (d : Delivers read pending) where
  read_body-Delivers :
      (max_packet_bytes : ℕ) (packet rest : Bytes) (s : S)
      → length packet ≤ max_packet_bytes
      → pending s ≡ packet ++ rest
      → (s' : S) × (read_body read max_packet_bytes (length packet) s ≡ (ok (some packet), s'))
        × (pending s' ≡ rest)
  unfolding read_body
  read_body-Delivers m [] rest s fits p = (s, refl, p)
  read_body-Delivers m (b ∷ packet) rest s fits p =
      let (s', run, left) =
        read_stream_exact_or_eof-Delivers read pending d (b ∷ packet) rest s p in
      (s', ground arith, left)

  -- A packet that was written is the next one read, with the stream left behind it, whatever the
  -- chunks in which its bytes arrive: for a packet that fits the reader's buffer, the empty one too.
  pub read-write_stream_packet :
      (header_len max_packet_bytes : ℕ) (packet sent rest : Bytes) (s : S)
      → write_stream_packet header_len packet ≡ ok sent
      → length packet ≤ max_packet_bytes
      → pending s ≡ sent ++ rest
      → (s' : S) × (read_stream_packet read max_packet_bytes s ≡ (ok (some packet), s'))
        × (pending s' ≡ rest)
  unfolding read_stream_packet
  read-write_stream_packet header_len m packet sent rest s w fits p =
      let (bytes, small) = write_stream_packet-ok header_len packet sent w in
      let header = to_be_bytes (length packet) in
      let (s1, run, left) =
        read_stream_exact_or_eof-Delivers read pending d header (packet ++ rest) s
          (p ∙ ap (λ (b : Bytes). b ++ rest) bytes) in
      let (s2, run2, left2) = read_body-Delivers m packet rest s1 fits left in
      (s2, ground (arith, from-to_be_bytes (length packet) small), left2)

  -- A stream that ends between two packets ends without an error.
  pub read_stream_packet-end :
      (max_packet_bytes : ℕ) (s : S)
      → pending s ≡ []
      → (s' : S) × (read_stream_packet read max_packet_bytes s ≡ (ok none, s')) × (pending s' ≡ [])
  unfolding read_stream_packet
  read_stream_packet-end m s p =
      let (s', run, left) = read_stream_exact_or_eof-end read pending d 2 s (omega arith) p in
      (s', ground arith, left)

  -- A packet longer than the buffer is refused, and not one byte of it is read.
  pub read_stream_packet-exceeds :
      (header_len max_packet_bytes : ℕ) (packet sent rest : Bytes) (s : S)
      → write_stream_packet header_len packet ≡ ok sent
      → max_packet_bytes < length packet
      → pending s ≡ sent ++ rest
      → (s' : S) × (read_stream_packet read max_packet_bytes s ≡ (err packet_exceeds_max, s'))
        × (pending s' ≡ packet ++ rest)
  unfolding read_stream_packet read_body
  read_stream_packet-exceeds header_len m packet sent rest s w long p =
      let (bytes, small) = write_stream_packet-ok header_len packet sent w in
      let header = to_be_bytes (length packet) in
      let (s1, run, left) =
        read_stream_exact_or_eof-Delivers read pending d header (packet ++ rest) s
          (p ∙ ap (λ (b : Bytes). b ++ rest) bytes) in
      (s1, ground (arith, from-to_be_bytes (length packet) small), left)
