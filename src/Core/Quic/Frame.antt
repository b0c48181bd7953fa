-- ===== src/Core/Quic/Frame.antt =====
-- crates/litevpn-core/src/quic.rs: `write_stream_packet`, `read_stream_packet` and
-- `read_stream_exact_or_eof`. A receive stream of quinn is its `read` function, a parameter: it takes
-- the room in the buffer and answers with the bytes that it put there.
pub mod Exact
pub mod RoundTrip
use rust_vpn.Prelude.{
  ℕ, zero, suc, ◌+◌, ◌-◌, ◌*◌, ◌/◌, ◌%◌, ◌≤◌, ◌<◌, ◌≡◌, List, [], ◌∷◌, ◌++◌, Option, none, some,
  Result, ok, err, bail_if, ◌>>=◌, ◌>>◌, ltb, ◌==◌, if◌then◌else◌, length,
}
use rust_vpn.Text.Utf8.{Bytes}

-- What `RecvStream::read` answers: `Some(n)` with n bytes, `None` at the end, or an error.
pub data Read : Type 0 where
  chunk : Bytes → Read
  finished failed : Read

pub data FrameError : Type 0 where
  packet_too_large header_too_small write_failed : FrameError
  read_failed ended_mid_frame ended_mid_packet packet_exceeds_max : FrameError
  -- the loop's fuel is used up, which no stream that makes progress brings about
  stalled : FrameError

abbrev pub max_u16 : ℕ
max_u16 = 65535

-- `(n as u16).to_be_bytes()`
abbrev pub to_be_bytes : ℕ → Bytes
to_be_bytes n = (n % 65536 / 256) ∷ (n % 256) ∷ []

-- `u16::from_be_bytes(header)` for the two bytes that were read.
abbrev pub from_be_bytes : Bytes → ℕ
from_be_bytes [] = 0
from_be_bytes (h ∷ []) = 0
from_be_bytes (h ∷ l ∷ _) = h * 256 + l

-- `write_stream_packet`: the bytes that it hands to `write_all_chunks`. The first argument is the
-- length of the header buffer.
unfoldable pub write_stream_packet : ℕ → Bytes → Result FrameError Bytes
write_stream_packet header_len packet = do
  bail_if (ltb max_u16 (length packet)) packet_too_large
  bail_if (ltb header_len 2) header_too_small
  ok (to_be_bytes (length packet) ++ packet)

-- The bytes that fill the buffer, `none` for the end of the stream, and the stream behind them.
abbrev pub Filled : Type 0 → Type 0
Filled S = Result FrameError (Option Bytes) × S

module _ {S : Type 0} (read : ℕ → S → Read × S) where
  -- The loop of `read_stream_exact_or_eof`: `got` is what fills the buffer so far.
  fill : ℕ → ℕ → Bytes → S → Filled S
  fill zero len got s = (err stalled, s)
  fill (suc fuel) len got s =
      let (answer, s') = read (len - length got) s in
      let more : Filled S = elim answer [
        | chunk c ↦ fill fuel len (got ++ c) s'
        | finished ↦ (if length got == 0 then ok none else err ended_mid_frame, s')
        | failed ↦ (err read_failed, s')
      ] in
      if ltb (length got) len then more else (ok (some got), s)

  -- `none` stands for `false`, the end of the stream before the first byte. A round that makes
  -- progress reads a byte at least, so `len` rounds fill the buffer.
  unfoldable pub read_stream_exact_or_eof : ℕ → S → Filled S
  unfolding fill
  read_stream_exact_or_eof len s = fill (suc len) len [] s

  -- The packet behind its header.
  unfoldable pub read_body : ℕ → ℕ → S → Filled S
  read_body max_packet_bytes packet_len s =
      let (body, s') = read_stream_exact_or_eof packet_len s in
      let complete : Filled S = (
        do packet ← body; elim packet [ none ↦ err ended_mid_packet | some p ↦ ok (some p) ],
        s',
      ) in
      if packet_len == 0
      then (ok (some []), s)
      else if ltb max_packet_bytes packet_len
      then (err packet_exceeds_max, s)
      else complete

  -- `read_stream_packet` with a buffer of `max_packet_bytes`: `ok none` at the end of the stream,
  -- and otherwise the packet that lies in the buffer.
  unfoldable pub read_stream_packet : ℕ → S → Filled S
  read_stream_packet max_packet_bytes s =
      let (header, s') = read_stream_exact_or_eof 2 s in
      elim header [
        | err e ↦ (err e, s')
        | ok none ↦ (ok none, s')
        | ok (some h) ↦ read_body max_packet_bytes (from_be_bytes h) s'
      ]

-- What quinn documents of `read` on a stream that its peer has finished, `pending` being the bytes
-- that are still to come: they come in order, never more than fit the buffer, at least one when there
-- is room and data, and the end only behind the last.
pub record Delivers {S : Type 0} (read : ℕ → S → Read × S) (pending : S → Bytes) : Type 0 where
  pub in_order :
      (n : ℕ) (s s' : S) (c : Bytes)
      → read n s ≡ (chunk c, s')
      → (pending s ≡ c ++ pending s') × (length c ≤ n)
  pub progress : (n : ℕ) (s s' : S) (c : Bytes) → 0 < n → read n s ≡ (chunk c, s') → 0 < length c
  pub ends : (n : ℕ) (s s' : S) → read n s ≡ (finished, s') → (pending s ≡ []) × (pending s' ≡ [])
  pub reliable : (n : ℕ) (s s' : S) → read n s ≡ (failed, s') → ⊥
