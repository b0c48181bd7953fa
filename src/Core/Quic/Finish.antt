-- ===== src/Core/Quic/Finish.antt =====
-- crates/litevpn-core/src/quic.rs: `finish_stream_with_ack`. What `finish` and the wait for `stopped`
-- answer is an argument.
use rust_vpn.Prelude.{ℕ, Bool, true, false, Result, ok, err}

-- `stopped` within five seconds: all data was received, the peer stopped the stream with a code, an
-- error, or no answer in time.
pub data Stopped : Type 0 where
  received_all : Stopped
  stopped_with : ℕ → Stopped
  stopped_failed out_of_time : Stopped

pub data FinishError : Type 0 where
  finish_failed wait_failed : FinishError

unfoldable pub finish_stream_with_ack : Bool → Stopped → Result FinishError (Unit {0})
finish_stream_with_ack false stopped = err finish_failed
finish_stream_with_ack true received_all = ok tt
finish_stream_with_ack true (stopped_with code) = ok tt
finish_stream_with_ack true stopped_failed = err wait_failed
finish_stream_with_ack true out_of_time = ok tt
