-- ===== src/Tests/Link.antt =====
-- The two ends of a tunnel in stream mode.
use rust_vpn.Prelude.{◌≡◌, ◌≢◌, refl, Bool, true, false, Option, none, some, List, [], ◌∷◌, arith}
use rust_vpn.Core.Quic.Pump.{pump_tun_to_stream}
use rust_vpn.Link.{
  Side, client, server, Moment, pumping, IsSilent, new_end, advance, run_link, streams_never_start,
}
use rust_vpn.Tests.Pacing.{fixed}
use rust_vpn.Tests.Pump.{turn, pacer}
use rust_vpn.Text.Utf8.{Bytes}

-- The stream of the peer, as soon as something was written to it.
abbrev announced : Bytes → Option Bool
announced [] = none
announced (b ∷ bs) = some true

abbrev moment : (Bytes → Option Bool) → Side → Moment
moment accepts side = record {
  side = side;
  opens = some true;
  accepts = accepts;
  turn = turn (0x45 ∷ 7 ∷ []);
  other_ends = false;
}

abbrev moments : (Bytes → Option Bool) → List Moment
moments accepts =
    moment accepts client
    ∷ moment accepts server
    ∷ moment accepts client
    ∷ moment accepts client
    ∷ moment accepts server
    ∷ []

quiet : announced [] ≢ some true
quiet e = ground arith

streams_never_start_example :
    let l =
      run_link fixed
        (record { client_end = new_end fixed pacer; server_end = new_end fixed pacer })
        (moments announced) in
    IsSilent fixed l.client_end × IsSilent fixed l.server_end
streams_never_start_example =
    streams_never_start fixed pacer pacer (moments announced)
      (quiet, (quiet, (quiet, (quiet, (quiet, tt)))))

-- Where a stream is known as soon as it is open, the client writes its first packet.
abbrev at_once : Bytes → Option Bool
at_once b = some true

starts_at_once :
    let l =
      run_link fixed
        (record { client_end = new_end fixed pacer; server_end = new_end fixed pacer })
        (moments at_once) in
    (l.client_end.stage ≡ pumping) × (l.client_end.pump.written ≡ 0 ∷ 2 ∷ 0x45 ∷ 7 ∷ [])
unfolding run_link advance new_end pump_tun_to_stream
starts_at_once = (refl, refl)
