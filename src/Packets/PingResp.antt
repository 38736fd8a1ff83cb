-- ===== src/Packets/PingResp.antt =====
-- PingResp of packets/ping.go.
pub mod Reads
use mqttie.Prelude.{ℕ, List, [], ◌∷◌, ltb, if◌then◌else◌, get_or}
use mqttie.Mqtt.{packet_long}
use mqttie.Go.Outcome.{Outcome, ok}
use mqttie.Go.Slice.{make}
use mqttie.Go.Stream.{Reader, Writer, Io, pure, fail, ◌>>=◌, read}
use mqttie.Packets.Frame.{cmd_ping_resp, write_marshalled}

pub record PingResp : Type 0 where
  pub version : ℕ

unfoldable pub marshal_binary : PingResp → Outcome (List ℕ)
marshal_binary p = ok (cmd_ping_resp ∷ 0 ∷ [])

unfoldable pub write_to : (W : Writer) → PingResp → Io W.Sink (Unit {0})
write_to W p = write_marshalled W (marshal_binary p)

unfoldable pub read_from : (R : Reader) → PingResp → Io R.Stream PingResp
read_from R p = do
  buf ← read R (make 1)
  if ltb 0 (get_or buf 0 0) then fail packet_long else pure p
