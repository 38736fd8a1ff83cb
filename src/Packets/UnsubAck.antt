-- ===== src/Packets/UnsubAck.antt =====
-- UnsubAck of packets/subscribe.go.
pub mod Reads
use mqttie.Prelude.{ℕ, List, ltb, if◌then◌else◌}
use mqttie.Mqtt.{packet_short, packet_long}
use mqttie.Go.Outcome.{Outcome}
use mqttie.Go.Slice.{make, uint16}
use mqttie.Go.Stream.{Reader, Writer, Io, pure, fail, ◌>>=◌, read}
use mqttie.Util.Varint.{read_varint}
use mqttie.Packets.Frame.{cmd_unsub_ack, marshal_id, write_marshalled}

pub record UnsubAck : Type 0 where
  pub version : ℕ
  pub packet_identifier : ℕ

-- b = []byte{cmdUnsubAck, 2, 0, 0}, then the identifier into the last two bytes
unfoldable pub marshal_binary : UnsubAck → Outcome (List ℕ)
unfolding marshal_id
marshal_binary u = marshal_id cmd_unsub_ack u.packet_identifier

unfoldable pub write_to : (W : Writer) → UnsubAck → Io W.Sink (Unit {0})
write_to W u = write_marshalled W (marshal_binary u)

unfoldable pub read_from : (R : Reader) → UnsubAck → Io R.Stream UnsubAck
read_from R u = do
  rem_length ← read_varint R
  if ltb rem_length 2
      then fail packet_short
      else if ltb 2 rem_length
      then fail packet_long
      else do buf ← read R (make 2); pure (record u { packet_identifier = uint16 buf })
