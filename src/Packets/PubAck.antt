-- ===== src/Packets/PubAck.antt =====
-- PubAck of packets/publish.go.
pub mod Reads
use mqttie.Prelude.{ℕ, List}
use mqttie.Go.Outcome.{Outcome}
use mqttie.Go.Stream.{Reader, Writer, Io, pure, ◌>>=◌}
use mqttie.Packets.Frame.{cmd_pub_ack, marshal_id, read_id, write_marshalled}

pub record PubAck : Type 0 where
  pub version : ℕ
  pub packet_identifier : ℕ

unfoldable pub marshal_binary : PubAck → Outcome (List ℕ)
unfolding marshal_id
marshal_binary p = marshal_id cmd_pub_ack p.packet_identifier

unfoldable pub write_to : (W : Writer) → PubAck → Io W.Sink (Unit {0})
write_to W p = write_marshalled W (marshal_binary p)

-- The receiver `p` holds the version; an error leaves it as it was.
unfoldable pub read_from : (R : Reader) → PubAck → Io R.Stream PubAck
read_from R p = do id ← read_id R; pure (record p { packet_identifier = id })
