-- ===== src/Packets/PubRel.antt =====
-- PubRel of packets/publish.go.
pub mod Reads
use mqttie.Prelude.{ℕ, List, ◌==◌, if◌then◌else◌, bit_or}
use mqttie.Mqtt.{mqtt_v311}
use mqttie.Go.Outcome.{Outcome}
use mqttie.Go.Stream.{Reader, Writer, Io, pure, ◌>>=◌}
use mqttie.Packets.Frame.{cmd_pub_rel, marshal_id, read_id, write_marshalled}

pub record PubRel : Type 0 where
  pub version : ℕ
  pub packet_identifier : ℕ

unfoldable pub marshal_binary : PubRel → Outcome (List ℕ)
unfolding marshal_id
marshal_binary p =
    marshal_id (if p.version == mqtt_v311 then bit_or cmd_pub_rel 0x02 else cmd_pub_rel)
      p.packet_identifier

unfoldable pub write_to : (W : Writer) → PubRel → Io W.Sink (Unit {0})
write_to W p = write_marshalled W (marshal_binary p)

-- The receiver `p` holds the version; an error leaves it as it was.
unfoldable pub read_from : (R : Reader) → PubRel → Io R.Stream PubRel
read_from R p = do id ← read_id R; pure (record p { packet_identifier = id })
