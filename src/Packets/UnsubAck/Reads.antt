-- ===== src/Packets/UnsubAck/Reads.antt =====
-- ReadFrom of UnsubAck reads back what MarshalBinary wrote behind the command byte.
use mqttie.Prelude.{◌<◌, ◌^◌, ◌≡◌, refl, ◌∷◌, arith}
use mqttie.Go.Outcome.{ok}
use mqttie.Go.Slice.{make, be16, uvarint_bytes}
use mqttie.Go.Stream.{Reader}
use mqttie.Go.Stream.Reads.{Buffered, Reads, Reads-pure, Reads->>=, Reads-read}
use mqttie.Util.Varint.Decode.{Reads-read_varint}
use mqttie.Util.Utf8.RoundTrip.{uint16-be16}
use mqttie.Packets.Frame.{cmd_unsub_ack}
use mqttie.Packets.Frame.Reads.{marshal_id_lem}
use mqttie.Packets.UnsubAck.{UnsubAck, marshal_binary, read_from}

pub marshal_binary_lem :
    (u : UnsubAck) → marshal_binary u ≡ ok (cmd_unsub_ack ∷ 2 ∷ be16 u.packet_identifier)
unfolding marshal_binary
marshal_binary_lem u = marshal_id_lem cmd_unsub_ack u.packet_identifier

pub Reads-read_from :
    {R : Reader} (B : Buffered R) (u v : UnsubAck)
    → u.packet_identifier < 2 ^ 16
    → v.version ≡ u.version
    → Reads B (read_from R v) (2 ∷ be16 u.packet_identifier) u
unfolding read_from uvarint_bytes
Reads-read_from B u v h e = Reads->>= B _ (Reads-read_varint B 2 (omega arith)) (
    Reads->>= B _ (Reads-read B (make 2) (be16 u.packet_identifier) refl)
      (rw (uint16-be16 u.packet_identifier h, e) (Reads-pure B u)))
