-- ===== src/Packets/PubRec/Reads.antt =====
-- ReadFrom of PubRec reads back what MarshalBinary wrote behind the command byte.
use mqttie.Prelude.{◌<◌, ◌^◌, ◌≡◌, ◌∷◌}
use mqttie.Go.Outcome.{ok}
use mqttie.Go.Slice.{be16}
use mqttie.Go.Stream.{Reader}
use mqttie.Go.Stream.Reads.{Buffered, Reads, Reads-pure, Reads->>=}
use mqttie.Packets.Frame.{cmd_pub_rec}
use mqttie.Packets.Frame.Reads.{marshal_id_lem, Reads-read_id}
use mqttie.Packets.PubRec.{PubRec, marshal_binary, read_from}

pub marshal_binary_lem :
    (p : PubRec) → marshal_binary p ≡ ok (cmd_pub_rec ∷ 2 ∷ be16 p.packet_identifier)
unfolding marshal_binary
marshal_binary_lem p = marshal_id_lem cmd_pub_rec p.packet_identifier

pub Reads-read_from :
    {R : Reader} (B : Buffered R) (p q : PubRec)
    → p.packet_identifier < 2 ^ 16
    → q.version ≡ p.version
    → Reads B (read_from R q) (2 ∷ be16 p.packet_identifier) p
unfolding read_from
Reads-read_from B p q h e =
    Reads->>= B _ (Reads-read_id B p.packet_identifier h) (rw e (Reads-pure B p))
