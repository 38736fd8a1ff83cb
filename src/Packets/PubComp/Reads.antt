-- ===== src/Packets/PubComp/Reads.antt =====
-- ReadFrom of PubComp reads back what MarshalBinary wrote behind the command byte.
use mqttie.Prelude.{◌<◌, ◌^◌, ◌≡◌, ◌∷◌}
use mqttie.Go.Outcome.{ok}
use mqttie.Go.Slice.{be16}
use mqttie.Go.Stream.{Reader}
use mqttie.Go.Stream.Reads.{Buffered, Reads, Reads-pure, Reads->>=}
use mqttie.Packets.Frame.{cmd_pub_comp}
use mqttie.Packets.Frame.Reads.{marshal_id_lem, Reads-read_id}
use mqttie.Packets.PubComp.{PubComp, marshal_binary, read_from}

pub marshal_binary_lem :
    (p : PubComp) → marshal_binary p ≡ ok (cmd_pub_comp ∷ 2 ∷ be16 p.packet_identifier)
unfolding marshal_binary
marshal_binary_lem p = marshal_id_lem cmd_pub_comp p.packet_identifier

pub Reads-read_from :
    {R : Reader} (B : Buffered R) (p q : PubComp)
    → p.packet_identifier < 2 ^ 16
    → q.version ≡ p.version
    → Reads B (read_from R q) (2 ∷ be16 p.packet_identifier) p
unfolding read_from
Reads-read_from B p q h e =
    Reads->>= B _ (Reads-read_id B p.packet_identifier h) (rw e (Reads-pure B p))
