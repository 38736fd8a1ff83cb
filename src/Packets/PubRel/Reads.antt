-- ===== src/Packets/PubRel/Reads.antt =====
-- ReadFrom of PubRel reads back what MarshalBinary wrote behind the command byte.
use mqttie.Prelude.{ℕ, ◌==◌, if◌then◌else◌, ◌<◌, ◌^◌, ◌≡◌, ◌∷◌}
use mqttie.Go.Outcome.{ok}
use mqttie.Go.Slice.{be16}
use mqttie.Go.Stream.{Reader}
use mqttie.Go.Stream.Reads.{Buffered, Reads, Reads-pure, Reads->>=}
use mqttie.Mqtt.{mqtt_v311}
use mqttie.Packets.Frame.Reads.{marshal_id_lem, Reads-read_id}
use mqttie.Packets.PubRel.{PubRel, marshal_binary, read_from}

abbrev pub command : PubRel → ℕ
command p = if p.version == mqtt_v311 then 0x62 else 0x60

pub marshal_binary_lem :
    (p : PubRel) → marshal_binary p ≡ ok (command p ∷ 2 ∷ be16 p.packet_identifier)
unfolding marshal_binary
marshal_binary_lem p = marshal_id_lem (command p) p.packet_identifier

pub Reads-read_from :
    {R : Reader} (B : Buffered R) (p q : PubRel)
    → p.packet_identifier < 2 ^ 16
    → q.version ≡ p.version
    → Reads B (read_from R q) (2 ∷ be16 p.packet_identifier) p
unfolding read_from
Reads-read_from B p q h e =
    Reads->>= B _ (Reads-read_id B p.packet_identifier h) (rw e (Reads-pure B p))
