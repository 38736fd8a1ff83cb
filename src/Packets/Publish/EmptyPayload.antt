-- ===== src/Packets/Publish/EmptyPayload.antt =====
-- A publish packet of QoS 0 with no payload: MarshalBinary writes it, and ReadFrom refuses it.
use mqttie.Prelude.{◌≡◌, [], ◌++◌, arith, length, length-append, ◌≤◌, le→leb}
use mqttie.Mqtt.{packet_short}
use mqttie.Go.Stream.{Reader}
use mqttie.Go.Stream.Reads.{Buffered, Rejects, Rejects-fail, Rejects->>=, Reads-counted}
use mqttie.Util.Varint.Decode.{Reads-read_varint}
use mqttie.Util.Utf8.RoundTrip.{utf8, Reads-read_utf8}
use mqttie.Packets.Publish.{Publish, read_from}
use mqttie.Packets.Publish.Marshal.{id_bytes, content, body, Fits}

-- The remaining length is used up by the topic, which ReadFrom takes for an error.
pub empty_payload_rejected :
    {R : Reader} (B : Buffered R) (p q : Publish)
    → Fits p
    → p.topic.qos ≡ 0
    → p.payload ≡ []
    → Rejects B (read_from R q) (body p) packet_short
unfolding read_from
empty_payload_rejected B p q f zero none =
    Rejects->>= B _ (Reads-read_varint B (length (content p)) f.content_fits) (
      Rejects->>= B _ (Reads-counted B (Reads-read_utf8 B p.topic.name f.name_fits)) (
        rw (le→leb (length (content p)) (length (utf8 p.topic.name)) topic_only)
          (rw nothing (Rejects-fail B packet_short))))
  where
    nothing : id_bytes p ++ p.payload ≡ []
    nothing = rw (zero, none)

    topic_only : length (content p) ≤ length (utf8 p.topic.name)
    topic_only = rw nothing (omega (arith, length-append p.topic.name []))
