-- ===== src/Packets/Publish/Marshal.antt =====
-- MarshalBinary of Publish fills its buffer exactly, and the ways in which it refuses.
use mqttie.Prelude.{ℕ, ◌+◌, ◌≤◌, ◌<◌, ◌^◌, ◌≡◌, List, [], ◌∷◌, ◌++◌, arith}
use mqttie.Prelude.{ltb, if◌then◌else◌, length, length-append, Bool-cases, inl, inr}
use mqttie.Mqtt.{runtime}
use mqttie.Go.Outcome.{ok, err}
use mqttie.Go.Slice.{be16, uvarint, put_uint16}
use mqttie.Go.Slice.Fills.{Fills-copy, Fills-put_uint16}
use mqttie.Go.Encoder.{skip, emit}
use mqttie.Go.Encoder.Writes.{
  Writes, Writes-emit, Writes-store, Writes-skip, Writes->>, marshal_lem,
}
use mqttie.Util.Varint.Encode.{length_bytes_lem, length_bytes_too_long}
use mqttie.Util.Utf8.RoundTrip.{utf8, Fills-encode_utf8}
use mqttie.Packets.Publish.{Publish, fixed_header, rem_length, fill, marshal_binary}

-- The identifier is on the wire only with a QoS above 0.
abbrev pub id_bytes : Publish → List ℕ
id_bytes p = if ltb 0 p.topic.qos then be16 p.packet_identifier else []

-- What follows the remaining length.
abbrev pub content : Publish → List ℕ
content p = utf8 p.topic.name ++ (id_bytes p ++ p.payload)

abbrev pub body : Publish → List ℕ
body p = uvarint (length (content p)) ++ content p

-- A packet whose lengths MQTT allows: the topic has at most 65535 bytes, and the remaining length fits four bytes.
pub record Fits (p : Publish) : Type 0 where
  pub name_fits : length p.topic.name < 2 ^ 16
  pub content_fits : length (content p) < 2 ^ 28

id-Writes :
    (p : Publish)
    → Writes
        (if ltb 0 p.topic.qos then emit (put_uint16 p.packet_identifier) else skip)
        (id_bytes p)
id-Writes p = elim (Bool-cases (ltb 0 p.topic.qos)) [
  | inl some ↦ rw some (Writes-emit (Fills-put_uint16 p.packet_identifier))
  | inr zero ↦ rw zero Writes-skip
]

pub length-content :
    (p : Publish)
    → length (content p) ≡ (
        if ltb 0 p.topic.qos
        then length p.topic.name + 2 + length p.payload + 2
        else length p.topic.name + 2 + length p.payload)
length-content p = elim (Bool-cases (ltb 0 p.topic.qos)) [
  | inl some ↦
      rw some (omega (arith, length-append p.topic.name (be16 p.packet_identifier ++ p.payload)))
  | inr zero ↦ rw zero (omega (arith, length-append p.topic.name p.payload))
]

rem_length-content : (p : Publish) → Fits p → rem_length p ≡ length (content p)
unfolding rem_length
rem_length-content p f = ground (arith, length-content p, f.content_fits)

-- MarshalBinary writes the command byte, the remaining length and the content, and nothing else.
pub marshal_binary_lem : (p : Publish) → Fits p → marshal_binary p ≡ ok (fixed_header p ∷ body p)
unfolding marshal_binary
marshal_binary_lem p f =
    rw (rem_length-content p f, length_bytes_lem (length (content p)) f.content_fits)
      (marshal_lem (length (content p) + length prefix + 1) writes
        (omega (arith, length-append prefix (content p))))
  where
    prefix : List ℕ
    prefix = uvarint (length (content p))

    writes : Writes (fill p prefix) (fixed_header p ∷ body p)
    writes = Writes->> (Writes-store (fixed_header p)) (
        Writes->> (Writes-emit (Fills-copy prefix)) (
          Writes->> (Writes-emit (Fills-encode_utf8 p.topic.name f.name_fits))
            (Writes->> (id-Writes p) (Writes-emit (Fills-copy p.payload)))))

-- A remaining length of 2 ^ 28 or more, that a uint32 still holds, is refused with the error that
-- EncodeUvarint recovers from.
pub marshal_binary_too_long : (p : Publish) → 2 ^ 28 ≤ rem_length p → marshal_binary p ≡ err runtime
unfolding marshal_binary
marshal_binary_too_long p h = rw (length_bytes_too_long (rem_length p) h)
