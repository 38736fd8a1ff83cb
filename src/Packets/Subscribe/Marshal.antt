-- ===== src/Packets/Subscribe/Marshal.antt =====
-- MarshalBinary of Subscribe fills its buffer exactly, and the ways in which it refuses.
use mqttie.Prelude.{ℕ, ◌+◌, ◌≤◌, ◌<◌, ◌^◌, ◌-◌, ◌≡◌, refl, List, [], ◌∷◌, ◌++◌, arith, All}
use mqttie.Prelude.{length, length-append, le→ltb, ltb, if◌then◌else◌}
use mqttie.Mqtt.{Topic, packet_long, runtime}
use mqttie.Go.Outcome.{ok, err}
use mqttie.Go.Slice.{be16, uvarint}
use mqttie.Go.Slice.Fills.{Fills-copy, Fills-put_uint16}
use mqttie.Go.Encoder.Writes.{
  Writes, Writes-emit, Writes-store, Writes-skip, Writes->>, marshal_lem,
}
use mqttie.Util.Varint.Encode.{length_bytes_lem, length_bytes_too_long}
use mqttie.Util.Utf8.RoundTrip.{utf8, Fills-encode_utf8}
use mqttie.Packets.Subscribe.{Subscribe, payload_length, fill_topics, fill, marshal_binary}
use native.Mathlib.Nat.{mod-eq_of_lt}

-- The bytes of the topic filters on the wire.
unfoldable pub topics_bytes : List Topic → List ℕ
topics_bytes [] = []
topics_bytes (t ∷ ts) = utf8 t.name ++ (t.qos ∷ topics_bytes ts)

abbrev pub content : Subscribe → List ℕ
content s = be16 s.packet_identifier ++ topics_bytes s.topics

abbrev pub body : Subscribe → List ℕ
body s = uvarint (length (content s)) ++ content s

abbrev pub NameFits : Topic → Type 0
NameFits t = length t.name < 2 ^ 16

pub record Fits (s : Subscribe) : Type 0 where
  pub names_fit : All NameFits s.topics
  pub content_fits : length (content s) < 2 ^ 28

pub length-topics_bytes : (ts : List Topic) → length (topics_bytes ts) ≡ payload_length ts
unfolding topics_bytes payload_length
length-topics_bytes [] = refl
length-topics_bytes (t ∷ ts) =
    omega (arith, length-append t.name (t.qos ∷ topics_bytes ts), length-topics_bytes ts)

topics-Writes : (ts : List Topic) → All NameFits ts → Writes (fill_topics ts) (topics_bytes ts)
unfolding topics_bytes fill_topics
topics-Writes [] h = Writes-skip
topics-Writes (t ∷ ts) h =
    Writes->> (Writes-emit (Fills-encode_utf8 t.name h.0))
      (Writes->> (Writes-store t.qos) (topics-Writes ts h.1))

-- MarshalBinary writes the command byte, the remaining length and the content, and nothing else.
pub marshal_binary_lem : (s : Subscribe) → Fits s → marshal_binary s ≡ ok (0x82 ∷ body s)
unfolding marshal_binary
marshal_binary_lem s f =
    rw
      (
        same,
        le→ltb (2 ^ 32 - 1) (length (content s)) (omega (arith, f.content_fits)),
        mod-eq_of_lt {n = length (content s)} {m = 2 ^ 32} (omega (arith, f.content_fits)),
        length_bytes_lem (length (content s)) f.content_fits,
      )
      (marshal_lem (length (content s) + length prefix + 1) writes
        (omega (arith, length-append prefix (content s))))
  where
    prefix : List ℕ
    prefix = uvarint (length (content s))

    same : payload_length s.topics + 2 ≡ length (content s)
    same = omega (arith, length-topics_bytes s.topics)

    writes : Writes (fill s prefix) (0x82 ∷ body s)
    writes = Writes->> (Writes-store 0x82) (
        Writes->> (Writes-emit (Fills-copy prefix)) (
          Writes->> (Writes-emit (Fills-put_uint16 s.packet_identifier))
            (topics-Writes s.topics f.names_fit)))

-- Where the lengths add up to 2 ^ 32 or more, ErrPacketLong is returned, and from 2 ^ 28 on the error
-- that EncodeUvarint recovers from.
pub marshal_binary_refuses :
    (s : Subscribe)
    → 2 ^ 28 ≤ payload_length s.topics + 2
    → marshal_binary s
      ≡ (if ltb (payload_length s.topics + 2) (2 ^ 32) then err runtime else err packet_long)
unfolding marshal_binary
marshal_binary_refuses s h = ground (arith, length_bytes_too_long (payload_length s.topics + 2))
