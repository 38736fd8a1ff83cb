-- ===== src/Packets/Subscribe.antt =====
-- Subscribe of packets/subscribe.go.
pub mod Marshal
pub mod Reads
pub mod Ends
use mqttie.Prelude.{
  ℕ, zero, suc, ◌+◌, ◌-◌, ◌%◌, ◌^◌, List, [], ◌∷◌, ◌++◌, ltb, leb, if◌then◌else◌, length, bit_or,
}
use mqttie.Prelude.{get_or, drop}
use mqttie.Mqtt.{Topic, packet_short, packet_long}
use mqttie.Go.Outcome
use mqttie.Go.Outcome.{Outcome, err, stuck}
use mqttie.Go.Slice.{make, copy, uint16, put_uint16}
use mqttie.Go.Encoder.{Enc, marshal, store, emit, skip, ◌>>◌}
use mqttie.Go.Stream.{Reader, Writer, Io, pure, fail, lift, counted, ◌>>=◌, read}
use mqttie.Util.Varint.{length_bytes, read_varint}
use mqttie.Util.Utf8.{encode_utf8, read_utf8}
use mqttie.Packets.Frame.{cmd_subscribe, write_marshalled}

pub record Subscribe : Type 0 where
  pub version : ℕ
  pub packet_identifier : ℕ
  pub topics : List Topic

-- The topics with their lengths and QoS bytes; the source adds up in an int64.
unfoldable pub payload_length : List Topic → ℕ
payload_length [] = 0
payload_length (t ∷ ts) = length t.name + 3 + payload_length ts

-- byte(topic.QoS): a QoS is a uint8 already.
unfoldable pub fill_topics : List Topic → Enc
fill_topics [] = skip
fill_topics (t ∷ ts) = emit (encode_utf8 t.name) >> store t.qos >> fill_topics ts

abbrev pub fill : Subscribe → List ℕ → Enc
fill s prefix =
    store (bit_or cmd_subscribe 0x02)
    >> emit (copy prefix)
    >> emit (put_uint16 s.packet_identifier)
    >> fill_topics s.topics

unfoldable pub marshal_binary : Subscribe → Outcome (List ℕ)
marshal_binary s =
    let remaining = payload_length s.topics + 2 in
    if ltb (2 ^ 32 - 1) remaining
    then err packet_long
    else Outcome.◌>>=◌ (length_bytes (remaining % 2 ^ 32))
        λ prefix. marshal (remaining + length prefix + 1) (fill s prefix)

unfoldable pub write_to : (W : Writer) → Subscribe → Io W.Sink (Unit {0})
write_to W s = write_marshalled W (marshal_binary s)

-- The loop `for length > 0`, where `length` is `rem - used`; `buf` keeps its bytes from round to
-- round. `stuck` says that the fuel ran out.
unfoldable pub read_topics :
    (R : Reader) → ℕ → ℕ → ℕ → List ℕ → List Topic → Io R.Stream (List Topic)
read_topics R zero rem used buf topics = if ltb used rem then lift stuck else pure topics
read_topics R (suc fuel) rem used buf topics =
    if ltb used rem
    then (do
      (name, n) ← counted (read_utf8 R)
      (first, k) ← counted (read R (get_or buf 0 0 ∷ []))
      if ltb rem (used + n + k)
          then fail packet_short
          else read_topics R fuel rem (used + n + k) (first ++ drop 1 buf)
              (topics ++ record { name = name; qos = get_or first 0 0 } ∷ []))
    else pure topics

-- Every round takes two bytes at least, so `rem` rounds are enough.
unfoldable pub read_from : (R : Reader) → Subscribe → Io R.Stream Subscribe
read_from R s = do
  rem ← read_varint R
  (buf, n) ← counted (read R (make 2))
  if leb rem n then fail packet_short else do
    topics ← read_topics R rem rem n buf []
    pure (record s { packet_identifier = uint16 buf; topics = topics })
