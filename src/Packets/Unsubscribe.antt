-- ===== src/Packets/Unsubscribe.antt =====
-- Unsubscribe of packets/subscribe.go.
pub mod RoundTrip
pub mod Ends
use mqttie.Prelude.{
  ℕ, zero, suc, ◌+◌, ◌%◌, ◌^◌, List, [], ◌∷◌, ◌++◌, ltb, leb, ◌==◌, if◌then◌else◌, length, bit_or,
}
use mqttie.Mqtt.{packet_short, mqtt_v311}
use mqttie.Go.Outcome
use mqttie.Go.Outcome.{Outcome, stuck}
use mqttie.Go.Slice.{make, copy, uint16, put_uint16}
use mqttie.Go.Encoder.{Enc, marshal, store, emit, skip, ◌>>◌}
use mqttie.Go.Stream.{Reader, Writer, Io, pure, fail, lift, counted, ◌>>=◌, read}
use mqttie.Util.Varint.{length_bytes, read_varint}
use mqttie.Util.Utf8.{encode_utf8, read_utf8}
use mqttie.Packets.Frame.{cmd_unsubscribe, write_marshalled}

pub record Unsubscribe : Type 0 where
  pub version : ℕ
  pub packet_identifier : ℕ
  pub topics : List (List ℕ)

unfoldable pub payload_length : List (List ℕ) → ℕ
payload_length [] = 0
payload_length (t ∷ ts) = length t + 2 + payload_length ts

unfoldable pub fill_topics : List (List ℕ) → Enc
fill_topics [] = skip
fill_topics (t ∷ ts) = emit (encode_utf8 t) >> fill_topics ts

unfoldable pub fixed_header : Unsubscribe → ℕ
fixed_header u = if u.version == mqtt_v311 then bit_or cmd_unsubscribe 0x02 else cmd_unsubscribe

abbrev pub fill : Unsubscribe → List ℕ → Enc
fill u prefix =
    store (fixed_header u)
    >> emit (copy prefix)
    >> emit (put_uint16 u.packet_identifier)
    >> fill_topics u.topics

unfoldable pub marshal_binary : Unsubscribe → Outcome (List ℕ)
marshal_binary u =
    let rem = 2 + payload_length u.topics in
    Outcome.◌>>=◌ (length_bytes (rem % 2 ^ 32))
      λ prefix. marshal (length prefix + rem + 1) (fill u prefix)

unfoldable pub write_to : (W : Writer) → Unsubscribe → Io W.Sink (Unit {0})
write_to W u = write_marshalled W (marshal_binary u)

-- The loop `for length > 0`, where `length` is `rem - used`. `stuck` says that the fuel ran out.
unfoldable pub read_topics : (R : Reader) → ℕ → ℕ → ℕ → List (List ℕ) → Io R.Stream (List (List ℕ))
read_topics R zero rem used topics = if ltb used rem then lift stuck else pure topics
read_topics R (suc fuel) rem used topics =
    if ltb used rem
    then (do
      (topic, n) ← counted (read_utf8 R)
      if ltb rem (used + n)
          then fail packet_short
          else read_topics R fuel rem (used + n) (topics ++ topic ∷ []))
    else pure topics

-- Every round takes two bytes at least, so `rem` rounds are enough. The identifier that is read into
-- `buf` is not stored: the receiver keeps its own.
unfoldable pub read_from : (R : Reader) → Unsubscribe → Io R.Stream Unsubscribe
read_from R u = do
  rem ← read_varint R
  (buf, n) ← counted (read R (make 2))
  if leb rem n
      then fail packet_short
      else do topics ← read_topics R rem rem n []; pure (record u { topics = topics })
