-- ===== src/Packets/Publish.antt =====
-- Publish of packets/publish.go.
pub mod Marshal
pub mod Reads
pub mod EmptyPayload
use mqttie.Prelude.{ℕ, ◌+◌, ◌-◌, ◌*◌, ◌%◌, ◌^◌, List, Bool, ltb, leb, if◌then◌else◌, length, bit_or}
use mqttie.Mqtt.{Topic, packet_short}
use mqttie.Go.Outcome
use mqttie.Go.Outcome.{Outcome}
use mqttie.Go.Slice.{make, make_rest, copy, uint16, put_uint16}
use mqttie.Go.Encoder.{Enc, marshal, store, emit, skip, ◌>>◌}
use mqttie.Go.Stream.{Reader, Writer, Io, pure, fail, lift, counted, ◌>>=◌, read}
use mqttie.Util.Varint.{length_bytes, read_varint}
use mqttie.Util.Utf8.{encode_utf8, read_utf8}
use mqttie.Packets.Frame.{cmd_publish, write_marshalled}

abbrev pub flag_duplicate : ℕ
flag_duplicate = 0x08

abbrev pub flag_retain : ℕ
flag_retain = 0x01

pub record Publish : Type 0 where
  pub topic : Topic
  pub version : ℕ
  pub duplicate : Bool
  pub retain : Bool
  pub packet_identifier : ℕ
  pub payload : List ℕ

-- The command byte with its flags; `uint8(p.QoS) << 1` keeps eight bits.
unfoldable pub fixed_header : Publish → ℕ
fixed_header p =
    let h0 = if p.duplicate then bit_or cmd_publish flag_duplicate else cmd_publish in
    let h1 = if ltb 0 p.topic.qos then bit_or h0 (p.topic.qos * 2 % 2 ^ 8) else h0 in
    if p.retain then bit_or h1 flag_retain else h1

-- remLength, a uint32
unfoldable pub rem_length : Publish → ℕ
rem_length p =
    let n = (length p.topic.name + 2 + length p.payload) % 2 ^ 32 in
    if ltb 0 p.topic.qos then (n + 2) % 2 ^ 32 else n

abbrev pub fill : Publish → List ℕ → Enc
fill p prefix =
    store (fixed_header p)
    >> emit (copy prefix)
    >> emit (encode_utf8 p.topic.name)
    >> (if ltb 0 p.topic.qos then emit (put_uint16 p.packet_identifier) else skip)
    >> emit (copy p.payload)

unfoldable pub marshal_binary : Publish → Outcome (List ℕ)
marshal_binary p =
    Outcome.◌>>=◌ (length_bytes (rem_length p))
      λ prefix. marshal (rem_length p + length prefix + 1) (fill p prefix)

unfoldable pub write_to : (W : Writer) → Publish → Io W.Sink (Unit {0})
write_to W p = write_marshalled W (marshal_binary p)

-- `length` of the source is `rem - used`, with which make panics where it is negative.
unfoldable pub read_payload : (R : Reader) → Publish → ℕ → ℕ → Io R.Stream Publish
read_payload R p rem used = do
  room ← lift (make_rest rem used)
  payload ← read R room
  pure (record p { payload = payload })

-- What follows the topic name, of which `used` bytes of the remaining length are read.
unfoldable pub read_content : (R : Reader) → Publish → ℕ → ℕ → Io R.Stream Publish
read_content R p rem used =
    if ltb 0 p.topic.qos
    then (do
      (buf, k) ← counted (read R (make 2))
      if ltb rem (used + k)
          then fail packet_short
          else read_payload R (record p { packet_identifier = uint16 buf }) rem (used + k))
    else read_payload R p rem used

-- The flags and the QoS are those of the receiver: Recv takes them from the command byte.
unfoldable pub read_from : (R : Reader) → Publish → Io R.Stream Publish
read_from R p = do
  rem ← read_varint R
  (name, n) ← counted (read_utf8 R)
  if leb rem n
      then fail packet_short
      else read_content R (record p { topic = record { name = name; qos = p.topic.qos } }) rem n
