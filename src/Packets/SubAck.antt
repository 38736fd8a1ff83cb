-- ===== src/Packets/SubAck.antt =====
-- SubAck of packets/subscribe.go.
pub mod RoundTrip
use mqttie.Prelude.{ℕ, zero, suc, ◌+◌, ◌-◌, ◌%◌, ◌^◌, List, [], ◌∷◌, leb, if◌then◌else◌, length}
use mqttie.Mqtt.{packet_short}
use mqttie.Go.Outcome
use mqttie.Go.Outcome.{Outcome}
use mqttie.Go.Slice.{make, make_rest, copy, uint16, put_uint16}
use mqttie.Go.Encoder.{Enc, marshal, store, emit, skip, ◌>>◌}
use mqttie.Go.Stream.{Reader, Writer, Io, pure, fail, lift, counted, ◌>>=◌, read}
use mqttie.Util.Varint.{length_bytes, read_varint}
use mqttie.Packets.Frame.{cmd_sub_ack, write_marshalled}

pub record SubAck : Type 0 where
  pub version : ℕ
  pub packet_identifier : ℕ
  pub return_codes : List ℕ

-- for _, code := range s.ReturnCodes { b[i] = code; i++ }
unfoldable pub fill_codes : List ℕ → Enc
fill_codes [] = skip
fill_codes (code ∷ codes) = store code >> fill_codes codes

abbrev pub fill : SubAck → List ℕ → Enc
fill s prefix =
    store cmd_sub_ack
    >> emit (copy prefix)
    >> emit (put_uint16 s.packet_identifier)
    >> fill_codes s.return_codes

unfoldable pub marshal_binary : SubAck → Outcome (List ℕ)
marshal_binary s =
    let rem = length s.return_codes + 2 in
    Outcome.◌>>=◌ (length_bytes (rem % 2 ^ 32))
      λ prefix. marshal (length prefix + rem + 1) (fill s prefix)

unfoldable pub write_to : (W : Writer) → SubAck → Io W.Sink (Unit {0})
write_to W s = write_marshalled W (marshal_binary s)

unfoldable pub read_from : (R : Reader) → SubAck → Io R.Stream SubAck
read_from R s = do
  rem ← read_varint R
  (buf, n) ← counted (read R (make 2))
  if leb rem n then fail packet_short else do
    room ← lift (make_rest rem n)
    codes ← read R room
    pure (record s { packet_identifier = uint16 buf; return_codes = codes })
