-- ===== src/Packets/Disconnect.antt =====
-- Disconnect of packets/connect.go.
pub mod Reads
use mqttie.Prelude.{ℕ, List, [], ◌∷◌, ◌==◌, if◌then◌else◌, get_or}
use mqttie.Mqtt.{unexpected_payload}
use mqttie.Go.Outcome.{Outcome, ok}
use mqttie.Go.Slice.{make}
use mqttie.Go.Stream.{Reader, Writer, Io, pure, fail, lift, value_of, ◌>>=◌, read_raw}
use mqttie.Packets.Frame.{cmd_disconnect, write_marshalled}

pub record Disconnect : Type 0 where
  pub version : ℕ

unfoldable pub marshal_binary : Disconnect → Outcome (List ℕ)
marshal_binary d = ok (cmd_disconnect ∷ 0 ∷ [])

unfoldable pub write_to : (W : Writer) → Disconnect → Io W.Sink (Unit {0})
write_to W d = write_marshalled W (marshal_binary d)

-- The byte is tested before the error of Read is returned.
unfoldable pub read_from : (R : Reader) → Disconnect → Io R.Stream Disconnect
read_from R d = do
  (b, e) ← read_raw R (make 1)
  if get_or b 0 0 == 0 then lift (value_of d e) else fail unexpected_payload
