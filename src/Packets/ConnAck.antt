-- ===== src/Packets/ConnAck.antt =====
-- ConnAck of packets/connect.go.
pub mod Reads
pub mod ShortRead
use mqttie.Prelude.{
  ℕ, ◌<◌, List, [], ◌∷◌, Bool, true, false, ltb, if◌then◌else◌, get_or, bit_and, bit_or,
}
use mqttie.Mqtt.{packet_short, packet_long, connack_flags}
use mqttie.Go.Outcome.{Outcome, ok}
use mqttie.Go.Slice.{make}
use mqttie.Go.Stream.{Reader, Writer, Io, pure, fail, ◌>>=◌, read}
use mqttie.Packets.Frame.{cmd_conn_ack, write_marshalled}

abbrev pub flag_session_present : ℕ
flag_session_present = 0x01

-- ConnAck status codes
abbrev pub accepted : ℕ
accepted = 0x00

abbrev pub bad_version : ℕ
bad_version = 0x01

abbrev pub id_not_allowed : ℕ
id_not_allowed = 0x02

abbrev pub server_unavail : ℕ
server_unavail = 0x03

abbrev pub bad_credentials : ℕ
bad_credentials = 0x04

abbrev pub unauthorized : ℕ
unauthorized = 0x05

pub record ConnAck : Type 0 where
  pub session_present : Bool
  pub return_code : ℕ
  pub version : ℕ

unfoldable pub marshal_binary : ConnAck → Outcome (List ℕ)
marshal_binary c = ok (
    cmd_conn_ack
    ∷ 2
    ∷ (if c.session_present then bit_or 0 flag_session_present else 0)
    ∷ c.return_code
    ∷ [])

unfoldable pub write_to : (W : Writer) → ConnAck → Io W.Sink (Unit {0})
write_to W c = write_marshalled W (marshal_binary c)

-- One Read into `var raw [3]byte`. The flag is set, and never cleared.
unfoldable pub read_from : (R : Reader) → ConnAck → Io R.Stream ConnAck
read_from R c = do
  raw ← read R (make 3)
  let flags = get_or raw 1 0
  if ltb 2 (get_or raw 0 0)
      then fail packet_long
      else if ltb (get_or raw 0 0) 2
      then fail packet_short
      else if ltb flag_session_present flags
      then fail (connack_flags flags)
      else pure (record c {
        session_present =
            if ltb 0 (bit_and flags flag_session_present) then true else c.session_present;
        return_code = get_or raw 2 0;
      })
