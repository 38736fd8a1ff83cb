-- ===== src/Packets/PacketIo/Link.antt =====
-- The struct PacketIO of packets/io.go: a connection with its version and timeout.
use mqttie.Prelude.{ℕ, List, Option, none, some, if◌then◌else◌}
use mqttie.Prelude.Int.{ℤ, is_pos}
use mqttie.Mqtt.{Error}
use mqttie.Go.Outcome.{Outcome}
use mqttie.Go.Conn.{Conn}
use mqttie.Packets.PacketIo.{Packet, Deadline, send, recv}

-- The two mutexes admit one Send and one Recv at a time; each is one action, and they have no field.
pub record PacketIo (C : Conn) : Type 0 where
  pub timeout : ℤ
  pub version : ℕ
  pub stream : C.reader.Stream
  pub sink : C.writer.Sink

module _ (C : Conn) where
  -- NewPacketIO, on a connection in the state that the two halves are in
  unfoldable pub new_packet_io : C.reader.Stream → C.writer.Sink → ℕ → ℤ → PacketIo C
  new_packet_io stream sink version timeout = record {
    timeout = timeout;
    version = version;
    stream = stream;
    sink = sink;
  }

  -- `if p.timeout > time.Duration(0)`
  abbrev pub deadline : {S : Type 0} → ℤ → (S → Option Error × S) → Deadline S
  deadline timeout call = if is_pos timeout then some call else none

  -- p.Send(pkt); `uuid` is what uuid.NewV4 returns.
  unfoldable pub send_packet : List ℕ → Packet → PacketIo C → Outcome (Unit {0}) × PacketIo C
  send_packet uuid pkt p =
      let (n, r, sink) = send C.writer (deadline p.timeout C.set_write_deadline) uuid pkt p.sink in
      (r, record p { sink = sink })

  -- p.Recv(); `fuel` is that of a Connect that is received.
  unfoldable pub recv_packet : ℕ → PacketIo C → Outcome Packet × PacketIo C
  recv_packet fuel p =
      let (n, r, stream) =
        recv C.reader (deadline p.timeout C.set_read_deadline) fuel p.version p.stream in
      (r, record p { stream = stream })

  -- p.Close()
  unfoldable pub close : PacketIo C → Option Error × PacketIo C
  close p =
      let (e, stream, sink) = C.close p.stream p.sink in
      (e, record p { stream = stream; sink = sink })
