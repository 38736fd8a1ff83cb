-- ===== src/Packets/PacketIo/ConnectRoundTrip.antt =====
-- Recv reads back a connect packet of version 3.1.1.
use mqttie.Prelude.{ℕ, ◌<◌, ◌≤◌, ◌^◌, ◌≡◌, refl, List, [], ◌∷◌, none, true, length, arith}
use mqttie.Mqtt.{mqtt_v311}
use mqttie.Go.Outcome.{ok}
use mqttie.Go.Stream.{Reader}
use mqttie.Go.Stream.Reads.{Buffered, Reads}
use mqttie.Packets.Frame.{cmd_connect}
use mqttie.Packets.Connect.{Connect}
use mqttie.Packets.Connect.Length.{nonempty, with_client_id}
use mqttie.Packets.Connect.Bytes.{body, Fits}
use mqttie.Packets.Connect.Exact.{connect_marshal_binary}
use mqttie.Packets.Connect.RoundTrip.{received, Reads-connect_read_from}
use mqttie.Packets.PacketIo.{connect, new_connect, marshal_binary, recv_body, recv}
use mqttie.Packets.PacketIo.RoundTrip.{Reads-map, Reads-recv}

-- A connect packet of version 3.1.1 that the wire can carry: a client identifier, a QoS up to 2, a
-- keep-alive of sixteen bits, and lengths that fit.
pub record ConnectWire (c : Connect) : Type 0 where
  pub version : c.version ≡ mqtt_v311
  pub named : nonempty c.client_id ≡ true
  pub qos : c.will_topic.qos ≤ 2
  pub keep_alive : c.keep_alive < 2 ^ 16
  pub fits : Fits c

nonempty-length : (s : List ℕ) → nonempty s ≡ true → 0 < length s
nonempty-length [] e = cc
nonempty-length (x ∷ s) e = omega arith

-- For every connect packet of version 3.1.1 that the wire can carry MarshalBinary returns the packet's
-- bytes, and Recv consumes exactly those bytes and returns the packet, without the will of a packet that
-- has no will topic and without a password that has no username.
pub recv-connect :
    {R : Reader} (B : Buffered R) (fuel v : ℕ) (uuid : List ℕ) (c : Connect)
    → ConnectWire c
    → (marshal_binary uuid (connect c) ≡ ok (cmd_connect ∷ body c))
      × Reads B (recv R none fuel v) (cmd_connect ∷ body c) (connect (received (new_connect v) c))
unfolding recv_body marshal_binary with_client_id
recv-connect B fuel v uuid c w =
    let same : with_client_id uuid c ≡ c = rw (with_client_id, w.named) refl in
    (
      rw same at (connect_marshal_binary uuid c w.qos (rw same w.fits)),
      Reads-recv B fuel v cmd_connect (
          Reads-map B fuel v connect (
            Reads-connect_read_from B fuel (new_connect v) c w.version w.qos w.keep_alive
              (nonempty-length c.client_id w.named) w.fits)),
    )
