-- ===== src/Tests/Connects.antt =====
-- The theorems on connect packets at concrete inputs.
use mqttie.Prelude.{◌≡◌, refl, [], ◌∷◌, none, some, true, arith}
use mqttie.Mqtt.{mqtt_v311, mqtt_v5}
use mqttie.Go.Outcome.{ok}
use mqttie.Go.Slice.{uvarint_bytes}
use mqttie.Go.Stream.Reads.{Reads}
use mqttie.Packets.Frame.{cmd_connect}
use mqttie.Packets.Connect.{Connect}
use mqttie.Packets.Connect.Length.{with_client_id}
use mqttie.Packets.Connect.Marshal.{marshal_binary as connect_marshal}
use mqttie.Packets.Connect.Bytes.{body, Fits}
use mqttie.Packets.Connect.Exact.{connect_marshal_binary}
use mqttie.Packets.PacketIo.{connect, new_connect, marshal_binary, recv}
use mqttie.Packets.PacketIo.ConnectRoundTrip.{ConnectWire, recv-connect}
use mqttie.Tests.Connections.{buffer, buffered}

-- A packet of version 3.1.1 with a will, a username and a password.
abbrev plain : Connect
plain = record (new_connect mqtt_v311) {
  clean_session = true;
  keep_alive = 600;
  client_id = b'm' ∷ b'e' ∷ [];
  will_topic = record { name = b'w' ∷ []; qos = 1 };
  will_message = b'b' ∷ b'y' ∷ b'e' ∷ [];
  will_retain = true;
  username = b'u' ∷ [];
  password = b'p' ∷ [];
}

plain-Fits : Fits plain
plain-Fits = record {
  known = omega arith;
  id_fits = omega arith;
  name_fits = omega arith;
  message_fits = omega arith;
  username_fits = omega arith;
  password_fits = omega arith;
  method_fits = omega arith;
  data_fits = tt;
  users_fit = tt;
  type_fits = omega arith;
  response_fits = omega arith;
  correlation_fits = tt;
  will_users_fit = tt;
  content_fits = omega arith;
}

plain-ConnectWire : ConnectWire plain
plain-ConnectWire = record {
  version = refl;
  named = refl;
  qos = omega arith;
  keep_alive = omega arith;
  fits = plain-Fits;
}

recv-connect_example :
    (marshal_binary [] (connect plain) ≡ ok (cmd_connect ∷ body plain))
    × Reads buffered (recv buffer none 0 mqtt_v5) (cmd_connect ∷ body plain) (connect plain)
recv-connect_example = recv-connect buffered 0 mqtt_v5 [] plain plain-ConnectWire

-- A packet of version 5 without an identifier, with properties of the connection and of the will.
abbrev rich : Connect
rich = record (new_connect mqtt_v5) {
  session_expiry_interval = 3600;
  receive_max = 10;
  disable_problem_info = true;
  conn_user_properties = (b'k' ∷ [], b'v' ∷ []) ∷ [];
  auth_data = some (1 ∷ 2 ∷ []);
  will_topic = record { name = b'w' ∷ []; qos = 2 };
  will_message = b'x' ∷ [];
  will_delay_interval = 5;
  will_response_topic = b'r' ∷ [];
  will_correlation_data = some (9 ∷ []);
  password = b'p' ∷ [];
}

rich-Fits : Fits (with_client_id (b'i' ∷ []) rich)
unfolding with_client_id uvarint_bytes
rich-Fits = record {
  known = omega arith;
  id_fits = omega arith;
  name_fits = omega arith;
  message_fits = omega arith;
  username_fits = omega arith;
  password_fits = omega arith;
  method_fits = omega arith;
  data_fits = omega arith;
  users_fit = ((omega arith, omega arith), tt);
  type_fits = omega arith;
  response_fits = omega arith;
  correlation_fits = omega arith;
  will_users_fit = tt;
  content_fits = omega arith;
}

connect_marshal_binary_example :
    connect_marshal (b'i' ∷ []) rich ≡ ok (cmd_connect ∷ body (with_client_id (b'i' ∷ []) rich))
connect_marshal_binary_example = connect_marshal_binary (b'i' ∷ []) rich (omega arith) rich-Fits
