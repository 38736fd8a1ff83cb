-- ===== src/Packets/PacketIo.antt =====
-- packets/io.go: the Packet interface as one data type, and Send and Recv of PacketIO. The two mutexes
-- admit one Send and one Recv at a time, so each is one action here.
pub mod RoundTrip
pub mod ConnectRoundTrip
pub mod Commands
pub mod Ends
pub mod Link
use mqttie.Prelude.{
  ℕ, List, [], Option, none, some, Bool, true, false, ltb, ◌==◌, if◌then◌else◌, get_or, bit_and,
  ◌/◌,
}
use mqttie.Mqtt.{Error, invalid_command}
use mqttie.Go.Outcome.{Outcome, ok, err}
use mqttie.Go.Slice.{make}
use mqttie.Go.Stream.{Reader, Writer, Io, pure, fail, value_of, ◌>>=◌, ◌>>◌, read}
use mqttie.Packets.Frame.{
  cmd_connect, cmd_conn_ack, cmd_publish, cmd_pub_ack, cmd_pub_rec, cmd_pub_rel, cmd_pub_comp,
}
use mqttie.Packets.Frame.{
  cmd_subscribe, cmd_sub_ack, cmd_unsubscribe, cmd_unsub_ack, cmd_ping_req, cmd_ping_resp,
}
use mqttie.Packets.Frame.{cmd_disconnect, write_marshalled}
use mqttie.Packets
use mqttie.Packets.Connect.{Connect}
use mqttie.Packets.Connect.Read
use mqttie.Packets.Connect.Marshal
use mqttie.Packets.ConnAck.{ConnAck}
use mqttie.Packets.Publish.{Publish, flag_duplicate, flag_retain}
use mqttie.Packets.PubAck.{PubAck}
use mqttie.Packets.PubRec.{PubRec}
use mqttie.Packets.PubRel.{PubRel}
use mqttie.Packets.PubComp.{PubComp}
use mqttie.Packets.Subscribe.{Subscribe}
use mqttie.Packets.SubAck.{SubAck}
use mqttie.Packets.Unsubscribe.{Unsubscribe}
use mqttie.Packets.UnsubAck.{UnsubAck}
use mqttie.Packets.PingReq.{PingReq}
use mqttie.Packets.PingResp.{PingResp}
use mqttie.Packets.Disconnect.{Disconnect}

-- A Packet: a pointer to one of the structs.
pub data Packet : Type 0 where
  connect : Connect → Packet
  conn_ack : ConnAck → Packet
  publish : Publish → Packet
  pub_ack : PubAck → Packet
  pub_rec : PubRec → Packet
  pub_rel : PubRel → Packet
  pub_comp : PubComp → Packet
  subscribe : Subscribe → Packet
  sub_ack : SubAck → Packet
  unsubscribe : Unsubscribe → Packet
  unsub_ack : UnsubAck → Packet
  ping_req : PingReq → Packet
  ping_resp : PingResp → Packet
  disconnect : Disconnect → Packet

-- The method call p.MarshalBinary(). `uuid` is what uuid.NewV4 returns to a Connect with no identifier.
unfoldable pub marshal_binary : List ℕ → Packet → Outcome (List ℕ)
marshal_binary uuid (connect p) = Marshal.marshal_binary uuid p
marshal_binary uuid (conn_ack p) = Packets.ConnAck.marshal_binary p
marshal_binary uuid (publish p) = Packets.Publish.marshal_binary p
marshal_binary uuid (pub_ack p) = Packets.PubAck.marshal_binary p
marshal_binary uuid (pub_rec p) = Packets.PubRec.marshal_binary p
marshal_binary uuid (pub_rel p) = Packets.PubRel.marshal_binary p
marshal_binary uuid (pub_comp p) = Packets.PubComp.marshal_binary p
marshal_binary uuid (subscribe p) = Packets.Subscribe.marshal_binary p
marshal_binary uuid (sub_ack p) = Packets.SubAck.marshal_binary p
marshal_binary uuid (unsubscribe p) = Packets.Unsubscribe.marshal_binary p
marshal_binary uuid (unsub_ack p) = Packets.UnsubAck.marshal_binary p
marshal_binary uuid (ping_req p) = Packets.PingReq.marshal_binary p
marshal_binary uuid (ping_resp p) = Packets.PingResp.marshal_binary p
marshal_binary uuid (disconnect p) = Packets.Disconnect.marshal_binary p

-- SetReadDeadline or SetWriteDeadline of the connection, called if the timeout is positive.
abbrev pub Deadline : Type 0 → Type 0
Deadline S = Option (S → Option Error × S)

unfoldable pub set_deadline : {S : Type 0} → Deadline S → Io S (Unit {0})
set_deadline none s = (0, ok tt, s)
set_deadline (some call) s = let (e, s') = call s in (0, value_of tt e, s')

-- Send
unfoldable pub send : (W : Writer) → Deadline W.Sink → List ℕ → Packet → Io W.Sink (Unit {0})
send W deadline uuid p = set_deadline deadline >> write_marshalled W (marshal_binary uuid p)

-- &Connect{Version: p.version}, and the other receivers: every other field has its zero value.
abbrev pub new_connect : ℕ → Connect
new_connect version = record {
  version = version;
  clean_session = false;
  keep_alive = 0;
  will_topic = record { name = []; qos = 0 };
  will_message = [];
  will_retain = false;
  client_id = [];
  username = [];
  password = [];
  session_expiry_interval = 0;
  max_packet_size = 0;
  receive_max = 0;
  topic_alias_max = 0;
  request_response_info = false;
  disable_problem_info = false;
  conn_user_properties = [];
  auth_method = [];
  auth_data = none;
  will_delay_interval = 0;
  will_message_expiry = 0;
  will_format_utf8 = false;
  will_content_type = [];
  will_response_topic = [];
  will_correlation_data = none;
  will_user_properties = [];
}

-- The receiver of a publish packet has the flags of the command byte.
abbrev pub new_publish : ℕ → ℕ → Publish
new_publish version byte = record {
  topic = record { name = []; qos = bit_and byte 0x06 / 2 };
  version = version;
  duplicate = ltb 0 (bit_and byte flag_duplicate);
  retain = ltb 0 (bit_and byte flag_retain);
  packet_identifier = 0;
  payload = [];
}

-- The switch of Recv. `fuel` bounds the rounds in which Connect drains the connection.
unfoldable pub recv_body : (R : Reader) → ℕ → ℕ → ℕ → Io R.Stream Packet
recv_body R fuel v byte =
    let cmd = bit_and byte 0xF0 in
    if cmd == cmd_connect
    then Read.read_from R fuel (new_connect v) >>= (λ p. pure (connect p))
    else if cmd == cmd_conn_ack
    then Packets.ConnAck.read_from R
        (record { session_present = false; return_code = 0; version = v })
      >>= (λ p. pure (conn_ack p))
    else if cmd == cmd_publish
    then Packets.Publish.read_from R (new_publish v byte) >>= (λ p. pure (publish p))
    else if cmd == cmd_pub_ack
    then Packets.PubAck.read_from R (record { version = v; packet_identifier = 0 })
      >>= (λ p. pure (pub_ack p))
    else if cmd == cmd_pub_rec
    then Packets.PubRec.read_from R (record { version = v; packet_identifier = 0 })
      >>= (λ p. pure (pub_rec p))
    else if cmd == cmd_pub_rel
    then Packets.PubRel.read_from R (record { version = v; packet_identifier = 0 })
      >>= (λ p. pure (pub_rel p))
    else if cmd == cmd_pub_comp
    then Packets.PubComp.read_from R (record { version = v; packet_identifier = 0 })
      >>= (λ p. pure (pub_comp p))
    else if cmd == cmd_subscribe
    then Packets.Subscribe.read_from R (record { version = v; packet_identifier = 0; topics = [] })
      >>= (λ p. pure (subscribe p))
    else if cmd == cmd_sub_ack
    then Packets.SubAck.read_from R
        (record { version = v; packet_identifier = 0; return_codes = [] })
      >>= (λ p. pure (sub_ack p))
    else if cmd == cmd_unsubscribe
    then Packets.Unsubscribe.read_from R
        (record { version = v; packet_identifier = 0; topics = [] })
      >>= (λ p. pure (unsubscribe p))
    else if cmd == cmd_unsub_ack
    then Packets.UnsubAck.read_from R (record { version = v; packet_identifier = 0 })
      >>= (λ p. pure (unsub_ack p))
    else if cmd == cmd_ping_req
    then Packets.PingReq.read_from R (record { version = v }) >>= (λ p. pure (ping_req p))
    else if cmd == cmd_ping_resp
    then Packets.PingResp.read_from R (record { version = v }) >>= (λ p. pure (ping_resp p))
    else if cmd == cmd_disconnect
    then Packets.Disconnect.read_from R (record { version = v }) >>= (λ p. pure (disconnect p))
    else fail (invalid_command cmd)

-- Recv, on a connection of version `v`
unfoldable pub recv : (R : Reader) → Deadline R.Stream → ℕ → ℕ → Io R.Stream Packet
recv R deadline fuel v = do
  set_deadline deadline
  buf ← read R (make 1)
  recv_body R fuel v (get_or buf 0 0)
