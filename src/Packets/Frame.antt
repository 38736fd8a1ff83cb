-- ===== src/Packets/Frame.antt =====
-- What the packets of packets/*.go share: command bytes, the packet with nothing but an identifier,
-- and WriteTo.
pub mod Reads
use mqttie.Prelude.{ℕ, ◌+◌, List, ◌++◌, ltb, if◌then◌else◌, get_or}
use mqttie.Mqtt.{packet_short, packet_long}
use mqttie.Go.Outcome.{Outcome}
use mqttie.Go.Slice.{make, uint16, put_uint16}
use mqttie.Go.Encoder.{Enc, marshal, store, emit, ◌>>◌}
use mqttie.Go.Stream
use mqttie.Go.Stream.{Reader, Writer, Io, pure, fail, lift, read, write}

abbrev pub cmd_connect : ℕ
cmd_connect = 0x10

abbrev pub cmd_conn_ack : ℕ
cmd_conn_ack = 0x20

abbrev pub cmd_publish : ℕ
cmd_publish = 0x30

abbrev pub cmd_pub_ack : ℕ
cmd_pub_ack = 0x40

abbrev pub cmd_pub_rec : ℕ
cmd_pub_rec = 0x50

abbrev pub cmd_pub_rel : ℕ
cmd_pub_rel = 0x60

abbrev pub cmd_pub_comp : ℕ
cmd_pub_comp = 0x70

abbrev pub cmd_subscribe : ℕ
cmd_subscribe = 0x80

abbrev pub cmd_sub_ack : ℕ
cmd_sub_ack = 0x90

abbrev pub cmd_unsubscribe : ℕ
cmd_unsubscribe = 0xA0

abbrev pub cmd_unsub_ack : ℕ
cmd_unsub_ack = 0xB0

abbrev pub cmd_ping_req : ℕ
cmd_ping_req = 0xC0

abbrev pub cmd_ping_resp : ℕ
cmd_ping_resp = 0xD0

abbrev pub cmd_disconnect : ℕ
cmd_disconnect = 0xE0

-- b = make([]byte, 4): the command byte, the remaining length 2 and the packet identifier.
unfoldable pub marshal_id : ℕ → ℕ → Outcome (List ℕ)
marshal_id command id = marshal 4 (store command >> store 2 >> emit (put_uint16 id))

-- The body of ReadFrom of the four publish responses: a one-byte length into `buf[:1]`, then the
-- identifier into the two bytes of `buf`.
unfoldable pub read_id : (R : Reader) → Io R.Stream ℕ
read_id R = Stream.◌>>=◌ (read R (make 1)) λ b.
    if ltb (get_or b 0 0) 2
    then fail packet_short
    else if ltb 2 (get_or b 0 0)
    then fail packet_long
    else Stream.◌>>=◌ (read R (b ++ make 1)) λ buf. pure (uint16 buf)

-- WriteTo of every packet: the marshalled bytes in one Write.
unfoldable pub write_marshalled : (W : Writer) → Outcome (List ℕ) → Io W.Sink (Unit {0})
write_marshalled W m = Stream.◌>>=◌ (lift m) λ b. write W b
