-- ===== src/Tests/Runs.antt =====
-- Clients on a concrete connection, and runs of them.
use mqttie.Prelude.{ℕ, ◌≡◌, refl, List, [], ◌∷◌, ◌++◌, none, some, true, false, length, take, drop}
use mqttie.Mqtt.{mqtt_v311, eof}
use mqttie.Go.Stream.{Reader}
use mqttie.Go.Conn.{Conn}
use mqttie.Go.Outcome.{err}
use mqttie.Packets.PacketIo.{Packet, ping_req, publish, sub_ack}
use mqttie.Packets.PacketIo.Link
use mqttie.Packets.PacketIo
use mqttie.Go.Stream
use mqttie.Client.PacketMap
use mqttie.Client.PacketChanMap
use mqttie.Client.Receive.{receive}
use mqttie.Client.Calls
use mqttie.Client.State.{Client, new_client, apply_options}
use mqttie.Client.Actions
use mqttie.Client.Actions.{Env, Op}
use mqttie.Client.PacketMap.{new_packet_map}
use mqttie.Client.IdMap.{lookup, insert}
use mqttie.Packets.Frame.{write_marshalled}
use mqttie.Packets.Unsubscribe
use mqttie.Util.Varint.{length_bytes}
use mqttie.Go.Slice.{put_uvarint, uvarint_bytes, copy, put_uint16}
use mqttie.Go.Encoder
use mqttie.Util.Utf8.{encode_utf8}
use mqttie.Client.PacketChanMap.{Chan}
use mqttie.Client.Channels.{held, clear}
use mqttie.Client.System
use mqttie.Client.System.{System, start, Reach, here, next, calls, moves, receives}
use mqttie.Client.System.Run.{turn, Turn, caller, call, run, run-Reach}
use mqttie.Client.Stranded.{Waits}
use mqttie.Client.Tables.Reachable.{Reachable}
use mqttie.Tests.Connections.{read-le}

-- A connection whose other end has sent a few bytes and closed it.
abbrev pub ended : Reader
ended = record {
  Stream = List ℕ;
  read = λ s n. record {
    bytes = take n s;
    error = elim s [ [] ↦ some eof | b ∷ bs ↦ none ];
    next = drop n s;
  };
  read-le = read-le;
}

-- What is written is kept in order, and a deadline is never over.
abbrev pub line : Conn
line = record {
  reader = ended;
  writer = record {
    Sink = List ℕ;
    write = λ s bs. record { count = length bs; error = none; next = s ++ bs };
  };
  set_read_deadline = λ s. (none, s);
  set_write_deadline = λ s. (none, s);
  close = λ r w. (none, r, w);
}

abbrev pub env : Env
env = record { error_first = false; has_room = true; now = 0; uuid = 7 ∷ [] }

abbrev pub fresh : System line
fresh = start line 5 (new_client line (1 ∷ []) (some (3, 0)) [] [] [])

-- A run of that client, its turns in their order.
abbrev pub ran : List Turn → System line
ran turns = run line 5 mqtt_v311 (1 ∷ []) turns fresh

pub ran-Reachable :
    (turns : List Turn) → Reachable line 5 (1 ∷ []) (some (3, 0)) [] [] [] (ran turns)
unfolding new_client apply_options
ran-Reachable turns = run-Reach line 5 mqtt_v311 (1 ∷ []) turns fresh

-- A call of Unsubscribe, and the six operations of the caller up to its wait: the identifier, its two
-- lookups, the channel, the packet and the channel once more. Nothing comes in.
abbrev pub stranded : List Turn
stranded =
    call (System.unsubscribe ((97 ∷ []) ∷ []))
    ∷ caller env 0
    ∷ caller env 0
    ∷ caller env 0
    ∷ caller env 0
    ∷ caller env 0
    ∷ caller env 0
    ∷ []

abbrev pub four : Chan
four = record { made_for = 4; serial = 0 }

pub waits : Waits four 0 (ran stranded).callers
unfolding run turn System.advance start receive Actions.exec Link.recv_packet Link.send_packet
    PacketIo.recv PacketIo.send PacketIo.set_deadline new_client Link.new_packet_io apply_options
    Stream.read System.advance_caller System.body Calls.unsubscribe Calls.unsubscribe_some
    Calls.aquire_packet_id Calls.attempts PacketMap.get PacketChanMap.get PacketChanMap.new
    Stream.◌>>=◌ Stream.write lookup write_marshalled PacketIo.marshal_binary
    Unsubscribe.marshal_binary length_bytes put_uvarint uvarint_bytes Unsubscribe.payload_length
    Encoder.marshal Encoder.◌>>◌ Encoder.store copy put_uint16 Unsubscribe.fill_topics encode_utf8
    insert
waits = refl

pub receiver_idle : (ran stranded).receiver ≡ receive mqtt_v311
unfolding run turn System.advance start receive Actions.exec Link.recv_packet Link.send_packet
    PacketIo.recv PacketIo.send PacketIo.set_deadline new_client Link.new_packet_io apply_options
    Stream.read System.advance_caller System.body Calls.unsubscribe Calls.unsubscribe_some
    Calls.aquire_packet_id Calls.attempts PacketMap.get PacketChanMap.get PacketChanMap.new
    Stream.◌>>=◌ Stream.write lookup write_marshalled PacketIo.marshal_binary
    Unsubscribe.marshal_binary length_bytes put_uvarint uvarint_bytes Unsubscribe.payload_length
    Encoder.marshal Encoder.◌>>◌ Encoder.store copy put_uint16 Unsubscribe.fill_topics encode_utf8
    insert
receiver_idle = refl

-- The connection when its end has been read.
abbrev pub at_end : Link.PacketIo line
at_end = (Link.recv_packet line 5 (ran stranded).client.io).1

pub nothing_more : Link.recv_packet line 5 (ran stranded).client.io ≡ (err eof, at_end)
unfolding run turn System.advance start receive Actions.exec Link.recv_packet Link.send_packet
    PacketIo.recv PacketIo.send PacketIo.set_deadline new_client Link.new_packet_io apply_options
    Stream.read System.advance_caller System.body Calls.unsubscribe Calls.unsubscribe_some
    Calls.aquire_packet_id Calls.attempts PacketMap.get PacketChanMap.get PacketChanMap.new
    Stream.◌>>=◌ Stream.write lookup write_marshalled PacketIo.marshal_binary
    Unsubscribe.marshal_binary length_bytes put_uvarint uvarint_bytes Unsubscribe.payload_length
    Encoder.marshal Encoder.◌>>◌ Encoder.store copy put_uint16 Unsubscribe.fill_topics encode_utf8
    insert
nothing_more = refl

pub unanswered : held four (ran stranded).client.buffers ≡ none
unfolding run turn System.advance start receive Actions.exec Link.recv_packet Link.send_packet
    PacketIo.recv PacketIo.send PacketIo.set_deadline new_client Link.new_packet_io apply_options
    Stream.read System.advance_caller System.body Calls.unsubscribe Calls.unsubscribe_some
    Calls.aquire_packet_id Calls.attempts PacketMap.get PacketChanMap.get PacketChanMap.new
    Stream.◌>>=◌ Stream.write lookup write_marshalled PacketIo.marshal_binary
    Unsubscribe.marshal_binary length_bytes put_uvarint uvarint_bytes Unsubscribe.payload_length
    Encoder.marshal Encoder.◌>>◌ Encoder.store copy put_uint16 Unsubscribe.fill_topics encode_utf8
    held clear
unanswered = refl

abbrev pub fresh_client : Client line
fresh_client = new_client line (1 ∷ []) (some (3, 0)) [] [] []
