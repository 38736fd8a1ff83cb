-- ===== src/Tests/Answers.antt =====
-- Calls that are answered, on a concrete client.
use mqttie.Prelude.{◌≡◌, refl, [], ◌∷◌, none, some, false, arith}
use mqttie.Go.Stream.{Reader}
use mqttie.Go.Outcome.{ok}
use mqttie.Packets.PacketIo.{Packet, ping_req, publish, sub_ack}
use mqttie.Packets.PacketIo.Link
use mqttie.Packets.PacketIo
use mqttie.Go.Stream
use mqttie.Client.PacketMap
use mqttie.Client.PacketChanMap
use mqttie.Client.Receive.{handle}
use mqttie.Client.State.{Client, new_client, apply_options}
use mqttie.Client.Prog.{alone}
use mqttie.Client.PacketMap.{new_packet_map}
use mqttie.Client.IdMap.{lookup}
use mqttie.Packets.Frame.{write_marshalled}
use mqttie.Go.Slice.{put_uint16}
use mqttie.Go.Encoder
use mqttie.Client.PacketChanMap.{Chan}
use mqttie.Tests.Runs.{fresh_client, line, env}
use mqttie.Client.Answered.{sub_ack-answered, pub_rec-answered}
use mqttie.Packets.PubRec.{PubRec}
use mqttie.Packets.SubAck.{SubAck}
use mqttie.Packets.ConnAck.{ConnAck}
use mqttie.Packets.PacketIo.{pub_rec, pub_rel}
use mqttie.Packets.PubRel
use mqttie.Client.Calls.{await_sub_ack, await_rec}
use mqttie.Client.Prog.{◌>>=◌}
use mqttie.Client.Channels.{held}
use mqttie.Client.PacketChanMap.{Chan}
use mqttie.Client.IdMap.{lookup}
use mqttie.Prelude.{List}
use mqttie.Mqtt.{Subscription, qos_2, eof}

-- A caller waits with the identifier 10.
abbrev ten : Chan
ten = record { made_for = 10; serial = 0 }

abbrev waiting : Client line
waiting = record fresh_client { ack_chan = record { chans = (10, ten) ∷ [] } }

found : PacketChanMap.get 10 waiting.ack_chan ≡ some ten
unfolding PacketChanMap.get lookup
found = refl

no_answer : held ten waiting.buffers ≡ none
unfolding held new_client apply_options
no_answer = refl

calm : waiting.err_chan ≡ none
unfolding new_client apply_options
calm = refl

abbrev codes : SubAck
codes = record { version = 4; packet_identifier = 10; return_codes = 1 ∷ [] }

abbrev one_topic : List Subscription
one_topic = record { topic = record { name = 97 ∷ []; qos = 1 }; messages = 0 } ∷ []

sub_ack-answered_example :
    (alone line 5
      (λ n. env)
      (handle 4 (sub_ack codes) >>= λ on. await_sub_ack one_topic 10 none)
      waiting).0
    ≡ ok (1 ∷ [], none)
sub_ack-answered_example =
    sub_ack-answered line 5 4 one_topic codes ten (λ n. env) waiting found no_answer calm
      (omega arith)

abbrev rec : PubRec
rec = record { version = 4; packet_identifier = 10 }

sent_rel :
    Link.send_packet line
      (7 ∷ [])
      (pub_rel (record { version = 4; packet_identifier = 10 }))
      waiting.io
    ≡ (ok tt, record fresh_client.io { sink = 98 ∷ 2 ∷ 0 ∷ 10 ∷ [] })
unfolding Link.send_packet PacketIo.send PacketIo.set_deadline new_client apply_options Stream.◌>>=◌
    Link.new_packet_io write_marshalled PacketIo.marshal_binary PubRel.marshal_binary
    Encoder.marshal Encoder.◌>>◌ Encoder.store put_uint16 Stream.write
sent_rel = refl

pub_rec-answered_example :
    let r =
      alone line 5 (λ n. env) (handle 4 (pub_rec rec) >>= λ on. await_rec qos_2 10 none) waiting in
    (r.0 ≡ ok none)
    × (r.1.io ≡ record fresh_client.io { sink = 98 ∷ 2 ∷ 0 ∷ 10 ∷ [] })
    × (PacketMap.get 10 r.1.pending_packets
        ≡ some (pub_rel (record { version = 4; packet_identifier = 10 })))
pub_rec-answered_example =
    pub_rec-answered line 5 4 rec ten (λ n. env) waiting
      (record fresh_client.io { sink = 98 ∷ 2 ∷ 0 ∷ 10 ∷ [] }) found no_answer sent_rel

abbrev refused : ConnAck
refused = record { session_present = false; return_code = 5; version = 4 }

-- recvRoutine has reported an error.
abbrev told : Client line
told = record waiting { err_chan = some eof }
