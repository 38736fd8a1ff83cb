-- ===== src/Tests/Clients.antt =====
-- The theorems on the client at concrete inputs.
use mqttie.Prelude.{◌≡◌, refl, [], ◌∷◌, none, some, true, false, arith, inl, inr, All}
use mqttie.Prelude.Int.{pos, negsuc}
use mqttie.Mqtt.{mqtt_v311}
use mqttie.Go.Stream.{Reader}
use mqttie.Go.Outcome.{ok, panic}
use mqttie.Packets.PacketIo.{Packet, ping_req, publish, sub_ack}
use mqttie.Client.Options.{new_connect_options, new_publish_options, set_will_topic, set_keep_alive}
use mqttie.Packets.PacketIo.Link
use mqttie.Packets.PacketIo
use mqttie.Go.Stream
use mqttie.Client.PacketMap
use mqttie.Client.PacketChanMap
use mqttie.Client.Receive.{handle}
use mqttie.Client.Calls
use mqttie.Client.SubMap
use mqttie.Client.SubMap.Lookup.{get_empty}
use mqttie.Client.State.{Client, new_client, apply_options}
use mqttie.Client.Prog.{alone, done}
use mqttie.Client.Options.KeepAlive.{set_keep_alive-cases}
use mqttie.Client.Options.Will.{connect_request-will}
use mqttie.Client.Faults.{handle-own_pending, subscribed-surplus, publish-unset_retain}
use mqttie.Client.PacketId
use mqttie.Client.PacketId.Refines.{aquire_packet_id-alone}
use mqttie.Packets.Publish.{Publish}
use mqttie.Client.PacketMap.{new_packet_map}
use mqttie.Client.Stranded.Reachable.{Reach-Waits}
use mqttie.Client.IdMap.{lookup}
use mqttie.Packets.Frame.{write_marshalled}
use mqttie.Packets.PubAck
use mqttie.Go.Slice.{put_uint16}
use mqttie.Go.Encoder
use mqttie.Client.PacketChanMap.{Chan}
use mqttie.Client.System
use mqttie.Client.System.{System, start, Reach, here, next, calls, moves, receives}
use mqttie.Client.System.Run.{turn, receiver, caller, call, run, run-Reach}
use mqttie.Client.Stranded.{Waits}
use mqttie.Client.Tables.{IsSound, FromClient}
use mqttie.Client.Tables.History.{HasHistory}
use mqttie.Client.Tables.Reachable.{Reach-IsSound, Reach-FromClient}
use mqttie.Tests.Runs.{
  fresh_client, line, env, ran, stranded, four, ran-Reachable, waits, receiver_idle, nothing_more,
  at_end, unanswered,
}

Reach-IsSound_example :
    IsSound (ran stranded).client × All (HasHistory mqtt_v311 (1 ∷ [])) (ran stranded).callers
unfolding new_client apply_options
Reach-IsSound_example =
    Reach-IsSound 5 (1 ∷ []) (some (3, 0)) [] [] [] (ran stranded) (ran-Reachable stranded)

-- The caller of Ping sends at once.
Reach-FromClient_example : FromClient mqtt_v311 (ping_req (record { version = 4 }))
unfolding run turn System.body Calls.ping start new_client apply_options
Reach-FromClient_example =
    Reach-FromClient 5 (1 ∷ []) (some (3, 0)) [] [] [] (ran (call System.ping ∷ []))
      (ping_req (record { version = 4 })) (ran-Reachable (call System.ping ∷ [])) (inr (inl refl))

-- The connection has ended.
abbrev quiet : System line
quiet = record (ran stranded) {
  client = record (ran stranded).client { io = at_end };
  receiver = done false;
}

Reach-Waits_example :
    (turn line 5 mqtt_v311 (1 ∷ []) (receiver env) (ran stranded) ≡ some quiet)
    × Waits four 0
        (run line 5 mqtt_v311 (1 ∷ []) (caller env 0 ∷ call System.ping ∷ []) quiet).callers
unfolding new_client apply_options
Reach-Waits_example =
    Reach-Waits 5 (1 ∷ []) (some (3, 0)) [] [] [] four 0 env at_end (ran stranded)
      (run line 5 mqtt_v311 (1 ∷ []) (caller env 0 ∷ call System.ping ∷ []) quiet)
      (ran-Reachable stranded) receiver_idle nothing_more waits unanswered
      (run-Reach line 5 mqtt_v311 (1 ∷ []) (caller env 0 ∷ call System.ping ∷ []) quiet)

aquire_packet_id-alone_example :
    alone line 5 (λ n. env) Calls.aquire_packet_id fresh_client
    ≡ (ok 4, record fresh_client { packet_id_counter = 4 })
unfolding PacketId.aquire_packet_id PacketId.attempts PacketId.in_use PacketMap.get
    PacketChanMap.get new_client apply_options lookup
aquire_packet_id-alone_example = aquire_packet_id-alone line 5 (λ n. env) fresh_client

-- Three return codes for one topic.
subscribed-surplus_example :
    (alone line 5
      (λ n. env)
      (Calls.subscribed (record { topic = record { name = 97 ∷ []; qos = 1 }; messages = 0 } ∷ []) (
        inl (
          sub_ack
            (record { version = 4; packet_identifier = 4; return_codes = 1 ∷ 1 ∷ 128 ∷ [] }))))
      fresh_client).0
    ≡ panic
subscribed-surplus_example =
    subscribed-surplus line 5 (λ n. env) fresh_client
      (record { topic = record { name = 97 ∷ []; qos = 1 }; messages = 0 } ∷ [])
      (record { version = 4; packet_identifier = 4; return_codes = 1 ∷ 1 ∷ 128 ∷ [] }) 2 128 refl
      (omega arith) (omega arith)

publish-unset_retain_example :
    (alone line 5
      (λ n. env)
      (Calls.publish 4
        (record { name = 97 ∷ []; qos = 0 })
        (1 ∷ [])
        (some new_publish_options ∷ []))
      fresh_client).0
    ≡ panic
publish-unset_retain_example =
    publish-unset_retain line 5 4 (record { name = 97 ∷ []; qos = 0 }) (1 ∷ []) [] []
      new_publish_options (λ n. env) fresh_client refl

abbrev message : Publish
message = record {
  topic = record { name = 97 ∷ []; qos = 1 };
  version = 4;
  duplicate = false;
  retain = false;
  packet_identifier = 10;
  payload = 7 ∷ [];
}

-- A client that has sent that packet with the identifier 10 itself.
abbrev sender : Client line
sender = record fresh_client { pending_packets = PacketMap.set 10 (publish message) new_packet_map }

nobody : SubMap.get (97 ∷ []) sender.subs ≡ ok none
unfolding new_client apply_options
nobody = get_empty (97 ∷ [])

acknowledged :
    Link.send_packet line
      (7 ∷ [])
      (PacketIo.pub_ack (record { version = 4; packet_identifier = 10 }))
      sender.io
    ≡ (ok tt, record fresh_client.io { sink = 64 ∷ 2 ∷ 0 ∷ 10 ∷ [] })
unfolding Link.send_packet PacketIo.send PacketIo.set_deadline new_client apply_options
    Link.new_packet_io Stream.◌>>=◌ Stream.write write_marshalled PacketIo.marshal_binary
    PubAck.marshal_binary Encoder.marshal Encoder.◌>>◌ Encoder.store put_uint16
acknowledged = refl

handle-own_pending_example :
    let r = alone line 5 (λ n. env) (handle 4 (publish message)) sender in
    (r.0 ≡ ok true)
    × (r.1.io ≡ record fresh_client.io { sink = 64 ∷ 2 ∷ 0 ∷ 10 ∷ [] })
    × (PacketMap.get 10 r.1.pending_packets ≡ none)
handle-own_pending_example =
    handle-own_pending line 5 4 message (λ n. env) sender
      (record fresh_client.io { sink = 64 ∷ 2 ∷ 0 ∷ 10 ∷ [] }) nobody refl acknowledged

connect_request-will_example :
    let p =
      Calls.connect_request 4 (97 ∷ []) (
        some (set_will_topic (record { name = 98 ∷ []; qos = 1 }) true new_connect_options) ∷ []) in
    (p.will_topic ≡ record { name = []; qos = 0 }) × (p.will_message ≡ []) × (p.will_retain ≡ false)
connect_request-will_example =
    connect_request-will 4 (97 ∷ [])
      (some (set_will_topic (record { name = 98 ∷ []; qos = 1 }) true new_connect_options) ∷ [])

set_keep_alive-cases_example :
    ((set_keep_alive (pos 70000) new_connect_options).keep_alive ≡ some 65535)
    × ((set_keep_alive (negsuc 70000) new_connect_options).keep_alive ≡ some 61071)
set_keep_alive-cases_example = set_keep_alive-cases 70000 new_connect_options
