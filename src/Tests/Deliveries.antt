-- ===== src/Tests/Deliveries.antt =====
-- A QoS 2 packet at a concrete client with a subscriber.
use mqttie.Prelude.{◌≡◌, refl, [], ◌∷◌, none, some, true, false}
use mqttie.Go.Outcome.{ok}
use mqttie.Go.Slice.{put_uint16}
use mqttie.Go.Stream
use mqttie.Go.Encoder
use mqttie.Packets.Frame.{write_marshalled}
use mqttie.Packets.PubRec
use mqttie.Packets.PubComp
use mqttie.Packets.Publish.{Publish}
use mqttie.Packets.PacketIo
use mqttie.Packets.PacketIo.{publish, pub_rec, pub_rel, pub_comp}
use mqttie.Packets.PacketIo.Link
use mqttie.Packets.PacketIo.Link.{PacketIo as LinkIo}
use mqttie.Client.PacketMap
use mqttie.Client.SubMap
use mqttie.Client.SubMap.Lookup.{get-add_topic}
use mqttie.Client.State.{Client, new_client, apply_options}
use mqttie.Client.Prog.{◌>>=◌, alone}
use mqttie.Client.Receive.{handle}
use mqttie.Client.Delivery.{handle-qos_2, handle-duplicate}
use mqttie.Tests.Runs.{line, env, fresh_client}

-- Channel 3 is subscribed to `a`.
abbrev subscriber : Client line
subscriber = record fresh_client { subs = SubMap.add (b'a' ∷ []) 3 SubMap.empty }

abbrev once : Publish
once = record {
  topic = record { name = b'a' ∷ []; qos = 2 };
  version = 4;
  duplicate = false;
  retain = false;
  packet_identifier = 10;
  payload = 7 ∷ [];
}

subscribed : SubMap.get (b'a' ∷ []) subscriber.subs ≡ ok (some 3)
subscribed = get-add_topic (b'a' ∷ []) 3 SubMap.empty (refl, tt)

abbrev io1 : LinkIo line
io1 = record fresh_client.io { sink = 80 ∷ 2 ∷ 0 ∷ 10 ∷ [] }

rec_sent :
    Link.send_packet line
      (7 ∷ [])
      (pub_rec (record { version = 4; packet_identifier = 10 }))
      subscriber.io
    ≡ (ok tt, io1)
unfolding Link.send_packet PacketIo.send PacketIo.set_deadline new_client apply_options Stream.◌>>=◌
    Link.new_packet_io write_marshalled PacketIo.marshal_binary PubRec.marshal_binary
    Encoder.marshal Encoder.◌>>◌ Encoder.store put_uint16 Stream.write
rec_sent = refl

rec_sent_again :
    Link.send_packet line (7 ∷ []) (pub_rec (record { version = 4; packet_identifier = 10 })) io1
    ≡ (ok tt, record io1 { sink = 80 ∷ 2 ∷ 0 ∷ 10 ∷ 80 ∷ 2 ∷ 0 ∷ 10 ∷ [] })
unfolding Link.send_packet PacketIo.send PacketIo.set_deadline new_client apply_options Stream.◌>>=◌
    Link.new_packet_io write_marshalled PacketIo.marshal_binary PubRec.marshal_binary
    Encoder.marshal Encoder.◌>>◌ Encoder.store put_uint16 Stream.write
rec_sent_again = refl

comp_sent :
    Link.send_packet line (7 ∷ []) (pub_comp (record { version = 4; packet_identifier = 10 })) io1
    ≡ (ok tt, record io1 { sink = 80 ∷ 2 ∷ 0 ∷ 10 ∷ 112 ∷ 2 ∷ 0 ∷ 10 ∷ [] })
unfolding Link.send_packet PacketIo.send PacketIo.set_deadline new_client apply_options Stream.◌>>=◌
    Link.new_packet_io write_marshalled PacketIo.marshal_binary PubComp.marshal_binary
    Encoder.marshal Encoder.◌>>◌ Encoder.store put_uint16 Stream.write
comp_sent = refl

handle-qos_2_example :
    let r =
      alone line 5
        (λ n. env)
        (handle 4 (publish once) >>= λ on.
          handle 4 (pub_rel (record { version = 4; packet_identifier = 10 })))
        subscriber in
    (r.0 ≡ ok true)
    × (r.1.delivered ≡ (3, 7 ∷ []) ∷ fresh_client.delivered)
    × (r.1.io ≡ record io1 { sink = 80 ∷ 2 ∷ 0 ∷ 10 ∷ 112 ∷ 2 ∷ 0 ∷ 10 ∷ [] })
    × (PacketMap.get 10 r.1.pending_packets ≡ none)
handle-qos_2_example =
    handle-qos_2 line 5 4 (λ n. env) subscriber 3 once io1
      (record io1 { sink = 80 ∷ 2 ∷ 0 ∷ 10 ∷ 112 ∷ 2 ∷ 0 ∷ 10 ∷ [] }) subscribed refl refl rec_sent
      comp_sent

handle-duplicate_example :
    let r =
      alone line 5
        (λ n. env)
        (handle 4 (publish once) >>= λ on. handle 4 (publish (record once { duplicate = true })))
        subscriber in
    (r.0 ≡ ok true) × (r.1.delivered ≡ (3, 7 ∷ []) ∷ (3, 7 ∷ []) ∷ fresh_client.delivered)
handle-duplicate_example =
    handle-duplicate line 5 4 (λ n. env) subscriber 3 once io1
      (record io1 { sink = 80 ∷ 2 ∷ 0 ∷ 10 ∷ 80 ∷ 2 ∷ 0 ∷ 10 ∷ [] }) subscribed refl refl refl
      rec_sent rec_sent_again
