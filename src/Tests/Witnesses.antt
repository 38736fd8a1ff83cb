-- ===== src/Tests/Witnesses.antt =====
-- The theorems at concrete packets, numbers, maps and connections.
use mqttie.Prelude.{
  ℕ, ◌+◌, ◌-◌, ◌%◌, replicate, length-replicate, zero, suc, ◌*◌, ◌<◌, ◌^◌, ◌≡◌, refl, [], ◌∷◌, ◌++◌,
  true, false, none, some, arith, inl, length, All, ltb, if◌then◌else◌,
}
use mqttie.Mqtt.{Topic, mqtt_v311, packet_short, runtime, packet_long}
use mqttie.Go.Outcome.{ok, err, panic}
use mqttie.Go.Slice.{uvarint, make}
use mqttie.Go.Stream.Reads.{Reads, Rejects}
use mqttie.Go.Stream.Ensures.{Ensures}
use mqttie.Util.Varint.{read_varint, get_uvarint_len}
use mqttie.Util.Varint.Encode.{get_uvarint_len-uvarint}
use mqttie.Util.Varint.Decode.{Reads-read_varint}
use mqttie.Util.Utf8.{read_utf8}
use mqttie.Util.Utf8.RoundTrip.{utf8, Reads-read_utf8}
use mqttie.Util.Utf8.Bounds.{Utf8Bounds, read_utf8_bounds, read_utf8_short_read}
use mqttie.Packets
use mqttie.Packets.Publish.{Publish, fixed_header}
use mqttie.Packets.Publish.Marshal.{body}
use mqttie.Packets.Publish.EmptyPayload.{empty_payload_rejected}
use mqttie.Packets.ConnAck.{ConnAck, accepted}
use mqttie.Packets.ConnAck.ShortRead.{read_from_short_read}
use mqttie.Packets.Subscribe.{Subscribe, payload_length}
use mqttie.Packets.Subscribe.Marshal.{marshal_binary_refuses}
use mqttie.Packets.Subscribe.Ends.{IsReadTopic, read_from_ends}
use mqttie.Packets.Unsubscribe.{Unsubscribe}
use mqttie.Packets.Unsubscribe.Ends.{unsubscribe_read_from_ends}
use mqttie.Packets.PacketIo.{publish, marshal_binary, recv}
use mqttie.Packets.PacketIo.RoundTrip.{PublishWire, bytes, recv-marshal_binary}
use mqttie.Client.PacketMap
use mqttie.Client.PacketMap.{PacketMap, new_packet_map}
use mqttie.Client.PacketChanMap
use mqttie.Client.PacketChanMap.{PacketChanMap, new_packet_chan_map}
use mqttie.Client.PacketId.{in_use, attempts, aquire_packet_id}
use mqttie.Client.PacketId.Total.{aquire_packet_id_total}
use mqttie.Client.PacketId.Fresh.{aquire_packet_id-fresh}
use mqttie.Client.IdMap.{lookup}
use mqttie.Client.SubMap.{add as add_topic, get as get_topic}
use mqttie.Client.SubMap.Lookup.{get-add_topic}
use mqttie.Client.SubMap.Wildcards.{plus_only, get-plus_panic}
use mqttie.Tests.Connections.{buffer, buffered, trickle, trickle_bytes}
use mqttie.Client.SubMap.Depth.{Settled, get-Settled}
use mqttie.Packets.PacketIo.{new_connect}
use mqttie.Packets.Connect.Read.Properties.{read_will_properties}
use mqttie.Packets.Connect.Read.Swallowed.{NoWillProperty, illegal_will_property}

-- A publish packet of QoS 1 to the topic `a/b`, with the identifier 10 and two bytes of payload.
abbrev reading : Publish
reading = record {
  topic = record { name = b'a' ∷ b'/' ∷ b'b' ∷ []; qos = 1 };
  version = mqtt_v311;
  duplicate = false;
  retain = true;
  packet_identifier = 10;
  payload = 7 ∷ 8 ∷ [];
}

reading-PublishWire : PublishWire mqtt_v311 reading
reading-PublishWire = record {
  fits = record { name_fits = omega arith; content_fits = omega arith };
  version = refl;
  qos = omega arith;
  identifier = omega arith;
  no_identifier = λ h. omega arith;
  some_content = inl (omega arith);
}

recv-marshal_binary_example :
    (marshal_binary [] (publish reading) ≡ ok (bytes (publish reading)))
    × Reads buffered (recv buffer none 0 mqtt_v311) (bytes (publish reading)) (publish reading)
recv-marshal_binary_example =
    recv-marshal_binary buffered 0 mqtt_v311 [] (publish reading) reading-PublishWire

-- Packet 1 waits for an acknowledgement, and one caller waits with the identifier 2.
abbrev one_pending : PacketMap
one_pending = record { packets = (1, publish reading) ∷ [] }

abbrev one_waiting : PacketChanMap
one_waiting = record { chans = (2, record { made_for = 2; serial = 0 }) ∷ [] }

aquire_packet_id_total_example : (id : ℕ) × ((aquire_packet_id one_pending one_waiting 0).0 ≡ ok id)
aquire_packet_id_total_example = aquire_packet_id_total one_pending one_waiting 0 (omega arith)

-- The identifiers 1 and 2 are skipped.
three : (aquire_packet_id one_pending one_waiting 0).0 ≡ ok 3
unfolding aquire_packet_id attempts in_use PacketMap.get lookup PacketChanMap.get
three = refl

aquire_packet_id-fresh_example :
    (PacketMap.get 3 one_pending ≡ none)
    × (PacketChanMap.get 3 one_waiting ≡ none)
    × (3 < 2 ^ 16)
    × ((aquire_packet_id one_pending one_waiting 0).1 % 2 ^ 16 ≡ 3)
aquire_packet_id-fresh_example = aquire_packet_id-fresh one_pending one_waiting 0 3 three

-- A packet as Recv makes it before it is read.
abbrev new_subscribe : Subscribe
new_subscribe = record { version = mqtt_v311; packet_identifier = 0; topics = [] }

abbrev new_unsubscribe : Unsubscribe
new_unsubscribe = record { version = mqtt_v311; packet_identifier = 0; topics = [] }

read_from_ends_example :
    Ensures
      (Packets.Subscribe.read_from trickle new_subscribe)
      (λ n p. (n < 2 ^ 28 + 4) × All IsReadTopic p.topics)
read_from_ends_example = read_from_ends trickle trickle_bytes new_subscribe

unsubscribe_read_from_ends_example :
    Ensures (Packets.Unsubscribe.read_from trickle new_unsubscribe) (λ n p. n < 2 ^ 28 + 4)
unsubscribe_read_from_ends_example =
    unsubscribe_read_from_ends trickle trickle_bytes new_unsubscribe

Reads-read_varint_example : Reads buffered (read_varint buffer) (uvarint 321) 321
Reads-read_varint_example = Reads-read_varint buffered 321 (omega arith)

get_uvarint_len-uvarint_example : get_uvarint_len 16384 ≡ some (length (uvarint 16384))
get_uvarint_len-uvarint_example = get_uvarint_len-uvarint 16384 (omega arith)

Reads-read_utf8_example :
    Reads buffered (read_utf8 buffer) (utf8 (b'a' ∷ b'b' ∷ [])) (b'a' ∷ b'b' ∷ [])
Reads-read_utf8_example = Reads-read_utf8 buffered (b'a' ∷ b'b' ∷ []) (omega arith)

read_utf8_bounds_example : Ensures (read_utf8 trickle) Utf8Bounds
read_utf8_bounds_example = read_utf8_bounds trickle trickle_bytes

-- The length 3, and one byte of the string.
read_utf8_short_read_example :
    read_utf8 buffer (0 ∷ 3 ∷ b'a' ∷ []) ≡ (1 + 2, ok ((b'a' ∷ []) ++ make (3 - 1)), [])
read_utf8_short_read_example =
    read_utf8_short_read buffer (0 ∷ 3 ∷ b'a' ∷ []) (b'a' ∷ []) [] 3 (b'a' ∷ []) (omega arith)
      (omega arith) (omega arith) refl refl

-- A packet without payload, and the packet that Recv makes to read it.
abbrev empty_reading : Publish
empty_reading = record reading { topic = record { name = b'a' ∷ []; qos = 0 }; payload = [] }

empty_payload_rejected_example :
    Rejects buffered
      (Packets.Publish.read_from buffer empty_reading)
      (body empty_reading)
      packet_short
empty_payload_rejected_example =
    empty_payload_rejected buffered empty_reading empty_reading
      (record { name_fits = omega arith; content_fits = omega arith }) refl refl

abbrev new_conn_ack : ConnAck
new_conn_ack = record { session_present = false; return_code = accepted; version = mqtt_v311 }

read_from_short_read_example :
    Packets.ConnAck.read_from buffer new_conn_ack (2 ∷ [])
    ≡ (1, ok (record new_conn_ack { return_code = accepted }), [])
read_from_short_read_example = read_from_short_read buffer (2 ∷ []) [] new_conn_ack refl

-- 4096 topics of 65535 bytes each.
abbrev many_topics : Subscribe
many_topics = record new_subscribe {
  topics = replicate 4096 (record { name = make 65535; qos = 1 });
}

payload_length-replicate :
    (n : ℕ) (t : Topic) → payload_length (replicate n t) ≡ n * (length t.name + 3)
unfolding payload_length
payload_length-replicate zero t = omega arith
payload_length-replicate (suc n) t = omega (arith, payload_length-replicate n t)

many_topics-size : payload_length many_topics.topics ≡ 4096 * 65538
many_topics-size =
    let size : length (make 65535) ≡ 65535 = length-replicate {A = ℕ} 65535 0 in
    rw (payload_length-replicate 4096 (record { name = make 65535; qos = 1 })) (omega (arith, size))

marshal_binary_refuses_example : Packets.Subscribe.marshal_binary many_topics ≡ (
    if ltb (payload_length many_topics.topics + 2) (2 ^ 32) then err runtime else err packet_long)
marshal_binary_refuses_example =
    marshal_binary_refuses many_topics (omega (arith, many_topics-size))

get-add_topic_example :
    get_topic (b'a' ∷ b'/' ∷ b'b' ∷ []) (add_topic (b'a' ∷ b'/' ∷ b'b' ∷ []) 5 (plus_only 4))
    ≡ ok (some 5)
get-add_topic_example =
    get-add_topic (b'a' ∷ b'/' ∷ b'b' ∷ []) 5 (plus_only 4) (refl, (refl, (refl, tt)))

get-plus_panic_example : get_topic (b'a' ∷ []) (plus_only 4) ≡ panic
get-plus_panic_example = get-plus_panic (b'a' ∷ []) 4 (refl, tt)

get-Settled_example : Settled (get_topic (b'a' ∷ []) (plus_only 4))
get-Settled_example = get-Settled (b'a' ∷ []) (plus_only 4)

-- 0x7F is the identifier of no property.
no_will_property : NoWillProperty 0x7F
no_will_property = record {
  not_content_type = refl;
  not_correlation_data = refl;
  not_delay = refl;
  not_expire = refl;
  not_response_topic = refl;
  not_utf8 = refl;
  not_user_props = refl;
}

illegal_will_property_example :
    read_will_properties buffer 5 (new_connect mqtt_v311) (0x7F ∷ 1 ∷ [])
    ≡ (1, ok (new_connect mqtt_v311), 1 ∷ [])
illegal_will_property_example =
    illegal_will_property buffer (0x7F ∷ 1 ∷ []) (1 ∷ []) 0x7F 5 (new_connect mqtt_v311)
      no_will_property (omega arith) refl
