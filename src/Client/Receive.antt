-- ===== src/Client/Receive.antt =====
-- recvRoutine of client/client_internal.go: one round of its loop. The answer says whether the loop
-- goes on. What it logs is left out.
use mqttie.Prelude.{
  ℕ, List, Option, none, some, Bool, true, false, if◌then◌else◌, ◌==◌, ◌⊎◌, inl, inr,
}
use mqttie.Mqtt.{Error, eof, illegal_response, qos_1, qos_2}
use mqttie.Packets.Publish.{Publish}
use mqttie.Packets.PacketIo.{
  Packet, connect, conn_ack, publish, pub_ack, pub_rec, pub_rel, pub_comp, subscribe, sub_ack,
  unsubscribe, unsub_ack, ping_req, ping_resp, disconnect,
}
use mqttie.Client.PacketChanMap.{Chan}
use mqttie.Client.Actions.{
  pending_set, pending_del, ack_get, send, recv, offer, push_err, push_ping, push_conn_ack,
  subs_get, deliver,
}
use mqttie.Client.Prog.{Prog, done, ◌>>=◌, ◌>>◌, perform}

-- err == io.EOF
abbrev pub is_eof : Error → Bool
is_eof eof = true
is_eof e = false

-- `if c, ok := c.ackChan.Get(id); ok { select { case c <- packet: default: } }`
abbrev pub offer_to : Option Chan → Packet → Prog Bool
offer_to none p = done false
offer_to (some c) p = perform (offer c p)

-- The case of SubAck and UnsubAck.
abbrev pub pass_on : ℕ → Packet → Prog Bool
pass_on id p = do c ← perform (ack_get id); offer_to c p; done true

-- The payload of a publish packet, for the subscriber of its topic.
abbrev pub hand_over : Option ℕ → List ℕ → Prog Bool
hand_over none payload = done false
hand_over (some c) payload = perform (deliver c payload)

-- An error goes to errChan and ends the loop, unless `on` says that it goes on.
abbrev pub report : Option Error → Bool → Prog Bool
report none on = done true
report (some e) on = do perform (push_err e); done on

-- The pending packet is set unless Send has failed.
abbrev pub set_rec : Bool → ℕ → Packet → Prog Bool
set_rec true id p = do perform (pending_set id p); done true
set_rec false id p = done false

-- The switch over the QoS of a publish packet. With QoS 1 an error of Send does not end the loop.
unfoldable pub acknowledge : ℕ → Publish → Prog Bool
acknowledge v p =
    if p.topic.qos == qos_1
    then (do
      e ← perform (send (pub_ack (record { version = v; packet_identifier = p.packet_identifier })))
      report e true
      perform (pending_del p.packet_identifier)
      done true)
    else if p.topic.qos == qos_2
    then (do
      let rec = pub_rec (record { version = v; packet_identifier = p.packet_identifier })
      e ← perform (send rec)
      on ← report e false
      set_rec on p.packet_identifier rec)
    else done true

-- The switch over the packet.
unfoldable pub handle : ℕ → Packet → Prog Bool
handle v (ping_resp p) = do perform (push_ping p); done true
handle v (conn_ack p) = do perform (push_conn_ack p); done true
handle v (sub_ack p) = pass_on p.packet_identifier (sub_ack p)
handle v (unsub_ack p) = pass_on p.packet_identifier (unsub_ack p)
handle v (publish p) = do
  c ← perform (subs_get p.topic.name)
  hand_over c p.payload
  acknowledge v p
handle v (pub_ack p) = do perform (pending_del p.packet_identifier); done true
handle v (pub_comp p) = do perform (pending_del p.packet_identifier); done true
handle v (pub_rel p) = do
  perform (pending_del p.packet_identifier)
  e ← perform (send (pub_comp (record { version = v; packet_identifier = p.packet_identifier })))
  report e false
handle v (pub_rec p) = do
  c ← perform (ack_get p.packet_identifier)
  offer_to c (pub_rec p)
  let rel = pub_rel (record { version = v; packet_identifier = p.packet_identifier })
  perform (pending_set p.packet_identifier rel)
  e ← perform (send rel)
  report e false
handle v (connect p) = do perform (push_err illegal_response); done false
handle v (subscribe p) = do perform (push_err illegal_response); done false
handle v (unsubscribe p) = do perform (push_err illegal_response); done false
handle v (ping_req p) = do perform (push_err illegal_response); done false
handle v (disconnect p) = do perform (push_err illegal_response); done false

-- What Recv returned: a packet, the end of the connection, or another error.
abbrev pub on_received : ℕ → Packet ⊎ Error → Prog Bool
on_received v (inl p) = handle v p
on_received v (inr e) = if is_eof e then done false else (do perform (push_err e); done false)

unfoldable pub receive : ℕ → Prog Bool
unfolding handle acknowledge
receive v = do r ← perform recv; on_received v r
