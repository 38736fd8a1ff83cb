-- ===== src/Client/Delivery.antt =====
-- The flow of a QoS 2 packet that the server sends: PUBLISH, PUBREC, PUBREL, PUBCOMP.
use mqttie.Prelude.{ℕ, ◌≡◌, refl, ◌∷◌, none, some, true}
use mqttie.Mqtt.{qos_2}
use mqttie.Go.Conn.{Conn}
use mqttie.Go.Outcome.{ok}
use mqttie.Packets.Publish.{Publish}
use mqttie.Packets.PacketIo.{publish, pub_rec, pub_rel, pub_comp}
use mqttie.Packets.PacketIo.Link.{PacketIo, send_packet}
use mqttie.Client.PacketMap
use mqttie.Client.PacketMap.Laws.{get-del_same}
use mqttie.Client.SubMap
use mqttie.Client.State.{Client}
use mqttie.Client.Actions.{Env, exec}
use mqttie.Client.Prog.{◌>>=◌, alone}
use mqttie.Client.Receive.{handle, acknowledge}

module _ (C : Conn) (fuel v : ℕ) (envs : ℕ → Env) (c : Client C) (ch : ℕ) (p : Publish) where
  -- A PUBLISH with QoS 2 and the PUBREL with its identifier: where the subscriber has room and both
  -- answers are sent, the payload is delivered once, the PUBREC and then the PUBCOMP are sent, and
  -- nothing is pending under the identifier.
  pub handle-qos_2 :
      (io io' : PacketIo C)
      → SubMap.get p.topic.name c.subs ≡ ok (some ch)
      → p.topic.qos ≡ qos_2
      → (envs 1).has_room ≡ true
      → send_packet C
          (envs 2).uuid
          (pub_rec (record { version = v; packet_identifier = p.packet_identifier }))
          c.io
        ≡ (ok tt, io)
      → send_packet C
          (envs 5).uuid
          (pub_comp (record { version = v; packet_identifier = p.packet_identifier }))
          io
        ≡ (ok tt, io')
      → let r =
          alone C fuel envs
            (handle v (publish p) >>= λ on.
              handle v (pub_rel (record { version = v; packet_identifier = p.packet_identifier })))
            c in
        (r.0 ≡ ok true)
        × (r.1.delivered ≡ (ch, p.payload) ∷ c.delivered)
        × (r.1.io ≡ io')
        × (PacketMap.get p.packet_identifier r.1.pending_packets ≡ none)
  unfolding handle acknowledge alone exec
  handle-qos_2 io io' found two room send send' =
      rw (found, two) (rw (room) (rw (send, send') (refl, refl, refl, get-del_same _ _)))

  -- The same PUBLISH with QoS 2 twice, with no PUBREL in between, as a server sends it that has not got
  -- the PUBREC: where the subscriber has room, the payload is delivered twice.
  pub handle-duplicate :
      (io io' : PacketIo C)
      → SubMap.get p.topic.name c.subs ≡ ok (some ch)
      → p.topic.qos ≡ qos_2
      → (envs 1).has_room ≡ true
      → (envs 5).has_room ≡ true
      → send_packet C
          (envs 2).uuid
          (pub_rec (record { version = v; packet_identifier = p.packet_identifier }))
          c.io
        ≡ (ok tt, io)
      → send_packet C
          (envs 6).uuid
          (pub_rec (record { version = v; packet_identifier = p.packet_identifier }))
          io
        ≡ (ok tt, io')
      → let r =
          alone C fuel envs
            (handle v (publish p) >>= λ on. handle v (publish (record p { duplicate = true })))
            c in
        (r.0 ≡ ok true) × (r.1.delivered ≡ (ch, p.payload) ∷ (ch, p.payload) ∷ c.delivered)
  unfolding handle acknowledge alone exec
  handle-duplicate io io' found two room room' send send' =
      rw (found, two) (rw room (rw (send, found) (rw room' (rw send' (refl, refl)))))
