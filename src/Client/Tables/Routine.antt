-- ===== src/Client/Tables/Routine.antt =====
-- recvRoutine meets the contract.
use mqttie.Prelude.{
  ℕ, refl, List, Option, none, some, Bool, true, false, Bool-cases, inl, inr, ◌⊎◌, ◌==◌,
}
use mqttie.Mqtt.{Error, qos_1, qos_2}
use mqttie.Packets.Publish.{Publish}
use mqttie.Packets.PacketIo.{
  Packet, connect, conn_ack, publish, pub_ack, pub_rec, pub_rel, pub_comp, subscribe, sub_ack,
  unsubscribe, unsub_ack, ping_req, ping_resp, disconnect,
}
use mqttie.Client.PacketChanMap.{Chan}
use mqttie.Client.Receive.{
  is_eof, offer_to, pass_on, hand_over, report, set_rec, acknowledge, handle, on_received, receive,
}
use mqttie.Client.Logic.{Meets, Any, Meets->>=}
use mqttie.Client.Tables.{Answers, Pending, MadeFor, contract}

module _ (v : ℕ) where
  offer_to-Meets :
      (id : ℕ) (c : Option Chan) (p : Packet)
      → MadeFor id c
      → Answers id p
      → Meets (contract v) Any (offer_to c p)
  offer_to-Meets id none p m a = tt
  offer_to-Meets id (some c) p m a = (rw m a, λ r g. tt)

  pass_on-Meets : (id : ℕ) (p : Packet) → Answers id p → Meets (contract v) Any (pass_on id p)
  pass_on-Meets id p a = (
    tt,
    λ c m. Meets->>= (contract v) Any Any (offer_to c p) _ (offer_to-Meets id c p m a) λ r g. tt,
  )

  report-Meets : (e : Option Error) (on : Bool) → Meets (contract v) Any (report e on)
  report-Meets none on = tt
  report-Meets (some e) on = (tt, λ u g. tt)

  hand_over-Meets : (c : Option ℕ) (payload : List ℕ) → Meets (contract v) Any (hand_over c payload)
  hand_over-Meets none payload = tt
  hand_over-Meets (some c) payload = (tt, λ r g. tt)

  set_rec-Meets :
      (on : Bool) (id : ℕ) (p : Packet) → Pending id p → Meets (contract v) Any (set_rec on id p)
  set_rec-Meets true id p n = (n, λ u g. tt)
  set_rec-Meets false id p n = tt

  acknowledge-Meets : (p : Publish) → Meets (contract v) Any (acknowledge v p)
  unfolding acknowledge
  acknowledge-Meets p = elim (Bool-cases (p.topic.qos == qos_1)) [
    | inl one ↦ rw one (
      refl,
      λ e g.
          Meets->>= (contract v) Any Any (report e true) _ (report-Meets e true)
            λ on h. (tt, λ u k. tt),
    )
    | inr other ↦ elim (Bool-cases (p.topic.qos == qos_2)) [
      | inl two ↦
          rw (other, two)
            (
              refl,
              λ e g.
                  Meets->>= (contract v) Any Any (report e false) _ (report-Meets e false)
                    λ on h. set_rec-Meets on _ _ refl,
            )
      | inr zero ↦ rw (other, zero) tt
    ]
  ]

  handle-Meets : (p : Packet) → Meets (contract v) Any (handle v p)
  unfolding handle
  handle-Meets (ping_resp p) = (tt, λ u g. tt)
  handle-Meets (conn_ack p) = (tt, λ u g. tt)
  handle-Meets (sub_ack p) = pass_on-Meets p.packet_identifier (sub_ack p) refl
  handle-Meets (unsub_ack p) = pass_on-Meets p.packet_identifier (unsub_ack p) refl
  handle-Meets (publish p) = (
    tt,
    λ c g.
        Meets->>= (contract v) Any Any (hand_over c p.payload) _ (hand_over-Meets c p.payload)
          λ r h. acknowledge-Meets p,
  )
  handle-Meets (pub_ack p) = (tt, λ u g. tt)
  handle-Meets (pub_comp p) = (tt, λ u g. tt)
  handle-Meets (pub_rel p) = (tt, λ u g. (refl, λ e h. report-Meets e false))
  handle-Meets (pub_rec p) = (
    tt,
    λ c m.
        Meets->>= (contract v) Any Any (offer_to c (pub_rec p)) _
          (offer_to-Meets p.packet_identifier c (pub_rec p) m refl)
          λ r g. (refl, λ u h. (refl, λ e k. report-Meets e false)),
  )
  handle-Meets (connect p) = (tt, λ u g. tt)
  handle-Meets (subscribe p) = (tt, λ u g. tt)
  handle-Meets (unsubscribe p) = (tt, λ u g. tt)
  handle-Meets (ping_req p) = (tt, λ u g. tt)
  handle-Meets (disconnect p) = (tt, λ u g. tt)

  on_received-Meets : (r : Packet ⊎ Error) → Meets (contract v) Any (on_received v r)
  on_received-Meets (inl p) = handle-Meets p
  on_received-Meets (inr e) = elim (Bool-cases (is_eof e)) [
    | inl end ↦ rw end tt
    | inr other ↦ rw other (tt, λ u g. tt)
  ]

  pub receive-Meets : Meets (contract v) Any (receive v)
  unfolding receive
  receive-Meets = (tt, λ r g. on_received-Meets r)
