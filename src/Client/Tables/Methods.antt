-- ===== src/Client/Tables/Methods.antt =====
-- Connect, Disconnect, Ping and Publish under the contract.
pub mod Subscriptions
pub mod Bodies
use mqttie.Prelude.{
  ℕ, zero, suc, ◌≡◌, refl, ◌<◌, ◌^◌, List, [], ◌∷◌, Option, none, some, Bool, true, false,
  Bool-cases, Option-cases, ◌-◌, inl, inr, ◌⊎◌, ◌==◌, ltb, arith, if◌then◌else◌, length, map,
}
use mqttie.Mqtt.{Error, Topic, Subscription, qos_0, qos_1, qos_2}
use mqttie.Packets.Connect.{Connect}
use mqttie.Packets.Publish.{Publish}
use mqttie.Packets.PacketIo.{Packet, sub_ack}
use mqttie.Packets.PingResp.{PingResp}
use mqttie.Client.IdMap.{is_some}
use mqttie.Client.Options.{ConnectOptions, PublishOptions}
use mqttie.Client.Actions.{Op, offer}
use mqttie.Client.Prog.{Prog}
use mqttie.Client.Calls
use mqttie.Client.Calls.{
  attempts, aquire_packet_id, connect_options, connect_request, set_expiry, await_conn_ack,
  await_ping, pinged,
}
use mqttie.Client.Calls.{
  publish_options, await_rec, publish_pending, publish_as, drop_refused, add_subscriptions,
  Statuses, subscribed, await_sub_ack, subscribe_some, await_unsub_ack, unsubscribe_some,
}
use mqttie.Client.System.{Call, body, forget}
use mqttie.Client.System
use mqttie.Client.Logic.{Meets, Any, Meets->>=, Meets-weaken}
use mqttie.Client.Tables.{contract, caller_contract, CallerNeeds, Needs}

module _ (v : ℕ) where
  attempts-Meets : (rounds : ℕ) → Meets (caller_contract v) Any (attempts rounds)
  unfolding attempts
  attempts-Meets zero = tt
  attempts-Meets (suc rounds) = (
    tt,
    λ counter g. (
      tt,
      λ p h. elim (Bool-cases (is_some p)) [
        | inl taken ↦ rw taken (attempts-Meets rounds)
        | inr unused ↦ rw unused (
          tt,
          λ c k. elim (Bool-cases (is_some c)) [
            | inl waits ↦ rw waits (attempts-Meets rounds)
            | inr free ↦ rw free tt
          ],
        )
      ],
    ),
  )

  pub aquire-Meets : Meets (caller_contract v) Any aquire_packet_id
  unfolding aquire_packet_id
  aquire-Meets = attempts-Meets (2 ^ 16 - 1)

  connect_options-version :
      (options : List (Option ConnectOptions)) (c : Connect)
      → (connect_options options c).version ≡ c.version
  unfolding connect_options
  connect_options-version [] c = refl
  connect_options-version (none ∷ options) c = connect_options-version options c
  connect_options-version (some opt ∷ options) c = connect_options-version options _

  pub connect-Meets :
      (id : List ℕ) (options : List (Option ConnectOptions))
      → Meets (caller_contract v) Any (Calls.connect v id options)
  unfolding Calls.connect connect_request
  connect-Meets id options = elim (Bool-cases (ltb 0 (connect_request v id options).keep_alive)) [
    | inl timed ↦
        rw (connect_request, timed)
          (tt, λ u g. (connect_options-version options _, λ e h. awaited e))
    | inr untimed ↦
        rw (connect_request, untimed) (connect_options-version options _, λ e h. awaited e)
  ]
    where
      awaited : (e : Option Error) → Meets (caller_contract v) Any (await_conn_ack e)
      awaited none = (tt, λ r g. tt)
      awaited (some e) = tt

  pub disconnect-Meets : Meets (caller_contract v) Any (Calls.disconnect v)
  unfolding Calls.disconnect
  disconnect-Meets = (refl, λ e g. (tt, λ c h. tt))

  pub ping-Meets : Meets (caller_contract v) Any (Calls.ping v)
  unfolding Calls.ping
  ping-Meets = (refl, λ e g. awaited e)
    where
      answered : (r : PingResp ⊎ Error) → Meets (caller_contract v) Any (pinged r)
      answered (inl p) = tt
      answered (inr e) = (tt, λ b h. tt)

      awaited : (e : Option Error) → Meets (caller_contract v) Any (await_ping e)
      awaited none = (tt, λ r g. answered r)
      awaited (some e) = tt

  publish_options-Meets :
      (options : List (Option PublishOptions)) (retain : Bool)
      → Meets (caller_contract v) Any (publish_options options retain)
  unfolding publish_options
  publish_options-Meets [] retain = tt
  publish_options-Meets (none ∷ options) retain = publish_options-Meets options retain
  publish_options-Meets (some opt ∷ options) retain = elim (Option-cases opt.retain) [
    | inl e ↦ rw (publish_options, e) tt
    | inr (r, e) ↦
        rw (publish_options, e) (publish_options-Meets options (if r then true else retain))
  ]

  await_rec-Meets :
      (qos id : ℕ) (e : Option Error) → Meets (caller_contract v) Any (await_rec qos id e)
  await_rec-Meets qos id (some e) = tt
  await_rec-Meets qos id none = elim (Bool-cases (qos == qos_2)) [
    | inl two ↦ rw two (tt, λ c g. (tt, λ p h. tt))
    | inr other ↦ rw other tt
  ]

  publish_pending-Meets :
      (id : ℕ) (p : Publish)
      → p.version ≡ v
      → p.packet_identifier ≡ id
      → 0 < p.topic.qos
      → p.topic.qos < 3
      → Meets (caller_contract v) Any (publish_pending id p)
  unfolding publish_pending
  publish_pending-Meets id p h k lo hi = (
    (k, lo, hi),
    λ b g. ((h, hi, λ z. absurd (omega arith)), λ e j. await_rec-Meets p.topic.qos id e),
  )

  publish_as-Meets :
      (id : ℕ) (p : Publish)
      → p.version ≡ v
      → p.packet_identifier ≡ 0
      → Meets (caller_contract v) Any (publish_as id p)
  unfolding publish_as
  publish_as-Meets id p h k = elim (Bool-cases (p.topic.qos == qos_0)) [
    | inl least ↦ rw least ((h, ground arith, λ z. k), λ e g. await_rec-Meets qos_0 id e)
    | inr pos ↦ elim (Bool-cases (p.topic.qos == qos_2)) [
      | inl two ↦
          rw (pos, two)
            (
              tt,
              λ b g.
                  Meets->>= (caller_contract v) Any Any
                    (publish_pending id (record p { packet_identifier = id })) _
                    (publish_pending-Meets id (record p { packet_identifier = id }) h refl
                      (ground arith) (ground arith))
                    λ e j. (tt, λ u l. tt),
            )
      | inr other ↦ elim (Bool-cases (p.topic.qos == qos_1)) [
        | inl one ↦
            rw (pos, other, one)
              (publish_pending-Meets id (record p { packet_identifier = id }) h refl (ground arith)
                (ground arith))
        | inr many ↦ rw (pos, other, many) tt
      ]
    ]
  ]

  pub publish-Meets :
      (topic : Topic) (payload : List ℕ) (options : List (Option PublishOptions))
      → Meets (caller_contract v) Any (Calls.publish v topic payload options)
  unfolding Calls.publish
  publish-Meets topic payload options =
      Meets->>= (caller_contract v) Any Any aquire_packet_id _ aquire-Meets λ id r.
        Meets->>= (caller_contract v) Any Any (publish_options options false) _
          (publish_options-Meets options false)
          λ retain t. publish_as-Meets id (message retain) refl refl
    where
      message : Bool → Publish
      message retain = record {
        topic = topic;
        version = v;
        duplicate = false;
        retain = retain;
        packet_identifier = 0;
        payload = payload;
      }
