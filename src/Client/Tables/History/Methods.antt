-- ===== src/Client/Tables/History/Methods.antt =====
-- The channels that the methods of client/client.go wait on.
use mqttie.Prelude.{
  ℕ, zero, suc, ◌^◌, ◌-◌, refl, List, [], ◌∷◌, Option, none, some, Option-cases, inl, inr, ◌⊎◌,
  Bool, true, if◌then◌else◌, ltb, ◌==◌,
}
use mqttie.Mqtt.{Error, Topic, Subscription, qos_0, qos_1, qos_2}
use mqttie.Packets.Publish.{Publish}
use mqttie.Packets.PingResp.{PingResp}
use mqttie.Packets.PacketIo.{Packet, sub_ack}
use mqttie.Client.PacketChanMap.{Chan}
use mqttie.Client.IdMap.{is_some}
use mqttie.Client.Options.{ConnectOptions, PublishOptions}
use mqttie.Client.Prog.{Prog}
use mqttie.Client.Calls
use mqttie.Client.Calls.{
  attempts, aquire_packet_id, connect_request, set_expiry, await_conn_ack, await_ping, pinged,
  publish_options, await_rec, publish_pending, publish_as, drop_refused, add_subscriptions,
  subscribed, await_sub_ack, subscribe_some, await_unsub_ack, unsubscribe_some,
}
use mqttie.Client.System
use mqttie.Client.System.{Call, body, forget}
use mqttie.Client.Tables.{MadeFor}
use mqttie.Client.Tables.History.{OnOwn, Own, Own->>=, Own-if}

MadeFor-OnOwn : (id : ℕ) (c : Option Chan) → MadeFor id c → OnOwn (some id) c
MadeFor-OnOwn id none m = tt
MadeFor-OnOwn id (some c) m = rw m refl

attempts-Own : (last : Option ℕ) (rounds : ℕ) → Own last (attempts rounds)
unfolding attempts
attempts-Own last zero = tt
attempts-Own last (suc rounds) = (
  tt,
  λ counter g. (
    tt,
    λ p h.
        Own-if last (is_some p) _ _ (attempts-Own last rounds)
          (tt, λ c k. Own-if last (is_some c) _ _ (attempts-Own last rounds) tt),
  ),
)

aquire_packet_id-Own : (last : Option ℕ) → Own last aquire_packet_id
unfolding aquire_packet_id
aquire_packet_id-Own last = attempts-Own last (2 ^ 16 - 1)

connect-Own :
    (v : ℕ) (id : List ℕ) (options : List (Option ConnectOptions))
    → Own none (Calls.connect v id options)
unfolding Calls.connect
connect-Own v id options =
    Own->>= none (set_expiry (connect_request v id options).keep_alive) _
      (Own-if none (ltb 0 (connect_request v id options).keep_alive) _ _ (tt, λ u g. tt) tt)
      λ u now. (tt, λ e h. awaited now e)
  where
    awaited : (last : Option ℕ) (e : Option Error) → Own last (await_conn_ack e)
    awaited last none = (tt, λ r g. tt)
    awaited last (some e) = tt

disconnect-Own : (v : ℕ) → Own none (Calls.disconnect v)
unfolding Calls.disconnect
disconnect-Own v = (tt, λ e g. (tt, λ c h. tt))

ping-Own : (v : ℕ) → Own none (Calls.ping v)
unfolding Calls.ping
ping-Own v = (tt, λ e g. awaited e)
  where
    answered : (r : PingResp ⊎ Error) → Own none (pinged r)
    answered (inl p) = tt
    answered (inr e) = (tt, λ b h. tt)

    awaited : (e : Option Error) → Own none (await_ping e)
    awaited none = (tt, λ r g. answered r)
    awaited (some e) = tt

publish_options-Own :
    (last : Option ℕ) (options : List (Option PublishOptions)) (retain : Bool)
    → Own last (publish_options options retain)
unfolding publish_options
publish_options-Own last [] retain = tt
publish_options-Own last (none ∷ options) retain = publish_options-Own last options retain
publish_options-Own last (some opt ∷ options) retain = elim (Option-cases opt.retain) [
  | inl e ↦ rw (publish_options, e) tt
  | inr (r, e) ↦
      rw (publish_options, e) (publish_options-Own last options (if r then true else retain))
]

await_rec-Own : (qos id : ℕ) (e : Option Error) → Own (some id) (await_rec qos id e)
await_rec-Own qos id (some e) = tt
await_rec-Own qos id none =
    Own-if (some id) (qos == qos_2) _ _ (tt, λ c m. (MadeFor-OnOwn id c m, λ p h. tt)) tt

unawaited : (last : Option ℕ) (id : ℕ) (e : Option Error) → Own last (await_rec qos_0 id e)
unawaited last id none = tt
unawaited last id (some e) = tt

publish_pending-Own :
    (last : Option ℕ) (id : ℕ) (p : Publish)
    → Own last (publish_pending id (record p { packet_identifier = id }))
publish_pending-Own last id p = (tt, λ b g. (tt, λ e h. await_rec-Own p.topic.qos id e))

publish_as-Own : (last : Option ℕ) (id : ℕ) (p : Publish) → Own last (publish_as id p)
unfolding publish_as
publish_as-Own last id p =
    Own-if last (p.topic.qos == qos_0) _ _ (tt, λ e g. unawaited _ id e)
      (Own-if last (p.topic.qos == qos_2) _ _
        (
          tt,
          λ b g.
              Own->>= last (publish_pending id (record p { packet_identifier = id })) _
                (publish_pending-Own last id p) λ e now. (tt, λ u h. tt),
        )
        (Own-if last (p.topic.qos == qos_1) _ _ (publish_pending-Own last id p) tt))

publish-Own :
    (v : ℕ) (topic : Topic) (payload : List ℕ) (options : List (Option PublishOptions))
    → Own none (Calls.publish v topic payload options)
unfolding Calls.publish
publish-Own v topic payload options =
    Own->>= none aquire_packet_id _ (aquire_packet_id-Own none) λ id now.
      Own->>= now (publish_options options _) _ (publish_options-Own now options _)
        λ retain later. publish_as-Own later id _

drop_refused-Own :
    (last : Option ℕ) (codes : List ℕ) (topics : List Subscription)
    → Own last (drop_refused codes topics)
unfolding drop_refused
drop_refused-Own last [] topics = tt
drop_refused-Own last (status ∷ codes) [] =
    Own-if last (ltb 2 status) _ _ tt (drop_refused-Own last codes [])
drop_refused-Own last (status ∷ codes) (t ∷ topics) =
    Own->>= last (if ltb 2 status then _ else _) _
      (Own-if last (ltb 2 status) _ _ (tt, λ u g. tt) tt) λ u now. drop_refused-Own now codes topics

add_subscriptions-Own :
    (last : Option ℕ) (topics : List Subscription) → Own last (add_subscriptions topics)
unfolding add_subscriptions
add_subscriptions-Own last [] = tt
add_subscriptions-Own last (t ∷ topics) = (tt, λ b g. add_subscriptions-Own last topics)

subscribed-Own :
    (last : Option ℕ) (topics : List Subscription) (r : Packet ⊎ Error)
    → Own last (subscribed topics r)
subscribed-Own last topics (inl (sub_ack ack)) =
    Own->>= last (drop_refused ack.return_codes topics) _
      (drop_refused-Own last ack.return_codes topics) λ u now. tt
subscribed-Own last topics (inr e) = (tt, λ u g. tt)
subscribed-Own last topics (inl p) = tt

await_sub_ack-Own :
    (topics : List Subscription) (id : ℕ) (e : Option Error)
    → Own (some id) (await_sub_ack topics id e)
await_sub_ack-Own topics id (some e) = tt
await_sub_ack-Own topics id none =
    (tt, λ c m. (MadeFor-OnOwn id c m, λ r h. subscribed-Own (some id) topics r))

subscribe_some-Own : (v : ℕ) (topics : List Subscription) → Own none (subscribe_some v topics)
unfolding subscribe_some
subscribe_some-Own v topics = Own->>= none aquire_packet_id _ (aquire_packet_id-Own none) λ id now.
    (
      tt,
      λ b g. Own->>= now (add_subscriptions topics) _ (add_subscriptions-Own now topics) λ u later.
          (
            tt,
            λ e h.
                Own->>= (some id) (await_sub_ack topics id e) _ (await_sub_ack-Own topics id e)
                  λ r last. (tt, λ w k. tt),
          ),
    )

subscribe-Own : (v : ℕ) (topics : List Subscription) → Own none (Calls.subscribe v topics)
unfolding Calls.subscribe
subscribe-Own v [] = tt
subscribe-Own v (t ∷ topics) = subscribe_some-Own v (t ∷ topics)

await_unsub_ack-Own : (id : ℕ) (e : Option Error) → Own (some id) (await_unsub_ack id e)
await_unsub_ack-Own id (some e) = tt
await_unsub_ack-Own id none = (tt, λ c m. (MadeFor-OnOwn id c m, λ p h. tt))

unsubscribe_some-Own : (v : ℕ) (names : List (List ℕ)) → Own none (unsubscribe_some v names)
unfolding unsubscribe_some
unsubscribe_some-Own v names = Own->>= none aquire_packet_id _ (aquire_packet_id-Own none) λ id now.
    (
      tt,
      λ b g. (
        tt,
        λ e h.
            Own->>= (some id) (await_unsub_ack id e) _ (await_unsub_ack-Own id e)
              λ r last. (tt, λ w k. tt),
      ),
    )

unsubscribe-Own : (v : ℕ) (names : List (List ℕ)) → Own none (Calls.unsubscribe v names)
unfolding Calls.unsubscribe
unsubscribe-Own v [] = tt
unsubscribe-Own v (name ∷ names) = unsubscribe_some-Own v (name ∷ names)

forget-Own : {A : Type 0} (m : Prog A) → Own none m → Own none (forget m)
forget-Own m h = Own->>= none m _ h λ a now. tt

pub body-Own : (v : ℕ) (id : List ℕ) (m : Call) → Own none (body v id m)
unfolding body
body-Own v id (System.connect options) = forget-Own _ (connect-Own v id options)
body-Own v id System.disconnect = forget-Own _ (disconnect-Own v)
body-Own v id System.ping = forget-Own _ (ping-Own v)
body-Own v id (System.publish topic payload options) =
    forget-Own _ (publish-Own v topic payload options)
body-Own v id (System.subscribe topics) = forget-Own _ (subscribe-Own v topics)
body-Own v id (System.unsubscribe names) = forget-Own _ (unsubscribe-Own v names)
