-- ===== src/Client/Tables/Methods/Subscriptions.antt =====
-- Subscribe and Unsubscribe under the contract.
use mqttie.Prelude.{
  ℕ, ◌≡◌, refl, ◌<◌, List, [], ◌∷◌, Option, none, some, Bool-cases, inl, inr, ◌⊎◌, ltb, arith,
  length, map,
}
use mqttie.Mqtt.{Error, Subscription}
use mqttie.Packets.PacketIo.{Packet, sub_ack}
use mqttie.Client.Calls
use mqttie.Client.Calls.{
  attempts, aquire_packet_id, connect_options, connect_request, set_expiry, await_conn_ack,
  await_ping, pinged,
}
use mqttie.Client.Calls.{
  publish_options, await_rec, publish_pending, publish_as, drop_refused, add_subscriptions,
  Statuses, subscribed, await_sub_ack, subscribe_some, await_unsub_ack, unsubscribe_some,
}
use mqttie.Client.Logic.{Meets, Any, Meets->>=}
use mqttie.Client.Tables.{caller_contract}
use mqttie.Client.Tables.Methods.{aquire-Meets}

length-map : {A B : Type 0} (f : A → B) (xs : List A) → length (map f xs) ≡ length xs
length-map f [] = refl
length-map f (x ∷ xs) = omega (arith, length-map f xs)

module _ (v : ℕ) where
  drop_refused-Meets :
      (codes : List ℕ) (topics : List Subscription)
      → Meets (caller_contract v) Any (drop_refused codes topics)
  unfolding drop_refused
  drop_refused-Meets [] topics = tt
  drop_refused-Meets (status ∷ codes) [] = elim (Bool-cases (ltb 2 status)) [
    | inl bad ↦ rw bad tt
    | inr good ↦ rw good (drop_refused-Meets codes [])
  ]
  drop_refused-Meets (status ∷ codes) (t ∷ topics) = elim (Bool-cases (ltb 2 status)) [
    | inl bad ↦ rw bad (tt, λ u g. drop_refused-Meets codes topics)
    | inr good ↦ rw good (drop_refused-Meets codes topics)
  ]

  add_subscriptions-Meets :
      (topics : List Subscription) → Meets (caller_contract v) Any (add_subscriptions topics)
  unfolding add_subscriptions
  add_subscriptions-Meets [] = tt
  add_subscriptions-Meets (t ∷ topics) = (tt, λ b g. add_subscriptions-Meets topics)

  subscribed-Meets :
      (topics : List Subscription) (r : Packet ⊎ Error)
      → Meets (caller_contract v) Any (subscribed topics r)
  subscribed-Meets topics (inl (sub_ack ack)) =
      Meets->>= (caller_contract v) Any Any (drop_refused ack.return_codes topics) _
        (drop_refused-Meets ack.return_codes topics) λ u g. tt
  subscribed-Meets topics (inr e) = (tt, λ u g. tt)
  subscribed-Meets topics (inl p) = tt

  await_sub_ack-Meets :
      (topics : List Subscription) (id : ℕ) (e : Option Error)
      → Meets (caller_contract v) Any (await_sub_ack topics id e)
  await_sub_ack-Meets topics id (some e) = tt
  await_sub_ack-Meets topics id none = (tt, λ c g. (tt, λ r h. subscribed-Meets topics r))

  subscribe_some-Meets :
      (topics : List Subscription)
      → 0 < length topics
      → Meets (caller_contract v) Any (subscribe_some v topics)
  unfolding subscribe_some
  subscribe_some-Meets topics some_topic =
      Meets->>= (caller_contract v) Any Any aquire_packet_id _ (aquire-Meets v) λ id r. (
        tt,
        λ b g.
            Meets->>= (caller_contract v) Any Any (add_subscriptions topics) _
              (add_subscriptions-Meets topics)
              λ u h. (
                (refl, rw length-map some_topic),
                λ e j.
                    Meets->>= (caller_contract v) Any Any (await_sub_ack topics id e) _
                      (await_sub_ack-Meets topics id e) λ x k. (tt, λ w l. tt),
              ),
      )

  pub subscribe-Meets :
      (topics : List Subscription) → Meets (caller_contract v) Any (Calls.subscribe v topics)
  unfolding Calls.subscribe
  subscribe-Meets [] = tt
  subscribe-Meets (t ∷ topics) = subscribe_some-Meets (t ∷ topics) (omega arith)

  await_unsub_ack-Meets :
      (id : ℕ) (e : Option Error) → Meets (caller_contract v) Any (await_unsub_ack id e)
  await_unsub_ack-Meets id (some e) = tt
  await_unsub_ack-Meets id none = (tt, λ c g. (tt, λ p h. tt))

  unsubscribe_some-Meets :
      (names : List (List ℕ))
      → 0 < length names
      → Meets (caller_contract v) Any (unsubscribe_some v names)
  unfolding unsubscribe_some
  unsubscribe_some-Meets names some_name =
      Meets->>= (caller_contract v) Any Any aquire_packet_id _ (aquire-Meets v) λ id r. (
        tt,
        λ b g. (
          (refl, some_name),
          λ e j.
              Meets->>= (caller_contract v) Any Any (await_unsub_ack id e) _
                (await_unsub_ack-Meets id e) λ x k. (tt, λ w l. tt),
        ),
      )

  pub unsubscribe-Meets :
      (names : List (List ℕ)) → Meets (caller_contract v) Any (Calls.unsubscribe v names)
  unfolding Calls.unsubscribe
  unsubscribe-Meets [] = tt
  unsubscribe-Meets (name ∷ names) = unsubscribe_some-Meets (name ∷ names) (omega arith)
