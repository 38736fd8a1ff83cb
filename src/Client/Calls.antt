-- ===== src/Client/Calls.antt =====
-- The methods of Client in client/client.go that the user calls, and aquirePacketID as one goroutine
-- among others runs it.
use mqttie.Prelude.{
  ℕ, zero, suc, ◌-◌, ◌%◌, ◌^◌, List, [], ◌∷◌, Option, none, some, Bool, true, false, if◌then◌else◌,
  ltb, ◌==◌, ◌⊎◌, inl, inr, map,
}
use mqttie.Mqtt.{
  Error, Topic, Subscription, qos_0, qos_1, qos_2, illegal_qos, illegal_response, internal_conflict,
}
use mqttie.Mqtt.{
  connect_bad_version, connect_id_not_allowed, connect_unavailable, connect_credentials,
  connect_unauthorized,
}
use mqttie.Packets.Connect.{Connect}
use mqttie.Packets.ConnAck.{
  ConnAck, accepted, bad_version, id_not_allowed, server_unavail, bad_credentials, unauthorized,
}
use mqttie.Packets.Publish.{Publish}
use mqttie.Packets.PacketIo.{
  Packet, connect as connect_packet, publish as publish_packet, subscribe as subscribe_packet,
  sub_ack, unsubscribe as unsubscribe_packet, ping_req, disconnect as disconnect_packet,
  new_connect,
}
use mqttie.Packets.PingResp.{PingResp}
use mqttie.Client.IdMap.{is_some}
use mqttie.Client.Options.{ConnectOptions, PublishOptions}
use mqttie.Client.State.{or_old}
use mqttie.Client.Actions.{
  next_id, pending_add, pending_get, ack_new, ack_get, ack_del, send, close, take, take_or_err,
  push_err, offer_err, ping_or_err, conn_ack_or_err, subs_add, subs_del, expire_in,
}
use mqttie.Client.Prog.{Prog, done, crash, ◌>>=◌, ◌>>◌, perform}

-- The loop of aquirePacketID, by the rounds left.
unfoldable pub attempts : ℕ → Prog ℕ
attempts zero = crash
attempts (suc rounds) = do
  counter ← perform next_id
  let rest = attempts rounds
  let id = counter % 2 ^ 16
  p ← perform (pending_get id)
  if is_some p then rest else (do c ← perform (ack_get id); if is_some c then rest else done id)

unfoldable pub aquire_packet_id : Prog ℕ
aquire_packet_id = attempts (2 ^ 16 - 1)

-- The loop over the options of Connect; the will options are not looked at.
unfoldable pub connect_options : List (Option ConnectOptions) → Connect → Connect
connect_options [] conn = conn
connect_options (none ∷ options) conn = connect_options options conn
connect_options (some opt ∷ options) conn = connect_options options (record conn {
  keep_alive = or_old opt.keep_alive conn.keep_alive;
  clean_session = or_old opt.clean_session conn.clean_session;
  username = or_old opt.username conn.username;
  password = or_old opt.password conn.password;
})

-- The error for the return code of a ConnAck.
unfoldable pub connect_result : ConnAck ⊎ Error → Option Error
connect_result (inr e) = some e
connect_result (inl ack) =
    let code = ack.return_code in
    if code == accepted
    then none
    else if code == bad_version
    then some connect_bad_version
    else if code == id_not_allowed
    then some connect_id_not_allowed
    else if code == server_unavail
    then some connect_unavailable
    else if code == bad_credentials
    then some connect_credentials
    else if code == unauthorized
    then some connect_unauthorized
    else some illegal_response

-- The packet of Connect.
unfoldable pub connect_request : ℕ → List ℕ → List (Option ConnectOptions) → Connect
connect_request v id options = connect_options options (record (new_connect v) { client_id = id })

-- `if conn.KeepAlive > 0 { c.expiresAt = … }`
abbrev pub set_expiry : ℕ → Prog (Unit {0})
set_expiry seconds = if ltb 0 seconds then perform (expire_in seconds) else done tt

abbrev pub await_conn_ack : Option Error → Prog (Option Error)
await_conn_ack (some e) = done (some e)
await_conn_ack none = do r ← perform conn_ack_or_err; done (connect_result r)

unfoldable pub connect : ℕ → List ℕ → List (Option ConnectOptions) → Prog (Option Error)
connect v id options = do
  let conn = connect_request v id options
  set_expiry conn.keep_alive
  e ← perform (send (connect_packet conn))
  await_conn_ack e

-- The first of two errors.
abbrev pub first_error : Option Error → Option Error → Option Error
first_error (some e) f = some e
first_error none f = f

unfoldable pub disconnect : ℕ → Prog (Option Error)
disconnect v = do
  e ← perform (send (disconnect_packet (record { version = v })))
  closed ← perform close
  done (first_error e closed)

abbrev pub pinged : PingResp ⊎ Error → Prog (Option Error)
pinged (inl p) = done none
pinged (inr e) = do perform (offer_err e); done (some e)

abbrev pub await_ping : Option Error → Prog (Option Error)
await_ping (some e) = done (some e)
await_ping none = do r ← perform ping_or_err; pinged r

unfoldable pub ping : ℕ → Prog (Option Error)
ping v = do e ← perform (send (ping_req (record { version = v }))); await_ping e

-- `if *opts.Retain { pub.Retain = *opts.Retain }` for each option, where a nil Retain is a panic
unfoldable pub publish_options : List (Option PublishOptions) → Bool → Prog Bool
publish_options [] retain = done retain
publish_options (none ∷ options) retain = publish_options options retain
publish_options (some opt ∷ options) retain = elim opt.retain [
  | none ↦ crash
  | some r ↦ publish_options options (if r then true else retain)
]

-- The wait for the PUBREC of a packet with QoS 2.
abbrev pub await_rec : ℕ → ℕ → Option Error → Prog (Option Error)
await_rec qos id (some e) = done (some e)
await_rec qos id none =
    if qos == qos_2 then (do c ← perform (ack_get id); perform (take c); done none) else done none

-- A packet with QoS 1 or 2 is pending before it is sent.
abbrev pub publish_pending : ℕ → Publish → Prog (Option Error)
publish_pending id msg = do
  perform (pending_add id (publish_packet msg))
  e ← perform (send (publish_packet msg))
  await_rec msg.topic.qos id e

-- The switch over the QoS, and what follows it.
unfoldable pub publish_as : ℕ → Publish → Prog (Option Error)
publish_as id msg =
    if msg.topic.qos == qos_0
    then (do e ← perform (send (publish_packet msg)); await_rec qos_0 id e)
    else if msg.topic.qos == qos_2
    then (do
      perform (ack_new id)
      e ← publish_pending id (record msg { packet_identifier = id })
      perform (ack_del id)
      done e)
    else if msg.topic.qos == qos_1
    then publish_pending id (record msg { packet_identifier = id })
    else done (some illegal_qos)

unfoldable pub publish : ℕ → Topic → List ℕ → List (Option PublishOptions) → Prog (Option Error)
publish v topic payload options = do
  id ← aquire_packet_id
  retain ← publish_options options false
  publish_as id (record {
    topic = topic;
    version = v;
    duplicate = false;
    retain = retain;
    packet_identifier = 0;
    payload = payload;
  })

-- `for i, status := range statusCodes { if status > 2 { c.subs.Del(topics[i].Name) } }`, which panics
-- where there is no topic for a bad code.
unfoldable pub drop_refused : List ℕ → List Subscription → Prog (Unit {0})
drop_refused [] topics = done tt
drop_refused (status ∷ codes) [] = if ltb 2 status then crash else drop_refused codes []
drop_refused (status ∷ codes) (t ∷ topics) = do
  if ltb 2 status then perform (subs_del t.topic.name) else done tt
  drop_refused codes topics

unfoldable pub add_subscriptions : List Subscription → Prog (Unit {0})
add_subscriptions [] = done tt
add_subscriptions (t ∷ topics) = do
  perform (subs_add t.topic.name t.messages)
  add_subscriptions topics

-- What Subscribe returns.
abbrev pub Statuses : Type 0
Statuses = List ℕ × Option Error

-- The answer to a subscribe packet.
abbrev pub subscribed : List Subscription → Packet ⊎ Error → Prog Statuses
subscribed topics (inl (sub_ack ack)) = do
  drop_refused ack.return_codes topics
  done (ack.return_codes, none)
subscribed topics (inl p) = done ([], some internal_conflict)
subscribed topics (inr e) = do perform (push_err e); done ([], some e)

abbrev pub await_sub_ack : List Subscription → ℕ → Option Error → Prog Statuses
await_sub_ack topics id (some e) = done ([], some e)
await_sub_ack topics id none = do
  c ← perform (ack_get id)
  r ← perform (take_or_err c)
  subscribed topics r

unfoldable pub subscribe_some : ℕ → List Subscription → Prog Statuses
subscribe_some v topics = do
  id ← aquire_packet_id
  perform (ack_new id)
  add_subscriptions topics
  e ← perform (
      send (
        subscribe_packet (record {
          version = v;
          packet_identifier = id;
          topics = map (λ (t : Subscription). t.topic) topics;
        })))
  r ← await_sub_ack topics id e
  perform (ack_del id)
  done r

unfoldable pub subscribe : ℕ → List Subscription → Prog Statuses
subscribe v [] = done ([], none)
subscribe v (t ∷ topics) = subscribe_some v (t ∷ topics)

-- Unsubscribe waits for its answer only where Send had no error.
abbrev pub await_unsub_ack : ℕ → Option Error → Prog (Option Error)
await_unsub_ack id (some e) = done (some e)
await_unsub_ack id none = do c ← perform (ack_get id); perform (take c); done none

unfoldable pub unsubscribe_some : ℕ → List (List ℕ) → Prog (Option Error)
unsubscribe_some v names = do
  id ← aquire_packet_id
  perform (ack_new id)
  e ←
      perform
        (send (unsubscribe_packet (record { version = v; packet_identifier = id; topics = names })))
  r ← await_unsub_ack id e
  perform (ack_del id)
  done r

unfoldable pub unsubscribe : ℕ → List (List ℕ) → Prog (Option Error)
unsubscribe v [] = done none
unsubscribe v (name ∷ names) = unsubscribe_some v (name ∷ names)
