-- ===== src/Client/Tables.antt =====
-- What the tables of the client hold, and what it sends, at any moment of any interleaving.
pub mod History
pub mod Operations
pub mod Routine
pub mod Methods
pub mod Reachable
use mqttie.Prelude.{
  ℕ, zero, suc, List, ◌≡◌, ◌≤◌, ◌<◌, Option, none, some, ◌⊎◌, inl, inr, All, length,
}
use mqttie.Mqtt.{Error}
use mqttie.Go.Conn.{Conn}
use mqttie.Packets.PacketIo.{
  Packet, connect, conn_ack, publish, pub_ack, pub_rec, pub_rel, pub_comp, subscribe, sub_ack,
  unsubscribe, unsub_ack, ping_req, ping_resp, disconnect,
}
use mqttie.Client.PacketChanMap.{Chan}
use mqttie.Client.State.{Client}
use mqttie.Client.Actions
use mqttie.Client.Actions.{Op, Answer}
use mqttie.Client.Logic.{Contract}

-- A packet that may be pending under an identifier: a publish packet of QoS 1 or 2 that the client has
-- sent, or one of the two answers of the QoS 2 flow, with that identifier.
abbrev pub Pending : ℕ → Packet → Type 0
Pending id (connect p) = ⊥
Pending id (conn_ack p) = ⊥
Pending id (publish p) = (p.packet_identifier ≡ id) × (0 < p.topic.qos) × (p.topic.qos < 3)
Pending id (pub_ack p) = ⊥
Pending id (pub_rec p) = p.packet_identifier ≡ id
Pending id (pub_rel p) = p.packet_identifier ≡ id
Pending id (pub_comp p) = ⊥
Pending id (subscribe p) = ⊥
Pending id (sub_ack p) = ⊥
Pending id (unsubscribe p) = ⊥
Pending id (unsub_ack p) = ⊥
Pending id (ping_req p) = ⊥
Pending id (ping_resp p) = ⊥
Pending id (disconnect p) = ⊥

-- A packet that may be passed to the caller who waits with an identifier.
abbrev pub Answers : ℕ → Packet → Type 0
Answers id (connect p) = ⊥
Answers id (conn_ack p) = ⊥
Answers id (publish p) = ⊥
Answers id (pub_ack p) = ⊥
Answers id (pub_rec p) = p.packet_identifier ≡ id
Answers id (pub_rel p) = ⊥
Answers id (pub_comp p) = ⊥
Answers id (subscribe p) = ⊥
Answers id (sub_ack p) = p.packet_identifier ≡ id
Answers id (unsubscribe p) = ⊥
Answers id (unsub_ack p) = p.packet_identifier ≡ id
Answers id (ping_req p) = ⊥
Answers id (ping_resp p) = ⊥
Answers id (disconnect p) = ⊥

-- A packet that a client of version `v` may send: one of the kinds that MQTT has clients send, of its
-- version; a publish packet has a QoS up to 2, and with QoS 0 no identifier; a subscribe or unsubscribe
-- packet has a topic.
abbrev pub FromClient : ℕ → Packet → Type 0
FromClient v (connect p) = p.version ≡ v
FromClient v (conn_ack p) = ⊥
FromClient v (publish p) =
    (p.version ≡ v) × (p.topic.qos < 3) × (p.topic.qos ≡ 0 → p.packet_identifier ≡ 0)
FromClient v (pub_ack p) = p.version ≡ v
FromClient v (pub_rec p) = p.version ≡ v
FromClient v (pub_rel p) = p.version ≡ v
FromClient v (pub_comp p) = p.version ≡ v
FromClient v (subscribe p) = (p.version ≡ v) × (0 < length p.topics)
FromClient v (sub_ack p) = ⊥
FromClient v (unsubscribe p) = (p.version ≡ v) × (0 < length p.topics)
FromClient v (unsub_ack p) = ⊥
FromClient v (ping_req p) = p.version ≡ v
FromClient v (ping_resp p) = ⊥
FromClient v (disconnect p) = p.version ≡ v

abbrev pub PendingEntry : ℕ × Packet → Type 0
PendingEntry e = Pending e.0 e.1

abbrev pub OwnChan : ℕ × Chan → Type 0
OwnChan e = e.1.made_for ≡ e.0

abbrev pub OwnAnswer : Chan × Packet → Type 0
OwnAnswer e = Answers e.0.made_for e.1

-- The tables are sound: a pending packet stands under its identifier, a channel stands under the
-- identifier it was made for, and what waits in a channel is an answer with that identifier.
pub record IsSound {C : Conn} (c : Client C) : Type 0 where
  pub pending : All PendingEntry c.pending_packets.packets
  pub waiting : All OwnChan c.ack_chan.chans
  pub answers : All OwnAnswer c.buffers

-- What an operation needs.
abbrev pub Needs : ℕ → Op → Type 0
Needs v (Actions.pending_add id p) = Pending id p
Needs v (Actions.pending_set id p) = Pending id p
Needs v (Actions.send p) = FromClient v p
Needs v (Actions.offer c p) = Answers c.made_for p
Needs v o = Unit {0}

abbrev pub MadeFor : ℕ → Option Chan → Type 0
MadeFor id none = Unit {0}
MadeFor id (some c) = c.made_for ≡ id

abbrev pub Taken : Option Chan → Packet → Type 0
Taken none p = Unit {0}
Taken (some c) p = Answers c.made_for p

abbrev pub TakenOr : Option Chan → Packet ⊎ Error → Type 0
TakenOr c (inl p) = Taken c p
TakenOr c (inr e) = Unit {0}

-- What the answer of an operation is known to satisfy.
abbrev pub Gives : (o : Op) → Answer o → Type 0
Gives (Actions.ack_get id) r = MadeFor id r
Gives (Actions.take c) p = Taken c p
Gives (Actions.take_or_err c) r = TakenOr c r
Gives o a = Unit {0}

abbrev pub contract : ℕ → Contract
contract v = record { needs = Needs v; gives = Gives }

-- What the methods that the user calls need: as above, but that they answer no caller.
abbrev pub CallerNeeds : ℕ → Op → Type 0
CallerNeeds v (Actions.pending_add id p) = Pending id p
CallerNeeds v (Actions.pending_set id p) = Pending id p
CallerNeeds v (Actions.send p) = FromClient v p
CallerNeeds v (Actions.offer c p) = ⊥
CallerNeeds v o = Unit {0}

abbrev pub caller_contract : ℕ → Contract
caller_contract v = record { needs = CallerNeeds v; gives = λ o a. Unit {0} }
