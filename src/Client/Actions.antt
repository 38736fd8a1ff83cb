-- ===== src/Client/Actions.antt =====
-- What the goroutines of the client do to its state, one operation at a time.
pub mod Results
use mqttie.Prelude.{
  ℕ, zero, suc, ◌+◌, ◌%◌, ◌^◌, List, [], ◌∷◌, Option, none, some, Bool, true, false, if◌then◌else◌,
  ◌⊎◌, inl, inr,
}
use mqttie.Mqtt.{Error}
use mqttie.Go.Outcome.{Outcome, ok, err, panic, stuck}
use mqttie.Go.Conn.{Conn}
use mqttie.Packets.PingResp.{PingResp}
use mqttie.Packets.ConnAck.{ConnAck}
use mqttie.Packets.PacketIo.{Packet}
use mqttie.Packets.PacketIo.Link.{send_packet, recv_packet, close as close_io}
use mqttie.Client.IdMap.{is_some}
use mqttie.Client.PacketMap
use mqttie.Client.PacketChanMap
use mqttie.Client.PacketChanMap.{Chan}
use mqttie.Client.Channels.{Buffers, held, clear, offer as offer_packet}
use mqttie.Client.SubMap
use mqttie.Client.State.{Client}

-- A channel operand may be nil, on which a receive waits for ever.
pub data Op : Type 0 where
  -- atomic.AddUint32(&c.packetIDCounter, 1)
  next_id : Op
  pending_add pending_set : ℕ → Packet → Op
  pending_get pending_del : ℕ → Op
  ack_new ack_get ack_del : ℕ → Op
  -- c.io.Send, c.io.Recv, c.io.Close
  send : Packet → Op
  recv close : Op
  -- select { case c <- packet: default: }
  offer : Chan → Packet → Op
  -- <-c, and the same in a select with <-c.errChan
  take take_or_err : Option Chan → Op
  -- c.errChan <- err, and the same in a select with a default
  push_err offer_err : Error → Op
  -- c.pingResp <- packet, c.connAck <- packet
  push_ping : PingResp → Op
  push_conn_ack : ConnAck → Op
  -- select over c.pingResp or c.connAck, and c.errChan
  ping_or_err conn_ack_or_err : Op
  subs_add : List ℕ → ℕ → Op
  subs_get subs_del : List ℕ → Op
  -- select { case subChan <- payload: default: }
  deliver : ℕ → List ℕ → Op
  -- c.expiresAt = time.Now().Add(seconds)
  expire_in : ℕ → Op

-- What the goroutine gets back.
abbrev pub Answer : Op → Type 0
Answer next_id = ℕ
Answer (pending_add id p) = Bool
Answer (pending_set id p) = Unit {0}
Answer (pending_get id) = Option Packet
Answer (pending_del id) = Unit {0}
Answer (ack_new id) = Bool
Answer (ack_get id) = Option Chan
Answer (ack_del id) = Unit {0}
Answer (send p) = Option Error
Answer recv = Packet ⊎ Error
Answer close = Option Error
Answer (offer c p) = Bool
Answer (take c) = Packet
Answer (take_or_err c) = Packet ⊎ Error
Answer (push_err e) = Unit {0}
Answer (offer_err e) = Bool
Answer (push_ping p) = Unit {0}
Answer (push_conn_ack p) = Unit {0}
Answer ping_or_err = PingResp ⊎ Error
Answer conn_ack_or_err = ConnAck ⊎ Error
Answer (subs_add topic c) = Bool
Answer (subs_get topic) = Option ℕ
Answer (subs_del topic) = Unit {0}
Answer (deliver c payload) = Bool
Answer (expire_in seconds) = Unit {0}

-- What the environment decides in one step: which of two ready cases a select takes, whether a
-- subscriber's channel has room, the time, and what uuid.NewV4 returns.
pub record Env : Type 0 where
  pub error_first : Bool
  pub has_room : Bool
  pub now : ℕ
  pub uuid : List ℕ

-- The operation is not possible yet, it panics, or it is done.
pub data Exec (A S : Type 0) : Type 0 where
  blocked : Exec A S
  fault : Exec A S
  does : A → S → Exec A S

-- A select between a value and an error; a case whose channel is empty is not taken.
abbrev pub select_err :
    {A S : Type 0} → Bool → Option A → Option Error → (A → S) → (Error → S) → Exec (A ⊎ Error) S
select_err first none none f g = blocked
select_err first (some a) none f g = does (inl a) (f a)
select_err first none (some e) f g = does (inr e) (g e)
select_err true (some a) (some e) f g = does (inr e) (g e)
select_err false (some a) (some e) f g = does (inl a) (f a)

-- What is in a channel, which may be nil.
abbrev pub in_chan : Option Chan → Buffers → Option Packet
in_chan none bs = none
in_chan (some c) bs = held c bs

abbrev pub emptied : Option Chan → Buffers → Buffers
emptied none bs = bs
emptied (some c) bs = clear c bs

-- A call that never returns leaves its goroutine where it is.
abbrev pub sent : {S : Type 0} → Outcome (Unit {0}) → S → Exec (Option Error) S
sent (ok u) s = does none s
sent (err e) s = does (some e) s
sent panic s = fault
sent stuck s = blocked

abbrev pub received : {S : Type 0} → Outcome Packet → S → Exec (Packet ⊎ Error) S
received (ok p) s = does (inl p) s
received (err e) s = does (inr e) s
received panic s = fault
received stuck s = blocked

abbrev pub looked_up : {S : Type 0} → Outcome (Option ℕ) → S → Exec (Option ℕ) S
looked_up (ok c) s = does c s
looked_up (err e) s = fault
looked_up panic s = fault
looked_up stuck s = blocked

-- Into a channel with room for one value.
abbrev pub push : {A S : Type 0} → Option A → S → Exec (Unit {0}) S
push none s = does tt s
push (some a) s = blocked

module _ (C : Conn) (fuel : ℕ) where
  unfoldable pub exec : Env → (o : Op) → Client C → Exec (Answer o) (Client C)
  exec env next_id c =
      let counter = (c.packet_id_counter + 1) % 2 ^ 32 in
      does counter (record c { packet_id_counter = counter })
  exec env (pending_add id p) c =
      let (m, added) = PacketMap.add id p c.pending_packets in
      does added (record c { pending_packets = m })
  exec env (pending_set id p) c =
      does tt (record c { pending_packets = PacketMap.set id p c.pending_packets })
  exec env (pending_get id) c = does (PacketMap.get id c.pending_packets) c
  exec env (pending_del id) c =
      does tt (record c { pending_packets = PacketMap.del id c.pending_packets })
  exec env (ack_new id) c =
      let made : Chan = record { made_for = id; serial = c.serial } in
      let (m, added) = PacketChanMap.new id made c.ack_chan in
      does added (record c { ack_chan = m; serial = c.serial + 1; buffers = clear made c.buffers })
  exec env (ack_get id) c = does (PacketChanMap.get id c.ack_chan) c
  exec env (ack_del id) c = does tt (record c { ack_chan = PacketChanMap.del id c.ack_chan })
  exec env (send p) c = let (r, io) = send_packet C env.uuid p c.io in sent r (record c { io = io })
  exec env recv c = let (r, io) = recv_packet C fuel c.io in received r (record c { io = io })
  exec env close c = let (e, io) = close_io C c.io in does e (record c { io = io })
  exec env (offer ch p) c =
      let (bs, done) = offer_packet ch p c.buffers in does done (record c { buffers = bs })
  exec env (take ch) c = elim (in_chan ch c.buffers) [
    | none ↦ blocked
    | some p ↦ does p (record c { buffers = emptied ch c.buffers })
  ]
  exec env (take_or_err ch) c =
      select_err env.error_first (in_chan ch c.buffers) c.err_chan
        (λ p. record c { buffers = emptied ch c.buffers }) (λ e. record c { err_chan = none })
  exec env (push_err e) c = push c.err_chan (record c { err_chan = some e })
  exec env (offer_err e) c = elim c.err_chan [
    | none ↦ does true (record c { err_chan = some e })
    | some x ↦ does false c
  ]
  exec env (push_ping p) c = push c.ping_resp (record c { ping_resp = some p })
  exec env (push_conn_ack p) c = push c.conn_ack (record c { conn_ack = some p })
  exec env ping_or_err c =
      select_err env.error_first c.ping_resp c.err_chan (λ p. record c { ping_resp = none })
        (λ e. record c { err_chan = none })
  exec env conn_ack_or_err c =
      select_err env.error_first c.conn_ack c.err_chan (λ p. record c { conn_ack = none })
        (λ e. record c { err_chan = none })
  exec env (subs_add topic ch) c = does true (record c { subs = SubMap.add topic ch c.subs })
  exec env (subs_get topic) c = looked_up (SubMap.get topic c.subs) c
  exec env (subs_del topic) c = does tt (record c { subs = SubMap.del topic c.subs })
  exec env (deliver ch payload) c =
      if env.has_room
      then does true (record c { delivered = (ch, payload) ∷ c.delivered })
      else does false c
  exec env (expire_in seconds) c = does tt (record c { expires_at = some (env.now + seconds) })
