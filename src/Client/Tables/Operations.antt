-- ===== src/Client/Tables/Operations.antt =====
-- Every operation keeps the tables sound.
use mqttie.Prelude.{
  ℕ, [], ◌∷◌, ◌≡◌, refl, Option, none, some, inl, inr, Bool-cases, Option-cases, All, arith,
}
use mqttie.Go.Conn.{Conn}
use mqttie.Packets.PacketIo.{Packet}
use mqttie.Client.IdMap.{is_some, lookup}
use mqttie.Client.IdMap.Members.{All-delete, All-insert, All-lookup}
use mqttie.Client.PacketMap
use mqttie.Client.PacketChanMap
use mqttie.Client.PacketChanMap.{Chan}
use mqttie.Client.Channels.{Buffers, held, offer as offer_packet, All-clear, chan_eq}
use mqttie.Client.State.{Client}
use mqttie.Client.Actions
use mqttie.Client.Actions.{
  Op, Answer, Env, Exec, blocked, fault, does, exec, sent, received, looked_up, select_err, in_chan,
  emptied,
}
use mqttie.Client.Actions.Results.{
  carry, sent_keeps, received_keeps, looked_up_keeps, push_keeps, select_keeps,
}
use mqttie.Client.Logic.{Keeps, Any}
use mqttie.Client.Tables.{
  PendingEntry, OwnChan, OwnAnswer, IsSound, Needs, Gives, MadeFor, Taken, TakenOr, Answers,
  contract, Pending,
}

-- A packet that is held in a channel answers to the caller it was made for.
held-Answers :
    (c : Chan) (p : Packet) (bs : Buffers)
    → held c bs ≡ some p
    → All OwnAnswer bs
    → Answers c.made_for p
unfolding held
held-Answers c p [] e h = cc
held-Answers c p ((d, q) ∷ bs) e h = elim (Bool-cases (chan_eq d c)) [
  | inl same ↦
      let key : d.made_for ≡ c.made_for = ground arith in
      let found : q ≡ p = cc (rw same at e) in rw (← key, ← found) h.0
  | inr more ↦ held-Answers c p bs (rw more at e) h.1
]

offer-OwnAnswer :
    (c : Chan) (p : Packet) (bs : Buffers)
    → Answers c.made_for p
    → All OwnAnswer bs
    → All OwnAnswer (offer_packet c p bs).0
unfolding offer_packet
offer-OwnAnswer c p bs a h = elim (Option-cases (held c bs)) [
  | inl e ↦ rw (offer_packet, e) (a, h)
  | inr (q, e) ↦ rw (offer_packet, e) h
]

add-PendingEntry :
    (id : ℕ) (p : Packet) (m : PacketMap.PacketMap)
    → Pending id p
    → All PendingEntry m.packets
    → All PendingEntry (PacketMap.add id p m).0.packets
unfolding PacketMap.add
add-PendingEntry id p m n h = elim (Bool-cases (is_some (lookup id m.packets))) [
  | inl there ↦ rw there h
  | inr free ↦ rw free (All-insert PendingEntry id p m.packets n h)
]

set-PendingEntry :
    (id : ℕ) (p : Packet) (m : PacketMap.PacketMap)
    → Pending id p
    → All PendingEntry m.packets
    → All PendingEntry (PacketMap.set id p m).packets
unfolding PacketMap.set
set-PendingEntry id p m n h = All-insert PendingEntry id p m.packets n h

del-PendingEntry :
    (id : ℕ) (m : PacketMap.PacketMap)
    → All PendingEntry m.packets
    → All PendingEntry (PacketMap.del id m).packets
unfolding PacketMap.del
del-PendingEntry id m h = All-delete PendingEntry id m.packets h

del-OwnChan :
    (id : ℕ) (m : PacketChanMap.PacketChanMap)
    → All OwnChan m.chans
    → All OwnChan (PacketChanMap.del id m).chans
unfolding PacketChanMap.del
del-OwnChan id m h = All-delete OwnChan id m.chans h

new-OwnChan :
    (id : ℕ) (made : Chan) (m : PacketChanMap.PacketChanMap)
    → made.made_for ≡ id
    → All OwnChan m.chans
    → All OwnChan (PacketChanMap.new id made m).0.chans
unfolding PacketChanMap.new
new-OwnChan id made m n h = elim (Bool-cases (is_some (lookup id m.chans))) [
  | inl there ↦ rw there h
  | inr free ↦ rw free (All-insert OwnChan id made m.chans n h)
]

get-MadeFor :
    (id : ℕ) (m : PacketChanMap.PacketChanMap)
    → All OwnChan m.chans
    → MadeFor id (PacketChanMap.get id m)
unfolding PacketChanMap.get
get-MadeFor id m h = elim (Option-cases (lookup id m.chans)) [
  | inl e ↦ rw e tt
  | inr (c, e) ↦ rw e (All-lookup OwnChan id c m.chans e h)
]

emptied-OwnAnswer :
    (c : Option Chan) (bs : Buffers) → All OwnAnswer bs → All OwnAnswer (emptied c bs)
emptied-OwnAnswer none bs h = h
emptied-OwnAnswer (some c) bs h = All-clear OwnAnswer c bs h

in_chan-Taken :
    (c : Option Chan) (bs : Buffers) (p : Packet)
    → in_chan c bs ≡ some p
    → All OwnAnswer bs
    → Taken c p
in_chan-Taken none bs p e h = tt
in_chan-Taken (some c) bs p e h = held-Answers c p bs e h

module _ {C : Conn} where
  sound :
      {c : Client C}
      → All PendingEntry c.pending_packets.packets
      → All OwnChan c.ack_chan.chans
      → All OwnAnswer c.buffers
      → IsSound c
  sound p w a = record { pending = p; waiting = w; answers = a }

module _ {C : Conn} (fuel v : ℕ) where
  -- Each operation keeps the tables sound, and its answer is as the contract says.
  pub exec-IsSound :
      (env : Env) (o : Op) (c : Client C) (a : Answer o) (c' : Client C)
      → exec C fuel env o c ≡ does a c'
      → IsSound c
      → Needs v o
      → Gives o a × IsSound c'
  unfolding exec
  exec-IsSound env Actions.next_id c a c' e i n =
      carry Any IsSound e tt (sound i.pending i.waiting i.answers)
  exec-IsSound env (Actions.pending_add id p) c a c' e i n =
      carry Any IsSound e tt
        (sound (add-PendingEntry id p c.pending_packets n i.pending) i.waiting i.answers)
  exec-IsSound env (Actions.pending_set id p) c a c' e i n =
      carry Any IsSound e tt
        (sound (set-PendingEntry id p c.pending_packets n i.pending) i.waiting i.answers)
  exec-IsSound env (Actions.pending_get id) c a c' e i n = carry Any IsSound e tt i
  exec-IsSound env (Actions.pending_del id) c a c' e i n =
      carry Any IsSound e tt
        (sound (del-PendingEntry id c.pending_packets i.pending) i.waiting i.answers)
  exec-IsSound env (Actions.ack_new id) c a c' e i n = carry Any IsSound e tt (
      sound i.pending (new-OwnChan id _ c.ack_chan refl i.waiting)
        (All-clear OwnAnswer _ c.buffers i.answers))
  exec-IsSound env (Actions.ack_get id) c a c' e i n =
      carry (MadeFor id) IsSound e (get-MadeFor id c.ack_chan i.waiting) i
  exec-IsSound env (Actions.ack_del id) c a c' e i n =
      carry Any IsSound e tt (sound i.pending (del-OwnChan id c.ack_chan i.waiting) i.answers)
  exec-IsSound env (Actions.send p) c a c' e i n =
      (tt, sent_keeps IsSound _ c' (sound i.pending i.waiting i.answers) _ a e)
  exec-IsSound env Actions.recv c a c' e i n =
      (tt, received_keeps IsSound _ c' (sound i.pending i.waiting i.answers) _ a e)
  exec-IsSound env Actions.close c a c' e i n =
      carry Any IsSound e tt (sound i.pending i.waiting i.answers)
  exec-IsSound env (Actions.offer ch p) c a c' e i n =
      carry Any IsSound e tt
        (sound i.pending i.waiting (offer-OwnAnswer ch p c.buffers n i.answers))
  exec-IsSound env (Actions.take ch) c a c' e i n = elim (Option-cases (in_chan ch c.buffers)) [
    | inl empty ↦ absurd (nothing (rw (empty, exec) at e))
    | inr (p, full) ↦
        carry (Taken ch) IsSound (rw (full, exec) at e)
          (in_chan-Taken ch c.buffers p full i.answers)
          (sound i.pending i.waiting (emptied-OwnAnswer ch c.buffers i.answers))
  ]
    where
      nothing : blocked ≡ does a c' → ⊥
      nothing h = cc
  exec-IsSound env (Actions.take_or_err ch) c a c' e i n =
      select_keeps (TakenOr ch) IsSound env.error_first (in_chan ch c.buffers) c.err_chan _ _ a c' e
        (λ p full. (
          in_chan-Taken ch c.buffers p full i.answers,
          sound i.pending i.waiting (emptied-OwnAnswer ch c.buffers i.answers),
        ))
        (λ x. (tt, sound i.pending i.waiting i.answers))
  exec-IsSound env (Actions.push_err x) c a c' e i n =
      (tt, push_keeps IsSound _ c' (sound i.pending i.waiting i.answers) c.err_chan a e)
  exec-IsSound env (Actions.offer_err x) c a c' e i n = elim (Option-cases c.err_chan) [
    | inl empty ↦ carry Any IsSound (rw (empty, exec) at e) tt (sound i.pending i.waiting i.answers)
    | inr (y, full) ↦ carry Any IsSound (rw (full, exec) at e) tt i
  ]
  exec-IsSound env (Actions.push_ping p) c a c' e i n =
      (tt, push_keeps IsSound _ c' (sound i.pending i.waiting i.answers) c.ping_resp a e)
  exec-IsSound env (Actions.push_conn_ack p) c a c' e i n =
      (tt, push_keeps IsSound _ c' (sound i.pending i.waiting i.answers) c.conn_ack a e)
  exec-IsSound env Actions.ping_or_err c a c' e i n =
      select_keeps Any IsSound env.error_first c.ping_resp c.err_chan _ _ a c' e
        (λ p full. (tt, sound i.pending i.waiting i.answers))
        (λ x. (tt, sound i.pending i.waiting i.answers))
  exec-IsSound env Actions.conn_ack_or_err c a c' e i n =
      select_keeps Any IsSound env.error_first c.conn_ack c.err_chan _ _ a c' e
        (λ p full. (tt, sound i.pending i.waiting i.answers))
        (λ x. (tt, sound i.pending i.waiting i.answers))
  exec-IsSound env (Actions.subs_add topic ch) c a c' e i n =
      carry Any IsSound e tt (sound i.pending i.waiting i.answers)
  exec-IsSound env (Actions.subs_get topic) c a c' e i n =
      (tt, looked_up_keeps IsSound c c' i _ a e)
  exec-IsSound env (Actions.subs_del topic) c a c' e i n =
      carry Any IsSound e tt (sound i.pending i.waiting i.answers)
  exec-IsSound env (Actions.deliver ch payload) c a c' e i n = elim (Bool-cases env.has_room) [
    | inl room ↦ carry Any IsSound (rw (room, exec) at e) tt (sound i.pending i.waiting i.answers)
    | inr full ↦ carry Any IsSound (rw (full, exec) at e) tt i
  ]
  exec-IsSound env (Actions.expire_in seconds) c a c' e i n =
      carry Any IsSound e tt (sound i.pending i.waiting i.answers)

  pub Keeps-IsSound : Keeps C fuel (contract v) IsSound
  Keeps-IsSound = record { at = exec-IsSound }
