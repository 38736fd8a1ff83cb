-- ===== src/Client/Answered.antt =====
-- A call of the user whose answer recvRoutine receives: the caller returns with it.
use mqttie.Prelude.{
  get_or, Option, ℕ, ◌+◌, ◌≤◌, ◌≡◌, refl, List, [], ◌∷◌, none, some, true, ltb, Bool-cases, inl,
  inr, length, arith,
}
use mqttie.Mqtt.{
  Error, Subscription, qos_2, illegal_response, connect_bad_version, connect_id_not_allowed,
  connect_unavailable, connect_credentials, connect_unauthorized,
}
use mqttie.Go.Conn.{Conn}
use mqttie.Go.Outcome.{Outcome, ok}
use mqttie.Packets.SubAck.{SubAck}
use mqttie.Packets.PubRec.{PubRec}
use mqttie.Packets.ConnAck.{ConnAck}
use mqttie.Packets.PingResp.{PingResp}
use mqttie.Packets.PacketIo.{Packet, sub_ack, pub_rec, pub_rel}
use mqttie.Packets.PacketIo.Link.{PacketIo, send_packet}
use mqttie.Client.PacketMap
use mqttie.Client.PacketMap.Laws.{get-set_same}
use mqttie.Client.PacketChanMap
use mqttie.Client.PacketChanMap.{Chan}
use mqttie.Client.Channels.{Buffers, held, offer, chan_eq}
use mqttie.Client.State.{Client}
use mqttie.Client.Actions.{Env, Exec, blocked, fault, does, exec}
use mqttie.Client.Prog.{Prog, done, crash, act, ◌>>=◌, alone, proceed}
use mqttie.Client.Receive.{handle}
use mqttie.Client.Calls.{drop_refused, subscribed, await_sub_ack, await_rec}

-- The error of each return code of a CONNACK, from 0 on.
abbrev refusal : ℕ → Option Error
refusal code =
    get_or
      (none
        ∷ some connect_bad_version
        ∷ some connect_id_not_allowed
        ∷ some connect_unavailable
        ∷ some connect_credentials
        ∷ some connect_unauthorized
        ∷ [])
      code (some illegal_response)

chan_eq_refl : (c : Chan) → chan_eq c c ≡ true
chan_eq_refl c = ground arith

held-offer :
    (ch : Chan) (p : Packet) (bs : Buffers) → held ch bs ≡ none → held ch (offer ch p bs).0 ≡ some p
unfolding held offer
held-offer ch p bs h = rw (offer, h) (rw (held, chan_eq_refl ch) refl)

module _ (C : Conn) (fuel : ℕ) where
  proceed_ok :
      {A D S : Type 0} {T : Type 0} (x : Exec D S) (f : D → S → Outcome A × S)
      (g : D → S → Outcome T × S) (c : S) (a : A) (r : Outcome T)
      → ((d : D) (s : S) → (f d s).0 ≡ ok a → (g d s).0 ≡ r)
      → (proceed x f c).0 ≡ ok a
      → (proceed x g c).0 ≡ r
  proceed_ok blocked f g c a r ih h = cc
  proceed_ok fault f g c a r ih h = cc
  proceed_ok (does d s) f g c a r ih h = ih d s h

  -- Code that returns, and then does nothing but return.
  bind_returns :
      {A T : Type 0} (envs : ℕ → Env) (m : Prog A) (a : A) (t : T) (c : Client C)
      → (alone C fuel envs m c).0 ≡ ok a
      → (alone C fuel envs (m >>= λ x. done t) c).0 ≡ ok t
  unfolding alone
  bind_returns envs (done x) a t c h = refl
  bind_returns envs crash a t c h = cc
  bind_returns envs (act o k) a t c h =
      proceed_ok (exec C fuel (envs 0) o c) _ _ c a (ok t)
        (λ d s e. bind_returns (λ n. envs (n + 1)) (k d) a t s e) h

  -- With a topic for each return code none is out of range.
  drop_refused_returns :
      (codes : List ℕ) (topics : List Subscription) (envs : ℕ → Env) (c : Client C)
      → length codes ≤ length topics
      → (alone C fuel envs (drop_refused codes topics) c).0 ≡ ok tt
  unfolding drop_refused alone exec
  drop_refused_returns [] topics envs c room = refl
  drop_refused_returns (s ∷ codes) [] envs c room = absurd (omega arith)
  drop_refused_returns (s ∷ codes) (t ∷ topics) envs c room = elim (Bool-cases (ltb 2 s)) [
    | inl refused ↦ rw refused (drop_refused_returns codes topics _ _ (omega arith))
    | inr granted ↦ rw granted (drop_refused_returns codes topics envs c (omega arith))
  ]

  subscribed_returns :
      (topics : List Subscription) (ack : SubAck) (envs : ℕ → Env) (c : Client C)
      → length ack.return_codes ≤ length topics
      → (alone C fuel envs (subscribed topics (inl (sub_ack ack))) c).0
        ≡ ok (ack.return_codes, none)
  subscribed_returns topics ack envs c room =
      bind_returns envs (drop_refused ack.return_codes topics) tt _ c
        (drop_refused_returns ack.return_codes topics envs c room)

  -- A SUBACK that is received reaches the caller of Subscribe who waits with its identifier on an empty
  -- channel, and with no error pending and a topic for each return code Subscribe returns the codes.
  pub sub_ack-answered :
      (v : ℕ) (topics : List Subscription) (ack : SubAck) (ch : Chan) (envs : ℕ → Env)
      (c : Client C)
      → PacketChanMap.get ack.packet_identifier c.ack_chan ≡ some ch
      → held ch c.buffers ≡ none
      → c.err_chan ≡ none
      → length ack.return_codes ≤ length topics
      → (alone C fuel envs
          (handle v (sub_ack ack) >>= λ on. await_sub_ack topics ack.packet_identifier none)
          c).0
        ≡ ok (ack.return_codes, none)
  unfolding handle alone exec
  sub_ack-answered v topics ack ch envs c waits empty calm room = rw waits (
      rw (waits, held-offer ch (sub_ack ack) c.buffers empty, calm)
        (subscribed_returns topics ack _ _ room))

  -- A PUBREC that is received reaches the caller of Publish who waits with its identifier on an empty
  -- channel: where the PUBREL is sent, Publish returns without an error, and the PUBREL is pending under
  -- that identifier.
  pub pub_rec-answered :
      (v : ℕ) (p : PubRec) (ch : Chan) (envs : ℕ → Env) (c : Client C) (io : PacketIo C)
      → PacketChanMap.get p.packet_identifier c.ack_chan ≡ some ch
      → held ch c.buffers ≡ none
      → let rel = pub_rel (record { version = v; packet_identifier = p.packet_identifier }) in
        send_packet C (envs 3).uuid rel c.io ≡ (ok tt, io)
        → let r =
            alone C fuel envs
              (handle v (pub_rec p) >>= λ on. await_rec qos_2 p.packet_identifier none)
              c in
          (r.0 ≡ ok none)
          × (r.1.io ≡ io)
          × (PacketMap.get p.packet_identifier r.1.pending_packets ≡ some rel)
  unfolding handle alone exec
  pub_rec-answered v p ch envs c io waits empty send = rw waits (
      rw (send, waits)
        (rw (exec, held-offer ch (pub_rec p) c.buffers empty) (refl, refl, get-set_same _ _ _)))
