-- ===== src/Client/Faults.antt =====
-- Calls and packets that the client does not handle as it should.
use mqttie.Prelude.{
  ℕ, zero, suc, ◌+◌, ◌-◌, ◌≡◌, ◌≤◌, ◌<◌, ◌^◌, refl, ap, List, [], ◌∷◌, ◌++◌, Option, none, some,
  Bool, true, false, ltb, lt→ltb, Bool-cases, Option-cases, inl, inr, ◌⊎◌, arith, length, get_elem?,
  if◌then◌else◌,
}
use mqttie.Mqtt.{Topic, Subscription, qos_1}
use mqttie.Go.Conn.{Conn}
use mqttie.Go.Outcome.{Outcome, ok, err, panic, stuck}
use mqttie.Packets.SubAck.{SubAck}
use mqttie.Packets.Publish.{Publish}
use mqttie.Packets.PacketIo.{sub_ack, publish as publish_packet, pub_ack}
use mqttie.Packets.PacketIo.Link.{PacketIo, send_packet}
use mqttie.Client.SubMap
use mqttie.Client.PacketMap
use mqttie.Client.PacketMap.Laws.{get-del_same}
use mqttie.Client.Options.{PublishOptions}
use mqttie.Client.State.{Client}
use mqttie.Client.Actions.{Env, Exec, blocked, fault, does, exec}
use mqttie.Client.Prog.{Prog, done, crash, act, ◌>>=◌, alone, proceed}
use mqttie.Client.Receive.{handle, acknowledge}
use mqttie.Client.Calls.{aquire_packet_id, publish_options, publish, drop_refused, subscribed}
use mqttie.Client.PacketId
use mqttie.Client.PacketId.Refines.{aquire_packet_id-alone}
use mqttie.Client.PacketId.Total.{attempts-cases}

-- A run that ends by itself, with a result or a panic.
abbrev Ended : {A : Type 0} → Outcome A → Type 0
Ended (ok a) = Unit {0}
Ended (err e) = ⊥
Ended panic = Unit {0}
Ended stuck = ⊥

module _ (C : Conn) (fuel : ℕ) where
  proceed_panics :
      {A B D S : Type 0} (x : Exec D S) (f : D → S → Outcome A × S) (g : D → S → Outcome B × S)
      (c : S)
      → ((d : D) (s : S) → Ended (f d s).0 → (g d s).0 ≡ panic)
      → Ended (proceed x f c).0
      → (proceed x g c).0 ≡ panic
  proceed_panics blocked f g c ih h = elim h [ ]
  proceed_panics fault f g c ih h = refl
  proceed_panics (does d s) f g c ih h = ih d s h

  -- Code that ends, before code that panics.
  bind_panics :
      {A B : Type 0} (envs : ℕ → Env) (m : Prog A) (f : A → Prog B) (c : Client C)
      → ((a : A) (es : ℕ → Env) (s : Client C) → (alone C fuel es (f a) s).0 ≡ panic)
      → Ended (alone C fuel envs m c).0
      → (alone C fuel envs (m >>= f) c).0 ≡ panic
  unfolding alone
  bind_panics envs (done a) f c hf h = hf a envs c
  bind_panics envs crash f c hf h = refl
  bind_panics envs (act o k) f c hf h =
      proceed_panics (exec C fuel (envs 0) o c) _ _ c
        (λ d s e. bind_panics (λ n. envs (n + 1)) (k d) f s hf e) h

  proceed_panic_first :
      {A B D S : Type 0} (x : Exec D S) (f : D → S → Outcome A × S) (g : D → S → Outcome B × S)
      (c : S)
      → ((d : D) (s : S) → (f d s).0 ≡ panic → (g d s).0 ≡ panic)
      → (proceed x f c).0 ≡ panic
      → (proceed x g c).0 ≡ panic
  proceed_panic_first blocked f g c ih h = cc
  proceed_panic_first fault f g c ih h = refl
  proceed_panic_first (does d s) f g c ih h = ih d s h

  panic_first :
      {A B : Type 0} (envs : ℕ → Env) (m : Prog A) (f : A → Prog B) (c : Client C)
      → (alone C fuel envs m c).0 ≡ panic
      → (alone C fuel envs (m >>= f) c).0 ≡ panic
  unfolding alone
  panic_first envs (done a) f c h = cc
  panic_first envs crash f c h = refl
  panic_first envs (act o k) f c h =
      proceed_panic_first (exec C fuel (envs 0) o c) _ _ c
        (λ d s e. panic_first (λ n. envs (n + 1)) (k d) f s e) h

  drop_refused_panics :
      (codes : List ℕ) (topics : List Subscription) (i status : ℕ) (envs : ℕ → Env) (c : Client C)
      → get_elem? codes i ≡ some status
      → 2 < status
      → length topics ≤ i
      → (alone C fuel envs (drop_refused codes topics) c).0 ≡ panic
  unfolding drop_refused alone exec
  drop_refused_panics [] topics i status envs c e bad short = cc
  drop_refused_panics (s ∷ codes) [] zero status envs c e bad short =
      let q : s ≡ status = cc in rw (q, lt→ltb 2 status bad) refl
  drop_refused_panics (s ∷ codes) (t ∷ topics) zero status envs c e bad short = absurd (omega arith)
  drop_refused_panics (s ∷ codes) [] (suc i) status envs c e bad short =
      elim (Bool-cases (ltb 2 s)) [
        | inl refused ↦ rw refused refl
        | inr granted ↦
            rw granted (drop_refused_panics codes [] i status envs c e bad (omega arith))
      ]
  drop_refused_panics (s ∷ codes) (t ∷ topics) (suc i) status envs c e bad short =
      elim (Bool-cases (ltb 2 s)) [
        | inl refused ↦
            rw refused (drop_refused_panics codes topics i status _ _ e bad (omega arith))
        | inr granted ↦
            rw granted (drop_refused_panics codes topics i status envs c e bad (omega arith))
      ]

-- Subscribe panics where a SUBACK has a failure code at an index that no requested topic has.
pub subscribed-surplus :
    (C : Conn) (fuel : ℕ) (envs : ℕ → Env) (c : Client C) (topics : List Subscription)
    (ack : SubAck) (i status : ℕ)
    → get_elem? ack.return_codes i ≡ some status
    → 2 < status
    → length topics ≤ i
    → (alone C fuel envs (subscribed topics (inl (sub_ack ack))) c).0 ≡ panic
subscribed-surplus C fuel envs c topics ack i status e bad short =
    panic_first C fuel envs (drop_refused ack.return_codes topics) _ c
      (drop_refused_panics C fuel ack.return_codes topics i status envs c e bad short)

options_panic :
    (C : Conn) (fuel : ℕ) (before after : List (Option PublishOptions)) (opt : PublishOptions)
    (retain : Bool) (envs : ℕ → Env) (c : Client C)
    → opt.retain ≡ none
    → (alone C fuel envs (publish_options (before ++ some opt ∷ after) retain) c).0 ≡ panic
unfolding publish_options alone
options_panic C fuel [] after opt retain envs c e = rw e refl
options_panic C fuel (none ∷ before) after opt retain envs c e =
    options_panic C fuel before after opt retain envs c e
options_panic C fuel (some o ∷ before) after opt retain envs c e = elim (Option-cases o.retain) [
  | inl unset ↦ rw unset refl
  | inr (r, set) ↦
      rw set (options_panic C fuel before after opt (if r then true else retain) envs c e)
]

cases-Ended :
    {A : Type 0} (o r : Outcome A) → o ≡ r → ((a : A) × (r ≡ ok a)) ⊎ (r ≡ panic) → Ended o
cases-Ended o r e (inl (a, f)) = rw (e, f) tt
cases-Ended o r e (inr f) = rw (e, f) tt

aquired-Ended :
    (C : Conn) (fuel : ℕ) (envs : ℕ → Env) (c : Client C)
    → Ended (alone C fuel envs aquire_packet_id c).0
unfolding PacketId.aquire_packet_id
aquired-Ended C fuel envs c =
    cases-Ended _ _ (ap (λ r. r.0) (aquire_packet_id-alone C fuel envs c)) (
      attempts-cases (PacketId.in_use c.pending_packets c.ack_chan) (2 ^ 16 - 1)
        c.packet_id_counter)

-- Publish panics for every topic, payload and state of the client where one of its options does not say
-- whether the packet is retained.
pub publish-unset_retain :
    (C : Conn) (fuel v : ℕ) (topic : Topic) (payload : List ℕ)
    (before after : List (Option PublishOptions)) (opt : PublishOptions) (envs : ℕ → Env)
    (c : Client C)
    → opt.retain ≡ none
    → (alone C fuel envs (publish v topic payload (before ++ some opt ∷ after)) c).0 ≡ panic
unfolding publish
publish-unset_retain C fuel v topic payload before after opt envs c e =
    bind_panics C fuel envs aquire_packet_id _ c
      (λ id es s.
        panic_first C fuel es (publish_options (before ++ some opt ∷ after) false) _ s
          (options_panic C fuel before after opt false es s e))
      (aquired-Ended C fuel envs c)

-- A PUBLISH with QoS 1 that the server sends has the client forget its own pending packet under the same
-- identifier: where no subscriber has the topic and the PUBACK is sent, the round goes on with that
-- entry gone.
pub handle-own_pending :
    (C : Conn) (fuel v : ℕ) (p : Publish) (envs : ℕ → Env) (c : Client C) (io : PacketIo C)
    → SubMap.get p.topic.name c.subs ≡ ok none
    → p.topic.qos ≡ qos_1
    → send_packet C
        (envs 1).uuid
        (pub_ack (record { version = v; packet_identifier = p.packet_identifier }))
        c.io
      ≡ (ok tt, io)
    → let r = alone C fuel envs (handle v (publish_packet p)) c in
      (r.0 ≡ ok true)
      × (r.1.io ≡ io)
      × (PacketMap.get p.packet_identifier r.1.pending_packets ≡ none)
unfolding handle acknowledge alone exec
handle-own_pending C fuel v p envs c io nobody one send =
    rw (nobody, one, send) (refl, refl, get-del_same _ _)
