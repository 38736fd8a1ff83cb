-- ===== src/Client/Actions/Results.antt =====
-- From the result of an operation to the state that it leaves.
use mqttie.Prelude.{ℕ, ◌≡◌, refl, Option, none, some, Bool, true, false, ◌⊎◌, inl, inr}
use mqttie.Mqtt.{Error}
use mqttie.Go.Outcome.{Outcome, ok, err, panic, stuck}
use mqttie.Packets.PacketIo.{Packet}
use mqttie.Client.Actions
use mqttie.Client.Actions.{Exec, blocked, fault, does, sent, received, looked_up, select_err}

-- What is known of the result is known of the answer and the state that it is made of.
pub carry :
    {A S : Type 0} (G : A → Type 0) (J : S → Type 0) {a a' : A} {c c' : S}
    → does a c ≡ does a' c'
    → G a
    → J c
    → G a' × J c'
carry G J {a} {a'} {c} {c'} e g j =
    let p : a ≡ a' = cc in let q : c ≡ c' = cc in (rw (← p) g, rw (← q) j)

-- What a Send, a Recv, a lookup of a subscriber or a push into a channel leaves of the state.
module _ {S : Type 0} (J : S → Type 0) (s c : S) (j : J s) where
  pub sent_keeps : (r : Outcome (Unit {0})) (a : Option Error) → sent r s ≡ does a c → J c
  sent_keeps (ok u) a e = let q : s ≡ c = cc in rw (← q) j
  sent_keeps (err x) a e = let q : s ≡ c = cc in rw (← q) j
  sent_keeps panic a e = cc
  sent_keeps stuck a e = cc

  pub received_keeps : (r : Outcome Packet) (a : Packet ⊎ Error) → received r s ≡ does a c → J c
  received_keeps (ok u) a e = let q : s ≡ c = cc in rw (← q) j
  received_keeps (err x) a e = let q : s ≡ c = cc in rw (← q) j
  received_keeps panic a e = cc
  received_keeps stuck a e = cc

  pub looked_up_keeps : (r : Outcome (Option ℕ)) (a : Option ℕ) → looked_up r s ≡ does a c → J c
  looked_up_keeps (ok u) a e = let q : s ≡ c = cc in rw (← q) j
  looked_up_keeps (err x) a e = cc
  looked_up_keeps panic a e = cc
  looked_up_keeps stuck a e = cc

  pub push_keeps : {A : Type 0} (r : Option A) (a : Unit {0}) → Actions.push r s ≡ does a c → J c
  push_keeps none a e = let q : s ≡ c = cc in rw (← q) j
  push_keeps (some x) a e = cc

-- A select takes one of its two cases.
pub select_keeps :
    {A S : Type 0} (G : A ⊎ Error → Type 0) (J : S → Type 0) (first : Bool) (x : Option A)
    (y : Option Error) (f : A → S) (g : Error → S) (a : A ⊎ Error) (c : S)
    → select_err first x y f g ≡ does a c
    → ((b : A) → x ≡ some b → G (inl b) × J (f b))
    → ((e : Error) → G (inr e) × J (g e))
    → G a × J c
select_keeps G J first none none f g a c e h k = cc
select_keeps G J first (some b) none f g a c e h k = carry G J e (h b refl).0 (h b refl).1
select_keeps G J first none (some x) f g a c e h k = carry G J e (k x).0 (k x).1
select_keeps G J true (some b) (some x) f g a c e h k = carry G J e (k x).0 (k x).1
select_keeps G J false (some b) (some x) f g a c e h k = carry G J e (h b refl).0 (h b refl).1
