-- ===== src/Client/Tables/History.antt =====
-- What a caller of the client has done so far, and the channel it waits on.
pub mod Methods
pub mod Callers
use mqttie.Prelude.{
  ℕ, ◌≡◌, refl, List, [], ◌∷◌, Option, none, some, Bool, true, false, if◌then◌else◌,
}
use mqttie.Packets.PacketIo.{Packet, publish, subscribe, unsubscribe}
use mqttie.Client.PacketChanMap.{Chan}
use mqttie.Client.Actions
use mqttie.Client.Actions.{Op, Answer}
use mqttie.Client.Prog.{Prog, done, crash, act, ◌>>=◌, next_op}
use mqttie.Client.System.{Call, body}
use mqttie.Client.Tables.{Gives}

-- An operation that was done, with its answer.
pub data Event : Type 0 where
  did : (o : Op) → Answer o → Event

-- `events`, the last of them first, lead the code from `m` to `p`.
abbrev pub Follows : {A : Type 0} → List Event → Prog A → Prog A → Type 0
Follows [] m p = m ≡ p
Follows {A} (did o a ∷ events) m p =
    (k : Answer o → Prog A) × Follows events m (act o k) × (k a ≡ p)

-- The identifier of the packet that asks for an answer, where the operation sends one.
abbrev pub identified : Op → Option ℕ → Option ℕ
identified (Actions.send (publish p)) last = some p.packet_identifier
identified (Actions.send (subscribe p)) last = some p.packet_identifier
identified (Actions.send (unsubscribe p)) last = some p.packet_identifier
identified o last = last

-- The identifier of the last Publish, Subscribe or Unsubscribe packet that was sent.
abbrev pub last_sent : List Event → Option ℕ
last_sent [] = none
last_sent (did o a ∷ events) = identified o (last_sent events)

-- A wait on a channel is one on the channel that was made for the identifier `last`.
abbrev pub OnOwn : Option ℕ → Option Chan → Type 0
OnOwn last none = Unit {0}
OnOwn last (some ch) = last ≡ some ch.made_for

abbrev pub WaitsOnOwn : Option ℕ → Op → Type 0
WaitsOnOwn last (Actions.take c) = OnOwn last c
WaitsOnOwn last (Actions.take_or_err c) = OnOwn last c
WaitsOnOwn last o = Unit {0}

-- What the code does next is no wait, or one on that channel.
abbrev pub NextOnOwn : {A : Type 0} → Option ℕ → Prog A → Type 0
NextOnOwn last (done a) = Unit {0}
NextOnOwn last crash = Unit {0}
NextOnOwn last (act o k) = WaitsOnOwn last o

-- A goroutine of the user that is at `p`: there are a call and operations of it that have led there, and
-- a channel that it is about to wait on was made for the identifier of the packet it sent last.
pub record HasHistory (v : ℕ) (id : List ℕ) (p : Prog (Unit {0})) : Type 0 where
  pub call : Call
  pub events : List Event
  pub follows : Follows events (body v id call) p
  pub waits : NextOnOwn (last_sent events) p

-- The code waits on no other channel than its own, now and later.
abbrev pub Own : {A : Type 0} → Option ℕ → Prog A → Type 0
Own last (done a) = Unit {0}
Own last crash = Unit {0}
Own last (act o k) =
    WaitsOnOwn last o × ((a : Answer o) → Gives o a → Own (identified o last) (k a))

pub Own->>= :
    {A B : Type 0} (last : Option ℕ) (m : Prog A) (f : A → Prog B)
    → Own last m
    → ((a : A) (now : Option ℕ) → Own now (f a))
    → Own last (m >>= f)
Own->>= last (done a) f hm hf = hf a last
Own->>= last crash f hm hf = tt
Own->>= last (act o k) f hm hf = (hm.0, λ a g. Own->>= (identified o last) (k a) f (hm.1 a g) hf)

pub Own-if :
    {A : Type 0} (last : Option ℕ) (b : Bool) (m k : Prog A)
    → Own last m
    → Own last k
    → Own last (if b then m else k)
Own-if last true m k hm hk = hm
Own-if last false m k hm hk = hk
