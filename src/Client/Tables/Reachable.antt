-- ===== src/Client/Tables/Reachable.antt =====
-- The client from its start on, with any calls of the user in any interleaving.
use mqttie.Prelude.{ℕ, ◌≡◌, List, Option, some, [], ◌∷◌, ◌⊎◌, inl, inr, All}
use mqttie.Go.Conn.{Conn}
use mqttie.Packets.PacketIo.{Packet}
use mqttie.Client.Options.{ClientOptions}
use mqttie.Client.State.{Client, new_client}
use mqttie.Client.Actions
use mqttie.Client.Actions.{Op, Env, does, exec}
use mqttie.Client.Prog.{Prog, done, crash, act, next_op}
use mqttie.Client.System.{System, start, Reach}
use mqttie.Client.Logic.{IsSafe, Meets, Any, Reach-IsSafe, Contract}
use mqttie.Client.Tables.{IsSound, FromClient, contract}
use mqttie.Client.Tables.History.{HasHistory}
use mqttie.Client.Tables.History.Callers.{IsTracked, All-HasHistory, Reach-IsTracked}
use mqttie.Client.Tables.Operations.{Keeps-IsSound}
use mqttie.Client.Tables.Routine.{receive-Meets}
use mqttie.Client.Tables.Methods.Bodies.{body-Meets}

new_client-IsSound :
    (C : Conn) (uuid : List ℕ) (random : Option (ℕ × ℕ)) (stream : C.reader.Stream)
    (sink : C.writer.Sink) (options : List (Option ClientOptions))
    → IsSound (new_client C uuid random stream sink options)
unfolding new_client
new_client-IsSound C uuid random stream sink options = record {
  pending = tt;
  waiting = tt;
  answers = tt;
}

-- One of the callers does `o` next.
abbrev pub CallerDoes : Op → List (Prog (Unit {0})) → Type 0
CallerDoes o [] = ⊥
CallerDoes o (p ∷ ps) = (next_op p ≡ some o) ⊎ CallerDoes o ps

-- One of the goroutines does `o` next.
abbrev pub Does : {C : Conn} → Op → System C → Type 0
Does o s = (next_op s.receiver ≡ some o) ⊎ CallerDoes o s.callers

Meets-next_op :
    {A : Type 0} (K : Contract) (R : A → Type 0) (p : Prog A) (o : Op)
    → Meets K R p
    → next_op p ≡ some o
    → K.needs o
Meets-next_op K R (done a) o m e = cc
Meets-next_op K R crash o m e = cc
Meets-next_op K R (act x k) o m e = let q : x ≡ o = cc in rw (← q) m.0

CallerDoes-needs :
    (K : Contract) (o : Op) (ps : List (Prog (Unit {0})))
    → All (Meets K Any) ps
    → CallerDoes o ps
    → K.needs o
CallerDoes-needs K o [] m d = elim d [ ]
CallerDoes-needs K o (p ∷ ps) m (inl e) = Meets-next_op K Any p o m.0 e
CallerDoes-needs K o (p ∷ ps) m (inr d) = CallerDoes-needs K o ps m.1 d

pub Does-needs :
    {C : Conn} {I : Client C → Type 0} (K : Contract) (o : Op) (s : System C)
    → IsSafe K I s
    → Does o s
    → K.needs o
Does-needs K o s h (inl e) = Meets-next_op K Any s.receiver o h.receiver e
Does-needs K o s h (inr d) = CallerDoes-needs K o s.callers h.callers d

start-IsSafe :
    (C : Conn) (fuel : ℕ) (c : Client C)
    → IsSound c
    → IsSafe (contract c.version) IsSound (start C fuel c)
unfolding start
start-IsSafe C fuel c i = record { state = i; receiver = receive-Meets c.version; callers = tt }

start-IsTracked :
    (C : Conn) (fuel : ℕ) (c : Client C)
    → All (IsTracked c.version c.client_id) (start C fuel c).callers
unfolding start
start-IsTracked C fuel c = tt

-- The client that NewClient returns, with its receive routine.
abbrev pub Reachable :
    (C : Conn)
    → ℕ
    → List ℕ
    → Option (ℕ × ℕ)
    → C.reader.Stream
    → C.writer.Sink
    → List (Option ClientOptions)
    → System C
    → Type 0
Reachable C fuel uuid random stream sink options t =
    let c = new_client C uuid random stream sink options in
    Reach C fuel c.version c.client_id (start C fuel c) t

module _ {C : Conn} (fuel : ℕ) (uuid : List ℕ) (random : Option (ℕ × ℕ)) (stream : C.reader.Stream)
    (sink : C.writer.Sink) (options : List (Option ClientOptions)) (t : System C) where
  all-IsSafe :
      Reachable C fuel uuid random stream sink options t
      → IsSafe (contract (new_client C uuid random stream sink options).version) IsSound t
  all-IsSafe r =
      let c = new_client C uuid random stream sink options in
      Reach-IsSafe (Keeps-IsSound fuel c.version) c.version c.client_id (receive-Meets c.version)
        (body-Meets c.version c.client_id)
        (start-IsSafe C fuel c (new_client-IsSound C uuid random stream sink options)) r

  -- Whatever the user calls and however the goroutines are interleaved: a pending packet stands under
  -- its own identifier, a channel in ackChan was made for the identifier it stands under, and a packet
  -- that waits in a channel is an answer with the identifier the channel was made for. Each goroutine of
  -- the user has come from a call by operations of its code, and a channel of ackChan that it is about to
  -- wait on was made for the identifier of the last Publish, Subscribe or Unsubscribe packet it has sent.
  pub Reach-IsSound :
      Reachable C fuel uuid random stream sink options t
      → let c = new_client C uuid random stream sink options in
        IsSound t.client × All (HasHistory c.version c.client_id) t.callers
  Reach-IsSound r =
      let c = new_client C uuid random stream sink options in
      (
        (all-IsSafe r).state,
        All-HasHistory c.version c.client_id t.callers (
            Reach-IsTracked c.version c.client_id fuel
              (start-IsSafe C fuel c (new_client-IsSound C uuid random stream sink options))
              (start-IsTracked C fuel c) r),
      )

  -- Whatever goroutine is about to send a packet, it is of a kind that MQTT has clients send and of the
  -- client's version; a publish packet has a QoS up to 2, and with QoS 0 no identifier; a subscribe or
  -- unsubscribe packet has a topic.
  pub Reach-FromClient :
      (p : Packet)
      → Reachable C fuel uuid random stream sink options t
      → Does (Actions.send p) t
      → FromClient (new_client C uuid random stream sink options).version p
  Reach-FromClient p r d = Does-needs (contract _) (Actions.send p) t (all-IsSafe r) d
