-- ===== src/Client/System.antt =====
-- The client as it runs: its state, the goroutine of recvRoutine, and the goroutines of the user that
-- are inside a method. One step is one operation of one of them.
pub mod Run
use mqttie.Prelude.{ℕ, zero, suc, List, [], ◌∷◌, ◌++◌, Option, none, some, Bool, true, false, ◌≡◌}
use mqttie.Mqtt.{Topic, Subscription}
use mqttie.Go.Conn.{Conn}
use mqttie.Client.Options.{ConnectOptions, PublishOptions}
use mqttie.Client.State.{Client}
use mqttie.Client.Actions.{Env, Exec, blocked, fault, does, exec}
use mqttie.Client.Prog.{Prog, done, crash, act, ◌>>=◌}
use mqttie.Client.Receive.{receive}
use mqttie.Client.Calls

-- A call of the user.
pub data Call : Type 0 where
  connect : List (Option ConnectOptions) → Call
  disconnect ping : Call
  publish : Topic → List ℕ → List (Option PublishOptions) → Call
  subscribe : List Subscription → Call
  unsubscribe : List (List ℕ) → Call

abbrev pub forget : {A : Type 0} → Prog A → Prog (Unit {0})
forget m = m >>= λ _. done tt

-- What the call runs, on a client of version `v` and identity `id`, which never change.
unfoldable pub body : ℕ → List ℕ → Call → Prog (Unit {0})
body v id (connect options) = forget (Calls.connect v id options)
body v id disconnect = forget (Calls.disconnect v)
body v id ping = forget (Calls.ping v)
body v id (publish topic payload options) = forget (Calls.publish v topic payload options)
body v id (subscribe topics) = forget (Calls.subscribe v topics)
body v id (unsubscribe names) = forget (Calls.unsubscribe v names)

pub record System (C : Conn) : Type 0 where
  pub client : Client C
  pub receiver : Prog Bool
  pub callers : List (Prog (Unit {0}))

-- The loop of recvRoutine: a round that ended with `true` is followed by another.
abbrev pub looped : ℕ → Prog Bool → Prog Bool
looped v (done true) = receive v
looped v (done false) = done false
looped v crash = crash
looped v (act o k) = act o k

abbrev pub advanced :
    {S T A : Type 0} {B : Type 0} → Exec B S → (B → Prog A) → (Prog A → S → T) → Option T
advanced blocked k f = none
advanced fault k f = none
advanced (does a c) k f = some (f (k a) c)

module _ (C : Conn) (fuel : ℕ) where
  -- The next operation of a goroutine, if it has one that is possible now.
  unfoldable pub advance :
      {A T : Type 0} → Env → Prog A → Client C → (Prog A → Client C → T) → Option T
  advance env (done a) c f = none
  advance env crash c f = none
  advance env (act o k) c f = advanced (exec C fuel env o c) k f

  unfoldable pub advance_caller :
      {T : Type 0}
      → Env
      → ℕ
      → List (Prog (Unit {0}))
      → Client C
      → (List (Prog (Unit {0})) → Client C → T)
      → Option T
  advance_caller env i [] c f = none
  advance_caller env zero (p ∷ ps) c f = advance env p c (λ p'. f (p' ∷ ps))
  advance_caller env (suc i) (p ∷ ps) c f = advance_caller env i ps c (λ ps'. f (p ∷ ps'))

  module _ (v : ℕ) (id : List ℕ) where
    -- One step, in an environment that decides as it likes.
    pub data Step (s t : System C) : Type 0 where
      receives :
          (env : Env)
          → advance env s.receiver s.client (λ p c. record s { client = c; receiver = looped v p })
            ≡ some t
          → Step s t
      moves :
          (env : Env) (i : ℕ)
          → advance_caller env i s.callers s.client (λ ps c. record s { client = c; callers = ps })
            ≡ some t
          → Step s t
      calls : (m : Call) → t ≡ record s { callers = s.callers ++ (body v id m ∷ []) } → Step s t

    pub data Reach (s : System C) : System C → Type 0 where
      here : Reach s s
      next : {t u : System C} → Reach s t → Step t u → Reach s u

  -- `go client.recvRoutine()` on a new client.
  unfoldable pub start : Client C → System C
  start c = record { client = c; receiver = receive c.version; callers = [] }
