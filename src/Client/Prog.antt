-- ===== src/Client/Prog.antt =====
-- The code of a goroutine: operations on the client, each followed by what the code does with the
-- answer.
use mqttie.Prelude.{ℕ, ◌+◌, ◌≡◌, refl, Bool, true, false, if◌then◌else◌, Option, none, some}
use mqttie.Go.Outcome.{Outcome, ok, panic, stuck}
use mqttie.Go.Conn.{Conn}
use mqttie.Client.State.{Client}
use mqttie.Client.Actions.{Op, Answer, Env, Exec, blocked, fault, does, exec}

-- `crash` is a panic of the code itself.
pub data Prog (A : Type 0) : Type 0 where
  done : A → Prog A
  crash : Prog A
  act : (o : Op) → (Answer o → Prog A) → Prog A

infixl 5 ◌>>=◌ ◌>>◌
abbrev pub ◌>>=◌ : {A B : Type 0} → Prog A → (A → Prog B) → Prog B
done a >>= f = f a
crash >>= f = crash
act o k >>= f = act o (λ a. k a >>= f)

abbrev pub ◌>>◌ : {A B : Type 0} → Prog A → Prog B → Prog B
m >> k = m >>= λ _. k

abbrev pub perform : (o : Op) → Prog (Answer o)
perform o = act o done

-- What a goroutine does next.
abbrev pub next_op : {A : Type 0} → Prog A → Option Op
next_op (done a) = none
next_op crash = none
next_op (act o k) = some o

-- The rest of a run after one operation.
abbrev pub proceed : {A B S : Type 0} → Exec B S → (B → S → Outcome A × S) → S → Outcome A × S
proceed blocked f c = (stuck, c)
proceed fault f c = (panic, c)
proceed (does b c) f s = f b c

module _ (C : Conn) (fuel : ℕ) where
  -- The goroutine alone: from its start to its end without any other in between. `stuck` says that it
  -- waits for somebody else.
  unfoldable pub alone : {A : Type 0} → (ℕ → Env) → Prog A → Client C → Outcome A × Client C
  alone envs (done a) c = (ok a, c)
  alone envs crash c = (panic, c)
  alone {A} envs (act o k) c =
      proceed (exec C fuel (envs 0) o c) (λ a c'. alone (λ n. envs (n + 1)) (k a) c') c

  -- A test in the code, once its answer is known.
  pub alone-then :
      {A : Type 0} (envs : ℕ → Env) (b : Bool) (m k : Prog A) (c : Client C)
      → b ≡ true
      → alone envs (if b then m else k) c ≡ alone envs m c
  alone-then envs b m k c e = rw e refl

  pub alone-else :
      {A : Type 0} (envs : ℕ → Env) (b : Bool) (m k : Prog A) (c : Client C)
      → b ≡ false
      → alone envs (if b then m else k) c ≡ alone envs k c
  alone-else envs b m k c e = rw e refl
