-- ===== src/Client/Logic.antt =====
-- Facts that hold of a client however its goroutines are interleaved: what each operation may assume and
-- has to provide, and an invariant that the operations keep.
use mqttie.Prelude.{ℕ, zero, suc, List, [], ◌∷◌, ◌++◌, some, Bool, true, false, ◌≡◌, refl, All}
use mqttie.Go.Conn.{Conn}
use mqttie.Client.State.{Client}
use mqttie.Client.Actions.{Op, Answer, Env, Exec, blocked, fault, does, exec}
use mqttie.Client.Prog.{Prog, done, crash, act, ◌>>=◌}
use mqttie.Client.Receive.{receive}
use mqttie.Client.System.{
  System, Call, body, looped, advanced, advance, advance_caller, Step, receives, moves, calls,
  Reach, here, next,
}

-- The contract of an operation: `needs` before it, `gives` of its answer.
pub record Contract : Type 1 where
  pub needs : Op → Type 0
  pub gives : (o : Op) → Answer o → Type 0

-- The code meets the contract at each operation, and what it returns satisfies `R`.
abbrev pub Meets : {A : Type 0} → Contract → (A → Type 0) → Prog A → Type 0
Meets K R (done a) = R a
Meets K R crash = Unit {0}
Meets K R (act o k) = K.needs o × ((a : Answer o) → K.gives o a → Meets K R (k a))

abbrev pub Any : {A : Type 0} → A → Type 0
Any a = Unit {0}

pub Meets->>= :
    {A B : Type 0} (K : Contract) (R : A → Type 0) (S : B → Type 0) (m : Prog A) (f : A → Prog B)
    → Meets K R m
    → ((a : A) → R a → Meets K S (f a))
    → Meets K S (m >>= f)
Meets->>= K R S (done a) f hm hf = hf a hm
Meets->>= K R S crash f hm hf = tt
Meets->>= K R S (act o k) f hm hf = (hm.0, λ a g. Meets->>= K R S (k a) f (hm.1 a g) hf)

-- Code that meets a contract meets every one that needs less and gives more.
pub Meets-weaken :
    {A : Type 0} (K L : Contract) (R : A → Type 0) (m : Prog A)
    → ((o : Op) → K.needs o → L.needs o)
    → ((o : Op) (a : Answer o) → L.gives o a → K.gives o a)
    → Meets K R m
    → Meets L R m
Meets-weaken K L R (done a) n g h = h
Meets-weaken K L R crash n g h = tt
Meets-weaken K L R (act o k) n g h =
    (n o h.0, λ a x. Meets-weaken K L R (k a) n g (h.1 a (g o a x)))

-- The operations of the client keep the invariant `I` under the contract.
pub record Keeps (C : Conn) (fuel : ℕ) (K : Contract) (I : Client C → Type 0) : Type 0 where
  pub at :
      (env : Env) (o : Op) (c : Client C) (a : Answer o) (c' : Client C)
      → exec C fuel env o c ≡ does a c'
      → I c
      → K.needs o
      → K.gives o a × I c'

-- What holds of a system: the invariant of its state, and the contract for all of its goroutines.
pub record IsSafe {C : Conn} (K : Contract) (I : Client C → Type 0) (s : System C) : Type 0 where
  pub state : I s.client
  pub receiver : Meets K Any s.receiver
  pub callers : All (Meets K Any) s.callers

pub All-snoc :
    {A : Type 0} (P : A → Type 0) (xs : List A) (x : A) → All P xs → P x → All P (xs ++ (x ∷ []))
All-snoc P [] x h g = (g, tt)
All-snoc P (y ∷ xs) x h g = (h.0, All-snoc P xs x h.1 g)

module _ {C : Conn} {fuel : ℕ} {K : Contract} {I : Client C → Type 0}
    (keeps : Keeps C fuel K I) where
  advanced-Meets :
      {A T : Type 0} (R : A → Type 0) (env : Env) (o : Op) (k : Answer o → Prog A) (c : Client C)
      (f : Prog A → Client C → T) (t : T) (x : Exec (Answer o) (Client C))
      → exec C fuel env o c ≡ x
      → advanced x k f ≡ some t
      → Meets K R (act o k)
      → I c
      → (p : Prog A) × (c' : Client C) × (f p c' ≡ t) × Meets K R p × I c'
  advanced-Meets R env o k c f t blocked e h m i = cc
  advanced-Meets R env o k c f t fault e h m i = cc
  advanced-Meets R env o k c f t (does a c') e h m i =
      let (g, i') = keeps.at env o c a c' e i m.0 in (k a, c', cc, m.1 a g, i')

  -- One operation of a goroutine.
  pub advance-Meets :
      {A T : Type 0} (R : A → Type 0) (env : Env) (p : Prog A) (c : Client C)
      (f : Prog A → Client C → T) (t : T)
      → advance C fuel env p c f ≡ some t
      → Meets K R p
      → I c
      → (p' : Prog A) × (c' : Client C) × (f p' c' ≡ t) × Meets K R p' × I c'
  unfolding advance
  advance-Meets R env (done a) c f t h m i = cc
  advance-Meets R env crash c f t h m i = cc
  advance-Meets R env (act o k) c f t h m i = advanced-Meets R env o k c f t _ refl h m i

  pub advance_caller-Meets :
      {T : Type 0} (env : Env) (n : ℕ) (ps : List (Prog (Unit {0}))) (c : Client C)
      (f : List (Prog (Unit {0})) → Client C → T) (t : T)
      → advance_caller C fuel env n ps c f ≡ some t
      → All (Meets K Any) ps
      → I c
      → (qs : List (Prog (Unit {0}))) × (c' : Client C) × (f qs c' ≡ t)
        × All (Meets K Any) qs
        × I c'
  unfolding advance_caller
  advance_caller-Meets env n [] c f t h m i = cc
  advance_caller-Meets env zero (p ∷ ps) c f t h m i =
      let (p', c', e, m', i') = advance-Meets Any env p c (λ q. f (q ∷ ps)) t h m.0 i in
      (p' ∷ ps, c', e, (m', m.1), i')
  advance_caller-Meets env (suc n) (p ∷ ps) c f t h m i =
      let (qs, c', e, m', i') = advance_caller-Meets env n ps c (λ qs. f (p ∷ qs)) t h m.1 i in
      (p ∷ qs, c', e, (m.0, m'), i')

  module _ (v : ℕ) (id : List ℕ) (loop : Meets K Any (receive v)) where
    looped-Meets : (p : Prog Bool) → Meets K Any p → Meets K Any (looped v p)
    looped-Meets (done true) m = loop
    looped-Meets (done false) m = tt
    looped-Meets crash m = tt
    looped-Meets (act o k) m = m

    module _ (bodies : (m : Call) → Meets K Any (body v id m)) where
      pub Step-IsSafe : {s t : System C} → Step C fuel v id s t → IsSafe K I s → IsSafe K I t
      Step-IsSafe {s} {t} (receives env e) h =
          let (p, c, q, m, i) =
            advance-Meets Any env s.receiver s.client _ t e h.receiver h.state in
          rw (← q) (record { state = i; receiver = looped-Meets p m; callers = h.callers })
      Step-IsSafe {s} {t} (moves env n e) h =
          let (ps, c, q, m, i) =
            advance_caller-Meets env n s.callers s.client _ t e h.callers h.state in
          rw (← q) (record { state = i; receiver = h.receiver; callers = m })
      Step-IsSafe {s} (calls m e) h = rw e (record {
        state = h.state;
        receiver = h.receiver;
        callers = All-snoc (Meets K Any) s.callers (body v id m) h.callers (bodies m);
      })

      -- From a system that is safe every interleaving leads to systems that are safe.
      pub Reach-IsSafe : {s t : System C} → IsSafe K I s → Reach C fuel v id s t → IsSafe K I t
      Reach-IsSafe h here = h
      Reach-IsSafe h (next r st) = Step-IsSafe st (Reach-IsSafe h r)
