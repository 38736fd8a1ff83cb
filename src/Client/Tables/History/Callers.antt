-- ===== src/Client/Tables/History/Callers.antt =====
-- The callers of the client, from its start on, with their histories.
use mqttie.Prelude.{ℕ, zero, suc, ◌≡◌, refl, List, [], ◌∷◌, Option, some, All}
use mqttie.Go.Conn.{Conn}
use mqttie.Client.State.{Client}
use mqttie.Client.Actions.{Op, Answer, Env, Exec, blocked, fault, does, exec}
use mqttie.Client.Prog.{Prog, done, crash, act}
use mqttie.Client.System.{
  System, Call, body, advanced, advance, advance_caller, Step, receives, moves, calls, Reach, here,
  next,
}
use mqttie.Client.Logic.{Meets, Any, IsSafe, All-snoc, advance-Meets, Reach-IsSafe}
use mqttie.Client.Tables.{IsSound, contract}
use mqttie.Client.Tables.Operations.{Keeps-IsSound, exec-IsSound}
use mqttie.Client.Tables.Routine.{receive-Meets}
use mqttie.Client.Tables.Methods.Bodies.{body-Meets}
use mqttie.Client.Tables.History.{Event, did, Follows, last_sent, Own, NextOnOwn, HasHistory}
use mqttie.Client.Tables.History.Methods.{body-Own}

module _ (v : ℕ) (id : List ℕ) where
  -- A call that has come to `p`, from where it waits on no other channel than its own.
  pub record IsTracked (p : Prog (Unit {0})) : Type 0 where
    pub call : Call
    pub events : List Event
    pub follows : Follows events (body v id call) p
    pub own : Own (last_sent events) p

  begun : (m : Call) → IsTracked (body v id m)
  begun m = record { call = m; events = []; follows = refl; own = body-Own v id m }

  Own-NextOnOwn : (last : Option ℕ) (p : Prog (Unit {0})) → Own last p → NextOnOwn last p
  Own-NextOnOwn last (done a) h = tt
  Own-NextOnOwn last crash h = tt
  Own-NextOnOwn last (act o k) h = h.0

  pub All-HasHistory : (ps : List (Prog (Unit {0}))) → All IsTracked ps → All (HasHistory v id) ps
  All-HasHistory [] h = tt
  All-HasHistory (p ∷ ps) h = (
    record {
      call = h.0.call;
      events = h.0.events;
      follows = h.0.follows;
      waits = Own-NextOnOwn (last_sent h.0.events) p h.0.own;
    },
    All-HasHistory ps h.1,
  )

  module _ {C : Conn} (fuel : ℕ) where
    advanced-IsTracked :
        {T : Type 0} (env : Env) (o : Op) (k : Answer o → Prog (Unit {0})) (c : Client C)
        (f : Prog (Unit {0}) → Client C → T) (t : T) (x : Exec (Answer o) (Client C))
        → exec C fuel env o c ≡ x
        → advanced x k f ≡ some t
        → Meets (contract v) Any (act o k)
        → IsSound c
        → IsTracked (act o k)
        → (p : Prog (Unit {0})) × (c' : Client C) × (f p c' ≡ t) × IsTracked p
    advanced-IsTracked env o k c f t blocked e h m i w = cc
    advanced-IsTracked env o k c f t fault e h m i w = cc
    advanced-IsTracked env o k c f t (does a c') e h m i w = (
      k a,
      c',
      cc,
      record {
        call = w.call;
        events = did o a ∷ w.events;
        follows = (k, w.follows, refl);
        own = w.own.1 a (exec-IsSound fuel v env o c a c' e i m.0).0;
      },
    )

    advance-IsTracked :
        {T : Type 0} (env : Env) (p : Prog (Unit {0})) (c : Client C)
        (f : Prog (Unit {0}) → Client C → T) (t : T)
        → advance C fuel env p c f ≡ some t
        → Meets (contract v) Any p
        → IsSound c
        → IsTracked p
        → (q : Prog (Unit {0})) × (c' : Client C) × (f q c' ≡ t) × IsTracked q
    unfolding advance
    advance-IsTracked env (done a) c f t h m i w = cc
    advance-IsTracked env crash c f t h m i w = cc
    advance-IsTracked env (act o k) c f t h m i w = advanced-IsTracked env o k c f t _ refl h m i w

    advance_caller-IsTracked :
        {T : Type 0} (env : Env) (n : ℕ) (ps : List (Prog (Unit {0}))) (c : Client C)
        (f : List (Prog (Unit {0})) → Client C → T) (t : T)
        → advance_caller C fuel env n ps c f ≡ some t
        → All (Meets (contract v) Any) ps
        → IsSound c
        → All IsTracked ps
        → (qs : List (Prog (Unit {0}))) × (c' : Client C) × (f qs c' ≡ t) × All IsTracked qs
    unfolding advance_caller
    advance_caller-IsTracked env n [] c f t h m i w = cc
    advance_caller-IsTracked env zero (p ∷ ps) c f t h m i w =
        let (q, c', e, w') = advance-IsTracked env p c (λ q. f (q ∷ ps)) t h m.0 i w.0 in
        (q ∷ ps, c', e, (w', w.1))
    advance_caller-IsTracked env (suc n) (p ∷ ps) c f t h m i w =
        let (qs, c', e, w') =
          advance_caller-IsTracked env n ps c (λ qs. f (p ∷ qs)) t h m.1 i w.1 in
        (p ∷ qs, c', e, (w.0, w'))

    Step-IsTracked :
        {s t : System C}
        → Step C fuel v id s t
        → IsSafe (contract v) IsSound s
        → All IsTracked s.callers
        → All IsTracked t.callers
    Step-IsTracked {s} {t} (receives env e) h w =
        let (p, c, q, m, i) =
          advance-Meets (Keeps-IsSound fuel v) Any env s.receiver s.client _ t e h.receiver
            h.state in
        rw (← q) w
    Step-IsTracked {s} {t} (moves env n e) h w =
        let (ps, c, q, w') =
          advance_caller-IsTracked env n s.callers s.client _ t e h.callers h.state w in
        rw (← q) w'
    Step-IsTracked {s} (calls m e) h w = rw e (All-snoc IsTracked s.callers _ w (begun m))

    pub Reach-IsTracked :
        {s t : System C}
        → IsSafe (contract v) IsSound s
        → All IsTracked s.callers
        → Reach C fuel v id s t
        → All IsTracked t.callers
    Reach-IsTracked h w here = w
    Reach-IsTracked h w (next r st) =
        Step-IsTracked st
          (Reach-IsSafe (Keeps-IsSound fuel v) v id (receive-Meets v) (body-Meets v id) h r)
          (Reach-IsTracked h w r)
