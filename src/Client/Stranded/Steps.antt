-- ===== src/Client/Stranded/Steps.antt =====
-- A caller that waits on an empty channel, once nobody is left to fill it.
use mqttie.Prelude.{ℕ, zero, suc, ◌≡◌, refl, ◌∙◌, sym, ap, List, [], ◌∷◌, some, false, All}
use mathlib.Core.Path.{subst}
use mqttie.Go.Conn.{Conn}
use mqttie.Client.PacketChanMap.{Chan}
use mqttie.Client.State.{Client}
use mqttie.Client.Actions
use mqttie.Client.Actions.{Op, Answer, Env, Exec, blocked, fault, does, exec, in_chan, emptied}
use mqttie.Client.Prog.{Prog, done, crash, act, next_op}
use mqttie.Client.System.{
  System, advance, advance_caller, Step, receives, moves, calls, Reach, here, next,
}
use mqttie.Client.Logic.{Contract, Meets, Any, Keeps, All-snoc, advance-Meets, advance_caller-Meets}
use mqttie.Client.Stranded.{silent, Empty, Keeps-Empty, Waits, Waits-append, body-silent}

-- Every operation is possible under the contract that asks for nothing.
abbrev free : Contract
free = record { needs = λ o. Unit {0}; gives = λ o a. Unit {0} }

Meets-free : {A : Type 0} (m : Prog A) → Meets free Any m
Meets-free (done a) = tt
Meets-free crash = tt
Meets-free (act o k) = (tt, λ a g. Meets-free (k a))

Meets-free-All : (ps : List (Prog (Unit {0}))) → All (Meets free Any) ps
Meets-free-All [] = tt
Meets-free-All (p ∷ ps) = (Meets-free p, Meets-free-All ps)

module _ {C : Conn} (fuel : ℕ) where
  Keeps-free : Keeps C fuel free Any
  Keeps-free = record { at = λ env o c a c' e i n. (tt, tt) }

  pub advance-any :
      {A T : Type 0} (env : Env) (p : Prog A) (c : Client C) (f : Prog A → Client C → T) (t : T)
      → advance C fuel env p c f ≡ some t
      → (p' : Prog A) × (c' : Client C) × (f p' c' ≡ t)
  advance-any env p c f t h =
      let (p', c', q, m, i) = advance-Meets Keeps-free Any env p c f t h (Meets-free p) tt in
      (p', c', q)

  advance_caller-any :
      {T : Type 0} (env : Env) (n : ℕ) (ps : List (Prog (Unit {0}))) (c : Client C)
      (f : List (Prog (Unit {0})) → Client C → T) (t : T)
      → advance_caller C fuel env n ps c f ≡ some t
      → (qs : List (Prog (Unit {0}))) × (c' : Client C) × (f qs c' ≡ t)
  advance_caller-any env n ps c f t h =
      let (qs, c', q, m, i) =
        advance_caller-Meets Keeps-free env n ps c f t h (Meets-free-All ps) tt in
      (qs, c', q)

module _ {C : Conn} (fuel : ℕ) (ch : Chan) where
  -- A receive on an empty channel is not possible.
  take-blocked :
      (env : Env) (c : Client C) → Empty ch c → exec C fuel env (Actions.take (some ch)) c ≡ blocked
  unfolding exec
  take-blocked env c e = rw (exec, e) refl

  op-blocked :
      (env : Env) (o : Op) (c : Client C)
      → Actions.take (some ch) ≡ o
      → Empty ch c
      → exec C fuel env o c ≡ blocked
  op-blocked env o c q e =
      subst (λ (x : Op). exec C fuel env x c ≡ blocked) q (take-blocked env c e)

  advance-Waits :
      {A T : Type 0} (env : Env) (p : Prog A) (c : Client C) (f : Prog A → Client C → T) (t : T)
      → advance C fuel env p c f ≡ some t
      → next_op p ≡ some (Actions.take (some ch))
      → Empty ch c
      → ⊥
  unfolding advance
  advance-Waits env (done a) c f t h w e = cc
  advance-Waits env crash c f t h w e = cc
  advance-Waits env (act o k) c f t h w e =
      let q : Actions.take (some ch) ≡ o = cc in cc (rw (op-blocked env o c q e) at h)

  advance_caller-Waits :
      {T : Type 0} (env : Env) (m n : ℕ) (ps : List (Prog (Unit {0}))) (c : Client C)
      (f : List (Prog (Unit {0})) → Client C → T) (t : T)
      → advance_caller C fuel env m ps c f ≡ some t
      → Waits ch n ps
      → Empty ch c
      → (qs : List (Prog (Unit {0}))) × (c' : Client C) × (f qs c' ≡ t) × Waits ch n qs
  unfolding advance_caller
  advance_caller-Waits env m n [] c f t h w e = elim w [ ]
  advance_caller-Waits env zero zero (p ∷ ps) c f t h w e = absurd (advance-Waits env p c _ t h w e)
  advance_caller-Waits env zero (suc n) (p ∷ ps) c f t h w e =
      let (p', c', q) = advance-any fuel env p c (λ p'. f (p' ∷ ps)) t h in (p' ∷ ps, c', q, w)
  advance_caller-Waits env (suc m) zero (p ∷ ps) c f t h w e =
      let (qs, c', q) = advance_caller-any fuel env m ps c (λ qs. f (p ∷ qs)) t h in
      (p ∷ qs, c', q, w)
  advance_caller-Waits env (suc m) (suc n) (p ∷ ps) c f t h w e =
      let (qs, c', q, w') = advance_caller-Waits env m n ps c (λ qs. f (p ∷ qs)) t h w e in
      (p ∷ qs, c', q, w')

  -- The caller waits on an empty channel, and nobody is left to fill it.
  pub record IsStranded (n : ℕ) (s : System C) : Type 0 where
    pub ended : s.receiver ≡ done false
    pub empty : Empty ch s.client
    pub waits : Waits ch n s.callers
    pub callers : All (Meets silent Any) s.callers

  Step-IsStranded :
      (v : ℕ) (id : List ℕ) (n : ℕ) {s t : System C}
      → Step C fuel v id s t
      → IsStranded n s
      → IsStranded n t
  unfolding advance
  Step-IsStranded v id n {s} {t} (receives env e) h = cc (rw (h.ended, advance) at e)
  Step-IsStranded v id n {s} {t} (moves env m e) h =
      let (ps, c, q, ms, i) =
        advance_caller-Meets (Keeps-Empty fuel ch) env m s.callers s.client _ t e h.callers
          h.empty in
      let (qs, d, r, w) = advance_caller-Waits env m n s.callers s.client _ t e h.waits h.empty in
      let same : qs ≡ ps = ap (λ (u : System C). u.callers) (r ∙ sym q) in
      rw (← q) (record { ended = h.ended; empty = i; waits = rw (← same) w; callers = ms })
  Step-IsStranded v id n {s} (calls m e) h = rw e (record {
    ended = h.ended;
    empty = h.empty;
    waits = Waits-append ch n s.callers _ h.waits;
    callers = All-snoc (Meets silent Any) s.callers _ h.callers (body-silent v id m);
  })

  pub Reach-IsStranded :
      (v : ℕ) (id : List ℕ) (n : ℕ) (s t : System C)
      → Reach C fuel v id s t
      → IsStranded n s
      → IsStranded n t
  Reach-IsStranded v id n s t here h = h
  Reach-IsStranded v id n s u (next r st) h =
      Step-IsStranded v id n st (Reach-IsStranded v id n s _ r h)
