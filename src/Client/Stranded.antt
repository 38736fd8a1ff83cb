-- ===== src/Client/Stranded.antt =====
-- What becomes of a caller that waits for an answer when recvRoutine has ended.
pub mod Steps
pub mod Reachable
use mqttie.Prelude.{
  ℕ, zero, suc, ◌≡◌, refl, ◌∙◌, sym, ap, List, [], ◌∷◌, ◌++◌, Option, none, some, false, Bool-cases,
  Option-cases, inl, inr, All,
}
use mathlib.Core.Path.{subst}
use mqttie.Go.Conn.{Conn}
use mqttie.Client.PacketChanMap.{Chan}
use mqttie.Client.Channels.{Buffers, held, clear, chan_eq}
use mqttie.Client.State.{Client}
use mqttie.Client.Actions
use mqttie.Client.Actions.{Op, Answer, Env, Exec, blocked, fault, does, exec, in_chan, emptied}
use mqttie.Client.Actions.Results.{
  carry, sent_keeps, received_keeps, looked_up_keeps, push_keeps, select_keeps,
}
use mqttie.Client.Prog.{Prog, done, crash, act, next_op}
use mqttie.Client.System.{
  System, Call, body, advance, advance_caller, Step, receives, moves, calls, Reach, here, next,
}
use mqttie.Client.Logic.{
  Contract, Meets, Any, Meets-weaken, Keeps, All-snoc, advance-Meets, advance_caller-Meets,
}
use mqttie.Client.Tables.{CallerNeeds, caller_contract}
use mqttie.Client.Tables.Methods.Bodies.{body-caller_contract}

-- The channel stays empty as long as nobody sends on a channel.
held-clear : (c d : Chan) (bs : Buffers) → held c bs ≡ none → held c (clear d bs) ≡ none
unfolding held clear
held-clear c d [] h = refl
held-clear c d ((e, p) ∷ bs) h = elim (Bool-cases (chan_eq e c)) [
  | inl same ↦ cc (rw same at h)
  | inr other ↦ elim (Bool-cases (chan_eq e d)) [
    | inl gone ↦ rw gone (held-clear c d bs (rw other at h))
    | inr kept ↦ rw (kept, other) (held-clear c d bs (rw other at h))
  ]
]

held-emptied :
    (c : Chan) (d : Option Chan) (bs : Buffers) → held c bs ≡ none → held c (emptied d bs) ≡ none
held-emptied c none bs h = h
held-emptied c (some d) bs h = held-clear c d bs h

abbrev NoOffer : Op → Type 0
NoOffer (Actions.offer c p) = ⊥
NoOffer o = Unit {0}

abbrev pub silent : Contract
silent = record { needs = NoOffer; gives = λ o a. Unit {0} }

CallerNeeds-NoOffer : (v : ℕ) (o : Op) → CallerNeeds v o → NoOffer o
CallerNeeds-NoOffer v (Actions.offer c p) h = h
CallerNeeds-NoOffer v o h = tt

abbrev pub Empty : {C : Conn} → Chan → Client C → Type 0
Empty ch c = held ch c.buffers ≡ none

module _ {C : Conn} (fuel : ℕ) (ch : Chan) where
  exec-Empty :
      (env : Env) (o : Op) (c : Client C) (a : Answer o) (c' : Client C)
      → exec C fuel env o c ≡ does a c'
      → Empty ch c
      → NoOffer o
      → Unit {0} × Empty ch c'
  unfolding exec
  exec-Empty env Actions.next_id c a c' e i n = carry Any (Empty ch) e tt i
  exec-Empty env (Actions.pending_add id p) c a c' e i n = carry Any (Empty ch) e tt i
  exec-Empty env (Actions.pending_set id p) c a c' e i n = carry Any (Empty ch) e tt i
  exec-Empty env (Actions.pending_get id) c a c' e i n = carry Any (Empty ch) e tt i
  exec-Empty env (Actions.pending_del id) c a c' e i n = carry Any (Empty ch) e tt i
  exec-Empty env (Actions.ack_new id) c a c' e i n =
      carry Any (Empty ch) e tt (held-clear ch _ c.buffers i)
  exec-Empty env (Actions.ack_get id) c a c' e i n = carry Any (Empty ch) e tt i
  exec-Empty env (Actions.ack_del id) c a c' e i n = carry Any (Empty ch) e tt i
  exec-Empty env (Actions.send p) c a c' e i n = (tt, sent_keeps (Empty ch) _ c' i _ a e)
  exec-Empty env Actions.recv c a c' e i n = (tt, received_keeps (Empty ch) _ c' i _ a e)
  exec-Empty env Actions.close c a c' e i n = carry Any (Empty ch) e tt i
  exec-Empty env (Actions.offer d p) c a c' e i n = elim n [ ]
  exec-Empty env (Actions.take d) c a c' e i n = elim (Option-cases (in_chan d c.buffers)) [
    | inl empty ↦ absurd (nothing (rw (empty, exec) at e))
    | inr (p, full) ↦ carry Any (Empty ch) (rw (full, exec) at e) tt (held-emptied ch d c.buffers i)
  ]
    where
      nothing : blocked ≡ does a c' → ⊥
      nothing h = cc
  exec-Empty env (Actions.take_or_err d) c a c' e i n =
      select_keeps Any (Empty ch) env.error_first (in_chan d c.buffers) c.err_chan _ _ a c' e
        (λ p full. (tt, held-emptied ch d c.buffers i)) (λ x. (tt, i))
  exec-Empty env (Actions.push_err x) c a c' e i n =
      (tt, push_keeps (Empty ch) _ c' i c.err_chan a e)
  exec-Empty env (Actions.offer_err x) c a c' e i n = elim (Option-cases c.err_chan) [
    | inl empty ↦ carry Any (Empty ch) (rw (empty, exec) at e) tt i
    | inr (y, full) ↦ carry Any (Empty ch) (rw (full, exec) at e) tt i
  ]
  exec-Empty env (Actions.push_ping p) c a c' e i n =
      (tt, push_keeps (Empty ch) _ c' i c.ping_resp a e)
  exec-Empty env (Actions.push_conn_ack p) c a c' e i n =
      (tt, push_keeps (Empty ch) _ c' i c.conn_ack a e)
  exec-Empty env Actions.ping_or_err c a c' e i n =
      select_keeps Any (Empty ch) env.error_first c.ping_resp c.err_chan _ _ a c' e
        (λ p full. (tt, i)) (λ x. (tt, i))
  exec-Empty env Actions.conn_ack_or_err c a c' e i n =
      select_keeps Any (Empty ch) env.error_first c.conn_ack c.err_chan _ _ a c' e
        (λ p full. (tt, i)) (λ x. (tt, i))
  exec-Empty env (Actions.subs_add topic d) c a c' e i n = carry Any (Empty ch) e tt i
  exec-Empty env (Actions.subs_get topic) c a c' e i n =
      (tt, looked_up_keeps (Empty ch) c c' i _ a e)
  exec-Empty env (Actions.subs_del topic) c a c' e i n = carry Any (Empty ch) e tt i
  exec-Empty env (Actions.deliver d payload) c a c' e i n = elim (Bool-cases env.has_room) [
    | inl room ↦ carry Any (Empty ch) (rw (room, exec) at e) tt i
    | inr full ↦ carry Any (Empty ch) (rw (full, exec) at e) tt i
  ]
  exec-Empty env (Actions.expire_in seconds) c a c' e i n = carry Any (Empty ch) e tt i

  pub Keeps-Empty : Keeps C fuel silent (Empty ch)
  Keeps-Empty = record { at = exec-Empty }

-- The caller at the place `n` waits on the channel.
abbrev pub Waits : Chan → ℕ → List (Prog (Unit {0})) → Type 0
Waits ch n [] = ⊥
Waits ch zero (p ∷ ps) = next_op p ≡ some (Actions.take (some ch))
Waits ch (suc n) (p ∷ ps) = Waits ch n ps

pub Waits-append :
    (ch : Chan) (n : ℕ) (ps qs : List (Prog (Unit {0}))) → Waits ch n ps → Waits ch n (ps ++ qs)
Waits-append ch n [] qs w = elim w [ ]
Waits-append ch zero (p ∷ ps) qs w = w
Waits-append ch (suc n) (p ∷ ps) qs w = Waits-append ch n ps qs w

pub body-silent : (v : ℕ) (id : List ℕ) (m : Call) → Meets silent Any (body v id m)
body-silent v id m =
    Meets-weaken (caller_contract v) silent Any (body v id m) (CallerNeeds-NoOffer v) (λ o a g. tt)
      (body-caller_contract v id m)
