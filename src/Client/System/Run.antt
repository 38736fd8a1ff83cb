-- ===== src/Client/System/Run.antt =====
-- Runs of the client by a schedule, which says whose turn it is; a turn of a goroutine that cannot move
-- is skipped.
use mqttie.Prelude.{ℕ, List, [], ◌∷◌, ◌++◌, Option, none, some, ◌≡◌, Option-cases, inl, inr}
use mqttie.Go.Conn.{Conn}
use mqttie.Client.Actions.{Env}
use mqttie.Client.System.{
  System, Call, body, looped, advance, advance_caller, Step, receives, moves, calls, Reach, here,
  next,
}

pub data Turn : Type 0 where
  receiver : Env → Turn
  caller : Env → ℕ → Turn
  call : Call → Turn

module _ (C : Conn) (fuel v : ℕ) (id : List ℕ) where
  unfoldable pub turn : Turn → System C → Option (System C)
  turn (receiver env) s =
      advance C fuel env s.receiver s.client (λ p c. record s { client = c; receiver = looped v p })
  turn (caller env i) s =
      advance_caller C fuel env i s.callers s.client (λ ps c. record s { client = c; callers = ps })
  turn (call m) s = some (record s { callers = s.callers ++ (body v id m ∷ []) })

  -- The state after the turns, in their order.
  unfoldable pub run : List Turn → System C → System C
  run [] s = s
  run (x ∷ xs) s = elim (turn x s) [ none ↦ run xs s | some t ↦ run xs t ]

  pub turn-Step : (x : Turn) (s t : System C) → turn x s ≡ some t → Step C fuel v id s t
  unfolding turn
  turn-Step (receiver env) s t e = receives env e
  turn-Step (caller env i) s t e = moves env i e
  turn-Step (call m) s t e = calls m cc

  Reach-run :
      (xs : List Turn) (s t : System C) → Reach C fuel v id s t → Reach C fuel v id s (run xs t)
  unfolding run
  Reach-run [] s t r = r
  Reach-run (x ∷ xs) s t r = elim (Option-cases (turn x t)) [
    | inl skipped ↦ rw (run, skipped) (Reach-run xs s t r)
    | inr (u, e) ↦ rw (run, e) (Reach-run xs s u (next r (turn-Step x t u e)))
  ]

  pub run-Reach : (xs : List Turn) (s : System C) → Reach C fuel v id s (run xs s)
  run-Reach xs s = Reach-run xs s s here
