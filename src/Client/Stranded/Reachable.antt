-- ===== src/Client/Stranded/Reachable.antt =====
-- A caller of the client that NewClient returned, once recvRoutine has ended.
use mqttie.Prelude.{ℕ, ◌≡◌, refl, List, Option, none, some, false, All}
use mqttie.Mqtt.{eof}
use mqttie.Go.Outcome.{err}
use mqttie.Packets.PacketIo.Link.{PacketIo, recv_packet}
use mqttie.Client.Actions.{Env, exec}
use mqttie.Client.Receive.{receive}
use mqttie.Client.System.Run.{turn, receiver, turn-Step}
use mqttie.Go.Conn.{Conn}
use mqttie.Client.PacketChanMap.{Chan}
use mqttie.Client.Channels.{held}
use mqttie.Client.Options.{ClientOptions}
use mqttie.Client.State.{new_client}
use mqttie.Client.Prog.{done}
use mqttie.Client.System.{System, start, advance, Step, receives, moves, calls, Reach, here, next}
use mqttie.Client.Logic.{Meets, Any, Keeps, All-snoc, advance_caller-Meets}
use mqttie.Client.Tables.Reachable.{Reachable}
use mqttie.Client.Stranded.{silent, Waits, body-silent}
use mqttie.Client.Stranded.Steps.{IsStranded, Reach-IsStranded, advance-any}

module _ {C : Conn} (fuel : ℕ) where
  Keeps-silent : Keeps C fuel silent Any
  Keeps-silent = record { at = λ env o c a c' e i n. (tt, tt) }

  -- The methods that the user calls send on no channel of a caller.
  Step-silent :
      (v : ℕ) (id : List ℕ) {s t : System C}
      → Step C fuel v id s t
      → All (Meets silent Any) s.callers
      → All (Meets silent Any) t.callers
  Step-silent v id {s} {t} (receives env e) h =
      let (p, c, q) = advance-any fuel env s.receiver s.client _ t e in rw (← q) h
  Step-silent v id {s} {t} (moves env m e) h =
      let (ps, c, q, ms, i) =
        advance_caller-Meets Keeps-silent env m s.callers s.client _ t e h tt in
      rw (← q) ms
  Step-silent v id {s} (calls m e) h =
      rw e (All-snoc (Meets silent Any) s.callers _ h (body-silent v id m))

  Reach-silent :
      (v : ℕ) (id : List ℕ) {s t : System C}
      → Reach C fuel v id s t
      → All (Meets silent Any) s.callers
      → All (Meets silent Any) t.callers
  Reach-silent v id here h = h
  Reach-silent v id (next r st) h = Step-silent v id st (Reach-silent v id r h)

  eof-turn :
      (v : ℕ) (id : List ℕ) (env : Env) (io : PacketIo C) (t : System C)
      → t.receiver ≡ receive v
      → recv_packet C fuel t.client.io ≡ (err eof, io)
      → turn C fuel v id (receiver env) t
        ≡ some (record t { client = record t.client { io = io }; receiver = done false })
  unfolding turn advance receive exec
  eof-turn v id env io t idle ended = rw idle (rw ended refl)

  -- At the end of the connection recvRoutine ends: it empties, fills and reports to no channel, and only
  -- the connection has changed. From then on a caller that is in a receive on its channel alone, which is
  -- empty at that moment, waits for ever: whatever else the user calls and however the goroutines are
  -- interleaved, it never moves.
  pub Reach-Waits :
      (uuid : List ℕ) (random : Option (ℕ × ℕ)) (stream : C.reader.Stream) (sink : C.writer.Sink)
      (options : List (Option ClientOptions)) (ch : Chan) (n : ℕ) (env : Env) (io : PacketIo C)
      (t u : System C)
      → Reachable C fuel uuid random stream sink options t
      → let c = new_client C uuid random stream sink options in
        t.receiver ≡ receive c.version
        → recv_packet C fuel t.client.io ≡ (err eof, io)
        → Waits ch n t.callers
        → held ch t.client.buffers ≡ none
        → let s = record t { client = record t.client { io = io }; receiver = done false } in
          Reach C fuel c.version c.client_id s u
          → (turn C fuel c.version c.client_id (receiver env) t ≡ some s) × Waits ch n u.callers
  unfolding start
  Reach-Waits uuid random stream sink options ch n env io t u reachable idle ended waits empty
        later =
      let c = new_client C uuid random stream sink options in
      let s : System C = record t { client = record t.client { io = io }; receiver = done false } in
      let step : turn C fuel c.version c.client_id (receiver env) t ≡ some s =
        eof-turn c.version c.client_id env io t idle ended in
      let r = next reachable (turn-Step C fuel c.version c.client_id (receiver env) t s step) in
      let h : IsStranded fuel ch n s = record {
        ended = refl;
        empty = empty;
        waits = waits;
        callers = Reach-silent c.version c.client_id r tt;
      } in
      (step, (Reach-IsStranded fuel ch c.version c.client_id n s u later h).waits)
