-- ===== src/Go/Encoder.antt =====
-- The way every MarshalBinary writes: a slice `b` of fixed length, filled from the index `i` on by
-- calls `i += f(b[i:])`.
pub mod Writes
use mqttie.Prelude.{ℕ, ◌+◌, List, ◌++◌, ltb, if◌then◌else◌, length, take, drop}
use mqttie.Go.Outcome
use mqttie.Go.Outcome.{Outcome, ok, panic}
use mqttie.Go.Slice.{make, copy, put_byte}

-- The slice `b` and the index `i`.
pub record Buffer : Type 0 where
  pub bytes : List ℕ
  pub pos : ℕ

abbrev pub Enc : Type 0
Enc = Buffer → Outcome Buffer

infixr 5 ◌>>◌
unfoldable pub ◌>>◌ : Enc → Enc → Enc
◌>>◌ m k w = Outcome.◌>>=◌ (m w) k

abbrev pub skip : Enc
skip w = ok w

-- The slice with its part from `i` on replaced, and `i` moved.
abbrev advance : Buffer → ℕ × List ℕ → Outcome Buffer
advance w (n, rest) = ok (record { bytes = take w.pos w.bytes ++ rest; pos = w.pos + n })

-- `i += f(b[i:])`; the slice expression panics where `i` is beyond the end.
unfoldable pub emit : (List ℕ → Outcome (ℕ × List ℕ)) → Enc
emit f w =
    if ltb (length w.bytes) w.pos then panic else Outcome.◌>>=◌ (f (drop w.pos w.bytes)) (advance w)

-- b[i] = v; i++
unfoldable pub store : ℕ → Enc
unfolding emit put_byte
store v = emit (put_byte v)

-- b = make([]byte, n), written from the start
unfoldable pub marshal : ℕ → Enc → Outcome (List ℕ)
marshal n m = Outcome.◌>>=◌ (m (record { bytes = make n; pos = 0 })) (λ (w : Buffer). ok w.bytes)
