-- ===== src/Go/Slice/Fills.antt =====
-- Writes that fit their slice: each puts its bytes at the front and keeps what follows them.
use mqttie.Prelude.{ℕ, ◌≤◌, ◌≡◌, List, [], ◌∷◌, ◌++◌, length, drop, take-all, arith}
use mqttie.Go.Outcome.{Outcome, ok}
use mqttie.Go.Slice.{
  be16, be32, uvarint, copy, put_byte, put_bytes, put_uint16, put_uint32, put_uvarint,
}

-- `f` writes `bs` at the front of any slice with room for them, and counts them.
pub record Fills (f : List ℕ → Outcome (ℕ × List ℕ)) (bs : List ℕ) : Type 0 where
  pub at : (t : List ℕ) → length bs ≤ length t → f t ≡ ok (length bs, bs ++ drop (length bs) t)

pub Fills-copy : (bs : List ℕ) → Fills (copy bs) bs
unfolding copy
Fills-copy bs = record { at = λ t h. rw (take-all (length t) bs h) (ground arith) }

pub Fills-put_byte : (v : ℕ) → Fills (put_byte v) (v ∷ [])
unfolding put_byte
Fills-put_byte v = record { at = λ t h. ground arith }

pub Fills-put_bytes : (bs : List ℕ) → Fills (put_bytes bs) bs
unfolding put_bytes
Fills-put_bytes bs = record { at = λ t h. ground arith }

pub Fills-put_uint16 : (v : ℕ) → Fills (put_uint16 v) (be16 v)
unfolding put_uint16
Fills-put_uint16 v = Fills-put_bytes (be16 v)

pub Fills-put_uint32 : (v : ℕ) → Fills (put_uint32 v) (be32 v)
unfolding put_uint32
Fills-put_uint32 v = Fills-put_bytes (be32 v)

pub Fills-put_uvarint : (v : ℕ) → Fills (put_uvarint v) (uvarint v)
unfolding put_uvarint
Fills-put_uvarint v = Fills-put_bytes (uvarint v)
