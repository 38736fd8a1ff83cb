-- ===== src/Go/Encoder/Writes.antt =====
-- Writers that fill a slice in order: rules to read off the bytes that a MarshalBinary writes.
use mqttie.Prelude.{ℕ, ◌≤◌, ◌≡◌, refl, ap, List, [], ◌∷◌, ◌++◌, arith, append_assoc, append-nil}
use mqttie.Prelude.{length, drop, length-append, length-drop, drop-append, take-append, drop-drop}
use mqttie.Prelude.{length-replicate, drop-all, le→ltb}
use mqttie.Go.Outcome.{Outcome, ok}
use mqttie.Go.Slice.{make}
use mqttie.Go.Slice.Fills.{Fills, Fills-put_byte}
use mqttie.Go.Encoder.{Buffer, Enc, ◌>>◌, skip, emit, store, marshal}

-- The buffer of which `done` is written and `free` is not.
abbrev pub split_at : List ℕ → List ℕ → Buffer
split_at done free = record { bytes = done ++ free; pos = length done }

-- From any such buffer with room for `bs`, `m` writes `bs` next.
pub record Writes (m : Enc) (bs : List ℕ) : Type 0 where
  pub at :
      (done free : List ℕ)
      → length bs ≤ length free
      → m (split_at done free) ≡ ok (split_at (done ++ bs) (drop (length bs) free))

pub Writes-emit :
    {f : List ℕ → Outcome (ℕ × List ℕ)} {bs : List ℕ} → Fills f bs → Writes (emit f) bs
unfolding emit
Writes-emit {f} {bs} h = record {
  at = λ done free room.
      rw (le→ltb (length (done ++ free)) (length done) (omega (arith, length-append done free))) (
        rw (drop-append done free, h.at free room, take-append done free)
          (rw (append_assoc done bs (drop (length bs) free), length-append done bs)));
}

pub Writes-store : (v : ℕ) → Writes (store v) (v ∷ [])
unfolding store
Writes-store v = Writes-emit (Fills-put_byte v)

pub Writes-skip : Writes skip []
Writes-skip = record { at = λ done free h. rw append-nil refl }

pub Writes->> :
    {m k : Enc} {bs cs : List ℕ} → Writes m bs → Writes k cs → Writes (m >> k) (bs ++ cs)
unfolding ◌>>◌
Writes->> {m} {k} {bs} {cs} wm wk = record {
  at = λ done free room. rw (wm.at done free (omega (arith, length-append bs cs))) (
      rw
        (wk.at (done ++ bs) (drop (length bs) free)
          (omega (arith, length-append bs cs, length-drop (length bs) free)))
        (rw
          (append_assoc done bs cs, drop-drop (length bs) (length cs) free, length-append bs cs)));
}

pub marshal_lem :
    {m : Enc} {bs : List ℕ} (n : ℕ) → Writes m bs → length bs ≡ n → marshal n m ≡ ok bs
unfolding marshal
marshal_lem {bs = bs} n w e =
    let room : length bs ≤ length (make n) = omega (arith, e, length-replicate {A = ℕ} n 0) in
    rw (w.at [] (make n) room) (
      rw (drop-all (length bs) (make n) (omega (arith, e, length-replicate {A = ℕ} n 0)))
        (ap ok (append-nil bs)))
