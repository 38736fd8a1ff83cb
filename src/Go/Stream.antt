-- ===== src/Go/Stream.antt =====
-- io.Reader and io.Writer as parameters of the model, and the actions that use them. An action
-- takes the state of the connection and returns the number of bytes moved, which the code adds up
-- in `n`, the result, and the next state.
pub mod Reads
pub mod Ensures
use mqttie.Prelude.{ℕ, ◌+◌, ◌≤◌, ◌<◌, List, Option, none, some, length, All}
use mqttie.Mqtt.{Error}
use mqttie.Go.Outcome.{Outcome, ok, err, panic, stuck}
use mqttie.Go.Slice.{overlay}

-- What one call of Read delivers.
pub record Delivery (S : Type 0) : Type 0 where
  pub bytes : List ℕ
  pub error : Option Error
  pub next : S

-- io.Reader: Read(p) delivers len(p) bytes at most, perhaps fewer, perhaps with an error.
pub record Reader : Type 1 where
  pub Stream : Type 0
  pub read : Stream → ℕ → Delivery Stream
  pub read-le : (s : Stream) (n : ℕ) → length (read s n).bytes ≤ n

-- What is delivered is bytes, numbers below 256.
pub record ByteReader (R : Reader) : Type 0 where
  pub read-IsByte : (s : R.Stream) (n : ℕ) → All (λ b. b < 256) (R.read s n).bytes

-- What one call of Write reports.
pub record Report (S : Type 0) : Type 0 where
  pub count : ℕ
  pub error : Option Error
  pub next : S

-- io.Writer
pub record Writer : Type 1 where
  pub Sink : Type 0
  pub write : Sink → List ℕ → Report Sink

abbrev pub Io : Type 0 → Type 0 → Type 0
Io S A = S → ℕ × Outcome A × S

abbrev pub tag : {A : Type 0} → ℕ → Outcome A → Outcome (A × ℕ)
tag n (ok a) = ok (a, n)
tag n (err e) = err e
tag n panic = panic
tag n stuck = stuck

abbrev pub value_of : {A : Type 0} → A → Option Error → Outcome A
value_of a none = ok a
value_of a (some e) = err e

module _ {S A : Type 0} where
  abbrev pub pure : A → Io S A
  pure a s = (0, ok a, s)

  abbrev pub fail : Error → Io S A
  fail e s = (0, err e, s)

  abbrev pub lift : Outcome A → Io S A
  lift r s = (0, r, s)

  -- The result together with the number of bytes that the call moved: `a, N, err := m()`.
  unfoldable pub counted : Io S A → Io S (A × ℕ)
  counted m s = let (n, r, s') = m s in (n, tag n r, s')

module _ {S A B : Type 0} where
  abbrev pub continue : ℕ → Outcome A → (A → Io S B) → Io S B
  continue n (ok a) f s = let (k, r, s') = f a s in (n + k, r, s')
  continue n (err e) f s = (n, err e, s)
  continue n panic f s = (n, panic, s)
  continue n stuck f s = (n, stuck, s)

  infixl 5 ◌>>=◌ ◌>>◌
  unfoldable pub ◌>>=◌ : Io S A → (A → Io S B) → Io S B
  ◌>>=◌ m f s = let (n, r, s') = m s in continue n r f s'

  abbrev pub ◌>>◌ : Io S A → Io S B → Io S B
  m >> k = m >>= λ _. k

-- `N, err = r.Read(buf)`: the buffer afterwards, whose bytes beyond the delivered ones stay, and
-- the error.
unfoldable pub read_raw : (R : Reader) → List ℕ → Io R.Stream (List ℕ × Option Error)
read_raw R buf s =
    let d = R.read s (length buf) in (length d.bytes, ok (overlay buf d.bytes, d.error), d.next)

-- The same where an error is returned at once.
unfoldable pub read : (R : Reader) → List ℕ → Io R.Stream (List ℕ)
read R buf s =
    let d = R.read s (length buf) in
    (length d.bytes, value_of (overlay buf d.bytes) d.error, d.next)

-- `N, err := w.Write(b)`
unfoldable pub write : (W : Writer) → List ℕ → Io W.Sink (Unit {0})
write W b s = let d = W.write s b in (d.count, value_of tt d.error, d.next)
