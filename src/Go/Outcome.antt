-- ===== src/Go/Outcome.antt =====
-- The result of a Go function that returns a value and an error, and may panic.
use mqttie.Mqtt.{Error}

-- `stuck` is no Go value: it says that the fuel of a modelled loop ran out.
pub data Outcome {ℓ} (A : Type ℓ) : Type ℓ where
  ok : A → Outcome A
  err : Error → Outcome A
  panic : Outcome A
  stuck : Outcome A

infixl 5 ◌>>=◌ ◌>>◌
abbrev pub ◌>>=◌ {ℓ κ} : {A : Type ℓ} {B : Type κ} → Outcome A → (A → Outcome B) → Outcome B
ok a >>= f = f a
err e >>= f = err e
panic >>= f = panic
stuck >>= f = stuck

abbrev pub ◌>>◌ {ℓ κ} : {A : Type ℓ} {B : Type κ} → Outcome A → Outcome B → Outcome B
m >> k = m >>= λ _. k

-- `defer func() { recover() … }`: a runtime panic becomes the error that is returned.
abbrev pub recovered {ℓ} : {A : Type ℓ} → Error → Outcome A → Outcome A
recovered e (ok a) = ok a
recovered e (err x) = err x
recovered e panic = err e
recovered e stuck = stuck
