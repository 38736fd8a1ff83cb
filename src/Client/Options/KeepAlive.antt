-- ===== src/Client/Options/KeepAlive.antt =====
-- The keep-alive that SetKeepAlive of client/options.go stores.
use Prim.Native.Nat.{min}
use mqttie.Prelude.{
  ℕ, ◌≡◌, refl, ◌-◌, ◌^◌, ◌%◌, ap, some, Bool-cases, ltb, ltb→lt, not-ltb→le, inl, inr, arith,
}
use mqttie.Prelude.Int.{pos, negsuc}
use mqttie.Client.Options.{ConnectOptions, set_keep_alive}

-- SetKeepAlive keeps a duration of n seconds up to 65535, takes 65535 for a longer one, and takes a
-- duration of -(n + 1) seconds modulo 2^16.
pub set_keep_alive-cases :
    (n : ℕ) (opts : ConnectOptions)
    → ((set_keep_alive (pos n) opts).keep_alive ≡ some (min n (2 ^ 16 - 1)))
      × ((set_keep_alive (negsuc n) opts).keep_alive ≡ some (2 ^ 16 - 1 - n % 2 ^ 16))
unfolding set_keep_alive
set_keep_alive-cases n opts = elim (Bool-cases (ltb (2 ^ 16 - 1) n)) [
  | inl long ↦ rw long (ap some (omega (arith, ltb→lt (2 ^ 16 - 1) n long)), refl)
  | inr short ↦ rw short (ap some (omega (arith, not-ltb→le (2 ^ 16 - 1) n short)), refl)
]
