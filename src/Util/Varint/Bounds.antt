-- ===== src/Util/Varint/Bounds.antt =====
-- ReadVarint on any connection: four bytes at most, and a value that a four-byte length can have.
use mqttie.Prelude.{
  ℕ, zero, suc, ◌+◌, ◌*◌, ◌^◌, ◌≤◌, ◌<◌, ◌≡◌, List, Option, none, some, arith, bit_and,
}
use mqttie.Prelude.{length, get_or, [], ◌∷◌, ◌==◌, refl}
use mqttie.Prelude.Bits.{low_bits}
use mqttie.Go.Outcome.{Outcome, ok, err, panic, stuck}
use mqttie.Go.Slice.{make}
use mqttie.Go.Stream.{Reader, ByteReader}
use mqttie.Go.Stream.Ensures.{
  Post, Ensures, IsBytes, Ensures-pure, Ensures-if, Ensures->>=, Ensures-read, IsBytes-make,
  Ensures-weaken,
}
use mqttie.Util.Varint.{varint_rounds, read_varint, too_long}
use native.Mathlib.Nat.{pow-suc}
use native.Mathlib.Numerals.{towards_suc}

abbrev OneByte : List ℕ → Type 0
OneByte b = (length b ≡ 1) × IsBytes b

first-IsByte : (b : List ℕ) → IsBytes b → get_or b 0 0 < 256
first-IsByte [] h = omega arith
first-IsByte (x ∷ b) h = h.0

abbrev Below : ℕ → Option ℕ → Type 0
Below bound none = Unit {0}
Below bound (some v) = v < bound

mul-le-mul_right' : (a b c : ℕ) → a ≤ b → a * c ≤ b * c
mul-le-mul_right' a b c h = grind arith

shift_up : (s : ℕ) → 2 ^ (s + 7) ≡ 2 ^ s * 128
shift_up s = simp towards_suc (omega arith)

bound_up : (s k : ℕ) → 2 ^ (s + 7) * 128 ^ k ≡ 2 ^ s * 128 ^ suc k
bound_up s k = rw (shift_up, pow-suc 128 k) (omega arith)

pos-pow : (k : ℕ) → 1 ≤ 128 ^ k
pos-pow zero = omega arith
pos-pow (suc k) = omega (arith, pos-pow k)

grow : (a k : ℕ) → a * 128 ≤ a * 128 ^ suc k
grow a k = rw (pow-suc 128 k) (omega (arith, mul-le-mul_right' 1 (128 ^ k) a (pos-pow k)))

Below-eq : {a b : ℕ} (r : Option ℕ) → a ≡ b → Below a r → Below b r
Below-eq r e h = rw (← e) h

group-lt :
    (b : List ℕ) (s v : ℕ)
    → IsBytes b
    → v < 2 ^ s
    → v + bit_and (get_or b 0 0) 0x7F * 2 ^ s < 2 ^ s * 128
group-lt b s v h hv =
    let byte = get_or b 0 0 in
    let hb : byte < 256 = first-IsByte b h in
    omega (
      arith,
      low_bits byte hb,
      mul-le-mul_right' (bit_and byte 0x7F) 127 (2 ^ s) (omega (arith, low_bits byte hb)),
    )

module _ (R : Reader) (D : ByteReader R) where
  varint_rounds_bounds :
      (k shift v : ℕ) (b : List ℕ)
      → OneByte b
      → v < 2 ^ shift
      → Ensures (varint_rounds R k shift v b) (λ n r. (n ≤ k) × Below (2 ^ shift * 128 ^ k) r)
  unfolding varint_rounds
  varint_rounds_bounds zero shift v b hb hv = Ensures-pure none (omega arith)
  varint_rounds_bounds (suc k) shift v b hb hv = Ensures->>= _ _ (Ensures-read R D b hb.1) λ n b' h.
      Ensures-if (bit_and (get_or b' 0 0) 0x80 == 0)
        (λ e. Ensures-pure _ (omega arith, last b' h.2 v hv))
        (λ e.
          Ensures-weaken _
            (varint_rounds_bounds k (shift + 7) (v + bit_and (get_or b' 0 0) 0x7F * 2 ^ shift) b'
              (omega arith, h.2) (rw shift_up (group-lt b' shift v h.2 hv)))
            (λ j x g. (omega arith, Below-eq x (bound_up shift k) g.1)))
    where
      last :
          (c : List ℕ)
          → IsBytes c
          → (v : ℕ) → v < 2 ^ shift
          → v + bit_and (get_or c 0 0) 0x7F * 2 ^ shift < 2 ^ shift * 128 ^ suc k
      last c hc v hv = omega (arith, group-lt c shift v hc hv, grow (2 ^ shift) k)

  pub read_varint_bounds : Ensures (read_varint R) (λ n v. (n ≤ 4) × (v < 2 ^ 28))
  unfolding read_varint
  read_varint_bounds = record {
    at = λ s.
        let m = varint_rounds R 4 0 0 (make 1) in
        finish (m s).0 (m s).1 (m s).2
          ((varint_rounds_bounds 4 0 0 (make 1) (refl, IsBytes-make 1) (omega arith)).at s);
  }
    where
      finish :
          (n : ℕ) (r : Outcome (Option ℕ)) (s : R.Stream)
          → Post (λ k x. (k ≤ 4) × Below (2 ^ 0 * 128 ^ 4) x) n r
          → Post (λ k v. (k ≤ 4) × (v < 2 ^ 28)) (too_long n r s).0 (too_long n r s).1
      finish n (ok none) s h = tt
      finish n (ok (some v)) s h = omega arith
      finish n (err e) s h = tt
      finish n panic s h = elim h [ ]
      finish n stuck s h = elim h [ ]
