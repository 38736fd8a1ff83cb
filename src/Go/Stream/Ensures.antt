-- ===== src/Go/Stream/Ensures.antt =====
-- What holds on every connection, however its reader splits the input and fails.
use mqttie.Prelude.{
  ℕ, zero, suc, ◌+◌, ◌-◌, le→ltb, ◌≤◌, ◌<◌, ◌≡◌, refl, List, [], ◌∷◌, ◌++◌, Option, none, some,
  Bool, true, false,
}
use mqttie.Prelude.{
  length, take, drop, All, length-append, length-take, length-drop, arith, if◌then◌else◌,
}
use mqttie.Mqtt.{Error}
use mqttie.Go.Outcome.{Outcome, ok, err, panic, stuck}
use mqttie.Go.Slice.{overlay, make, make_rest}
use mqttie.Go.Stream.{
  Reader, ByteReader, Io, pure, fail, lift, counted, ◌>>=◌, read, continue, tag, value_of,
}

-- A returned value has the property, together with the count; an error is allowed, and a panic or a
-- loop that does not end is not.
abbrev pub Post : {A : Type 0} → (ℕ → A → Type 0) → ℕ → Outcome A → Type 0
Post P n (ok a) = P n a
Post P n (err e) = Unit {0}
Post P n panic = ⊥
Post P n stuck = ⊥

pub record Ensures {S A : Type 0} (m : Io S A) (P : ℕ → A → Type 0) : Type 0 where
  pub at : (s : S) → Post P (m s).0 (m s).1

abbrev pub IsBytes : List ℕ → Type 0
IsBytes = All (λ b. b < 256)

pub IsBytes-append : (xs ys : List ℕ) → IsBytes xs → IsBytes ys → IsBytes (xs ++ ys)
IsBytes-append [] ys hx hy = hy
IsBytes-append (x ∷ xs) ys hx hy = (hx.0, IsBytes-append xs ys hx.1 hy)

pub IsBytes-take : (n : ℕ) (xs : List ℕ) → IsBytes xs → IsBytes (take n xs)
IsBytes-take zero xs h = tt
IsBytes-take (suc n) [] h = tt
IsBytes-take (suc n) (x ∷ xs) h = (h.0, IsBytes-take n xs h.1)

pub IsBytes-drop : (n : ℕ) (xs : List ℕ) → IsBytes xs → IsBytes (drop n xs)
IsBytes-drop zero xs h = h
IsBytes-drop (suc n) [] h = tt
IsBytes-drop (suc n) (x ∷ xs) h = IsBytes-drop n xs h.1

pub IsBytes-make : (n : ℕ) → IsBytes (make n)
IsBytes-make zero = tt
IsBytes-make (suc n) = (omega arith, IsBytes-make n)

pub length-overlay : (dst src : List ℕ) → length (overlay dst src) ≡ length dst
unfolding overlay
length-overlay dst src = omega (
  arith,
  length-append (take (length dst) src) (drop (length src) dst),
  length-take (length dst) src,
  length-drop (length src) dst,
)

overlay-IsBytes : (dst src : List ℕ) → IsBytes dst → IsBytes src → IsBytes (overlay dst src)
unfolding overlay
overlay-IsBytes dst src hd hs =
    IsBytes-append (take (length dst) src) (drop (length src) dst)
      (IsBytes-take (length dst) src hs) (IsBytes-drop (length src) dst hd)

module _ {S : Type 0} where
  pub Ensures-pure : {A : Type 0} {P : ℕ → A → Type 0} (a : A) → P 0 a → Ensures {S = S} (pure a) P
  Ensures-pure a h = record { at = λ s. h }

  -- A make whose length is not negative.
  pub Ensures-make_rest :
      (rem used : ℕ)
      → used ≤ rem
      → Ensures {S = S} (lift (make_rest rem used)) (λ n b. (n ≡ 0) × (b ≡ make (rem - used)))
  unfolding make_rest
  Ensures-make_rest rem used fits = rw (le→ltb rem used fits) (record { at = λ s. (refl, refl) })

  pub Ensures-fail : {A : Type 0} {P : ℕ → A → Type 0} (e : Error) → Ensures {S = S} (fail e) P
  Ensures-fail e = record { at = λ s. tt }

  pub Ensures-if :
      {A : Type 0} {P : ℕ → A → Type 0} (b : Bool) {m k : Io S A}
      → (b ≡ true → Ensures m P)
      → (b ≡ false → Ensures k P)
      → Ensures (if b then m else k) P
  Ensures-if true hm hk = hm refl
  Ensures-if false hm hk = hk refl

pub Ensures->>= :
    {S A C : Type 0} {P : ℕ → A → Type 0} {Q : ℕ → C → Type 0} (m : Io S A) (f : A → Io S C)
    → Ensures m P
    → ((n : ℕ) (a : A) → P n a → Ensures (f a) (λ k c. Q (n + k) c))
    → Ensures (m >>= f) Q
unfolding ◌>>=◌
Ensures->>= {S} {A} {C} {P} {Q} m f hm hf = record {
  at = λ s. bound (m s).0 (m s).1 (m s).2 (hm.at s);
}
  where
    bound :
        (n : ℕ) (r : Outcome A) (s : S)
        → Post P n r
        → Post Q (continue n r f s).0 (continue n r f s).1
    bound n (ok a) s h = (hf n a h).at s
    bound n (err e) s h = tt
    bound n panic s h = elim h [ ]
    bound n stuck s h = elim h [ ]

pub Ensures-counted :
    {S A : Type 0} {P : ℕ → A → Type 0} (m : Io S A)
    → Ensures m P
    → Ensures (counted m) (λ n r. P n r.0 × (r.1 ≡ n))
unfolding counted
Ensures-counted {S} {A} {P} m hm = record { at = λ s. bound (m s).0 (m s).1 (hm.at s) }
  where
    bound : (n : ℕ) (r : Outcome A) → Post P n r → Post (λ k q. P k q.0 × (q.1 ≡ k)) n (tag n r)
    bound n (ok a) h = (h, refl)
    bound n (err e) h = tt
    bound n panic h = elim h [ ]
    bound n stuck h = elim h [ ]

pub Ensures-weaken :
    {S A : Type 0} {P Q : ℕ → A → Type 0} (m : Io S A)
    → Ensures m P
    → ((n : ℕ) (a : A) → P n a → Q n a)
    → Ensures m Q
Ensures-weaken {S} {A} {P} {Q} m hm h = record { at = λ s. bound (m s).0 (m s).1 (hm.at s) }
  where
    bound : (n : ℕ) (r : Outcome A) → Post P n r → Post Q n r
    bound n (ok a) k = h n a k
    bound n (err e) k = tt
    bound n panic k = elim k [ ]
    bound n stuck k = elim k [ ]

module _ (R : Reader) (D : ByteReader R) where
  -- The buffer keeps its length, and the bytes in it are bytes.
  pub Ensures-read :
      (buf : List ℕ)
      → IsBytes buf
      → Ensures (read R buf) (λ n b. (n ≤ length buf) × (length b ≡ length buf) × IsBytes b)
  unfolding read
  Ensures-read buf h = record {
    at = λ s.
        let d = R.read s (length buf) in
        bound d.error (overlay buf d.bytes) (length d.bytes) (R.read-le s (length buf))
          (length-overlay buf d.bytes)
          (overlay-IsBytes buf d.bytes h (D.read-IsByte s (length buf)));
  }
    where
      bound :
          (e : Option Error) (b : List ℕ) (n : ℕ)
          → n ≤ length buf
          → length b ≡ length buf
          → IsBytes b
          → Post (λ k x. (k ≤ length buf) × (length x ≡ length buf) × IsBytes x) n (value_of b e)
      bound none b n p q r = (p, q, r)
      bound (some x) b n p q r = tt
