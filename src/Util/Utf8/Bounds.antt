-- ===== src/Util/Utf8/Bounds.antt =====
-- ReadUTF8 on any connection, and what it makes of a short read.
use mqttie.Prelude.{
  ℕ, suc, ◌+◌, ◌-◌, ◌≤◌, ◌<◌, ◌^◌, ◌≡◌, refl, ap, List, [], ◌∷◌, ◌++◌, none, arith, false, ◌∙◌,
}
use mqttie.Prelude.{
  length, length-replicate, ltb, not-ltb→le, take-all, le→ltb, drop, zero, length-append,
}
use mqttie.Util.Utf8.RoundTrip.{uint16-be16}
use native.Mathlib.Nat.{zero-sub, sub-zero, suc-sub-suc}
use mqttie.Go.Outcome.{ok}
use mqttie.Go.Slice.{make, be16, uint16, overlay}
use mqttie.Go.Stream.{Reader, ByteReader, counted, ◌>>=◌, read}
use mqttie.Go.Stream.Ensures.{
  Ensures, IsBytes, IsBytes-make, Ensures-read, Ensures->>=, Ensures-counted, Ensures-if,
  Ensures-fail, Ensures-pure,
}
use mqttie.Util.Utf8.{read_utf8}

uint16-lt : (b : List ℕ) → IsBytes b → uint16 b < 2 ^ 16
uint16-lt [] h = omega arith
uint16-lt (x ∷ []) h = omega arith
uint16-lt (x ∷ y ∷ b) h = omega arith

-- What a string that ReadUTF8 returns has to do with the count that comes with it.
abbrev pub Utf8Bounds : ℕ → List ℕ → Type 0
Utf8Bounds n str =
    (2 ≤ n) × (n ≤ length str + 2) × (length str ≤ n) × (length str < 2 ^ 16) × IsBytes str

-- On any connection ReadUTF8 returns; a string that it returns has at most 65535 bytes, and the count
-- is at least 2, at least the string's length, and at most that length and the two bytes of the prefix.
pub read_utf8_bounds : (R : Reader) → ByteReader R → Ensures (read_utf8 R) Utf8Bounds
unfolding read_utf8
read_utf8_bounds R D =
    Ensures->>= _ _ (Ensures-counted _ (Ensures-read R D (make 2) (IsBytes-make 2))) λ n r h.
      Ensures-if (ltb r.1 2) (λ e. Ensures-fail _)
        λ e.
          Ensures->>= _ _
            (Ensures-counted _ (Ensures-read R D (make (uint16 r.0)) (IsBytes-make (uint16 r.0))))
            λ k q g.
              Ensures-if (ltb (r.1 + q.1) (length q.0)) (λ _. Ensures-fail _)
                λ d. Ensures-pure q.0 (within n k r.0 r.1 q.0 q.1 h g e d)
  where
    within :
        (n k : ℕ) (b : List ℕ) (i : ℕ) (str : List ℕ) (j : ℕ)
        → ((n ≤ 2) × (length b ≡ 2) × IsBytes b) × (i ≡ n)
        → ((k ≤ length (make (uint16 b))) × (length str ≡ length (make (uint16 b))) × IsBytes str)
          × (j ≡ k)
        → ltb i 2 ≡ false
        → ltb (i + j) (length str) ≡ false
        → Utf8Bounds (n + (k + 0)) str
    within n k b i str j h g e d =
        let size : length (make (uint16 b)) ≡ uint16 b = length-replicate {A = ℕ} (uint16 b) 0 in
        let fits : uint16 b < 2 ^ 16 = uint16-lt b h.0.2 in
        let two : 2 ≤ i = not-ltb→le i 2 e in
        let all : length str ≤ i + j = not-ltb→le (i + j) (length str) d in
        let len : length str ≡ uint16 b = g.0.1 ∙ size in
        let few : k ≤ uint16 b = rw size at (g.0.0) in
        (omega (arith, h.1), omega (arith, h.1, h.0.0), omega (arith, h.1, g.1), omega arith, g.0.2)

drop-make : (n l : ℕ) → drop n (make l) ≡ make (l - n)
drop-make zero l = rw sub-zero refl
drop-make (suc n) zero = rw zero-sub refl
drop-make (suc n) (suc l) = rw suc-sub-suc (drop-make n l)

-- The second read may deliver up to two bytes less than the string has: the test compares the length
-- with the count of both reads. ReadUTF8 then returns the string padded with zero bytes, and no error.
pub read_utf8_short_read :
    (R : Reader) (s s' s'' : R.Stream) (l : ℕ) (part : List ℕ)
    → l < 2 ^ 16
    → length part ≤ l
    → l ≤ length part + 2
    → R.read s 2 ≡ record { bytes = be16 l; error = none; next = s' }
    → R.read s' l ≡ record { bytes = part; error = none; next = s'' }
    → read_utf8 R s ≡ (length part + 2, ok (part ++ make (l - length part)), s'')
unfolding read_utf8 read counted ◌>>=◌ overlay
read_utf8_short_read R s s' s'' l part hl lo hi e f =
    let size : length (part ++ make (l - length part)) ≡ l = omega (
      arith,
      length-append part (make (l - length part)),
      length-replicate {A = ℕ} (l - length part) 0,
    ) in
    rw
      (
        e,
        uint16-be16 l hl,
        length-replicate {A = ℕ} l 0,
        f,
        take-all l part lo,
        drop-make (length part) l,
      )
      (rw (le→ltb (2 + length part) (length (part ++ make (l - length part))) (omega (arith, size)))
        (ap (λ (n : ℕ). (n, ok (part ++ make (l - length part)), s'')) (omega arith)))
