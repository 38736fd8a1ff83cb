-- ===== src/Tests/Connections.antt =====
-- A connection as the list of the bytes that are still to be read, in the manner of a bytes.Buffer.
use mqttie.Prelude.{ℕ, zero, suc, ◌≤◌, ◌<◌, ◌≡◌, List, [], ◌∷◌, ◌++◌, none, arith, All}
use mqttie.Prelude.{length, take, drop, take-append, drop-append, length-take}
use mqttie.Go.Stream.{Reader, ByteReader}
use mqttie.Go.Stream.Reads.{Buffered}

pub read-le : (s : List ℕ) (n : ℕ) → length (take n s) ≤ n
read-le s n = omega (arith, length-take n s)

abbrev pub buffer : Reader
buffer = record {
  Stream = List ℕ;
  read = λ s n. record { bytes = take n s; error = none; next = drop n s };
  read-le = read-le;
}

pub read-feed :
    (xs ys : List ℕ)
    → buffer.read (xs ++ ys) (length xs) ≡ record { bytes = xs; error = none; next = ys }
read-feed xs ys = rw (take-append xs ys, drop-append xs ys)

abbrev pub buffered : Buffered buffer
buffered = record { feed = λ bs. bs; read-feed = read-feed }

-- A connection that delivers one byte at a time, each of them 1.
pub one_at_a_time : ℕ → List ℕ
one_at_a_time zero = []
one_at_a_time (suc n) = 1 ∷ []

pub one-le : (n : ℕ) → length (one_at_a_time n) ≤ n
unfolding one_at_a_time
one-le zero = omega arith
one-le (suc n) = omega arith

pub one-IsByte : (n : ℕ) → All (λ b. b < 256) (one_at_a_time n)
unfolding one_at_a_time
one-IsByte zero = tt
one-IsByte (suc n) = (omega arith, tt)

abbrev pub trickle : Reader
trickle = record {
  Stream = Unit {0};
  read = λ s n. record { bytes = one_at_a_time n; error = none; next = s };
  read-le = λ s n. one-le n;
}

abbrev pub trickle_bytes : ByteReader trickle
trickle_bytes = record { read-IsByte = λ s n. one-IsByte n }
