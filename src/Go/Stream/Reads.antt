-- ===== src/Go/Stream/Reads.antt =====
-- Readers on a connection whose bytes have all arrived: rules to read off what a ReadFrom consumes.
use mqttie.Prelude.{ℕ, ◌-◌, ◌≤◌, le→ltb, ◌≡◌, refl, List, [], ◌++◌, none, arith, append_assoc}
use mqttie.Prelude.{length, length-append, take-all, drop-all, append-nil}
use mqttie.Mqtt.{Error}
use mqttie.Go.Outcome.{ok, err}
use mqttie.Go.Slice.{overlay, make, make_rest}
use mqttie.Go.Stream.{Reader, Io, pure, fail, lift, counted, ◌>>=◌, read, read_raw}

-- `feed bs` is a connection on which exactly `bs` is still to be read. As a bytes.Buffer does, Read
-- serves a request in full, and with no error, as long as that many bytes are there.
pub record Buffered (R : Reader) : Type 0 where
  pub feed : List ℕ → R.Stream
  pub read-feed :
      (xs ys : List ℕ)
      → R.read (feed (xs ++ ys)) (length xs) ≡ record { bytes = xs; error = none; next = feed ys }

module _ {R : Reader} (B : Buffered R) where
  open B use {feed, read-feed}

  -- `m` consumes `bs` and returns `a`, whatever follows.
  pub record Reads {A : Type 0} (m : Io R.Stream A) (bs : List ℕ) (a : A) : Type 0 where
    pub at : (rest : List ℕ) → m (feed (bs ++ rest)) ≡ (length bs, ok a, feed rest)

  pub Reads-pure : {A : Type 0} (a : A) → Reads (pure a) [] a
  Reads-pure a = record { at = λ rest. refl }

  pub Reads-make_rest :
      (rem used : ℕ) → used ≤ rem → Reads (lift (make_rest rem used)) [] (make (rem - used))
  unfolding make_rest
  Reads-make_rest rem used fits = rw (le→ltb rem used fits) (record { at = λ rest. refl })

  pub Reads->>= :
      {A C : Type 0} {m : Io R.Stream A} (f : A → Io R.Stream C) {bs cs : List ℕ} {a : A} {c : C}
      → Reads m bs a
      → Reads (f a) cs c
      → Reads (m >>= f) (bs ++ cs) c
  unfolding ◌>>=◌
  Reads->>= {m = m} f {bs = bs} {cs = cs} rm rf = record {
    at = λ rest. rw (append_assoc bs cs rest, rm.at (cs ++ rest), rf.at rest, length-append bs cs);
  }

  pub Reads-counted :
      {A : Type 0} {m : Io R.Stream A} {bs : List ℕ} {a : A}
      → Reads m bs a
      → Reads (counted m) bs (a, length bs)
  unfolding counted
  Reads-counted rm = record { at = λ rest. rw (rm.at rest) }

  -- The conclusion for other bytes and another result, equal to those that the rules give.
  pub Reads-eq :
      {A : Type 0} {m : Io R.Stream A} {bs cs : List ℕ} {a c : A}
      → bs ≡ cs
      → a ≡ c
      → Reads m bs a
      → Reads m cs c
  Reads-eq {m = m} {bs = bs} {cs = cs} {a = a} p q h = rw (← p, ← q) h

  pub Reads-read : (buf bs : List ℕ) → length buf ≡ length bs → Reads (read R buf) bs bs
  unfolding read overlay
  Reads-read buf bs e = record {
    at = λ rest.
        rw (e, read-feed bs rest)
          (rw (take-all (length bs) bs (omega arith), drop-all (length bs) buf (omega arith))
            (rw append-nil refl));
  }

  pub Reads-read_raw :
      (buf bs : List ℕ) → length buf ≡ length bs → Reads (read_raw R buf) bs (bs, none)
  unfolding read_raw overlay
  Reads-read_raw buf bs e = record {
    at = λ rest.
        rw (e, read-feed bs rest)
          (rw (take-all (length bs) bs (omega arith), drop-all (length bs) buf (omega arith))
            (rw append-nil refl));
  }

  -- `m` consumes `bs` and returns the error `e`, whatever follows.
  pub record Rejects {A : Type 0} (m : Io R.Stream A) (bs : List ℕ) (e : Error) : Type 0 where
    pub at : (rest : List ℕ) → m (feed (bs ++ rest)) ≡ (length bs, err e, feed rest)

  pub Rejects-fail : {A : Type 0} (e : Error) → Rejects (fail {A = A} e) [] e
  Rejects-fail e = record { at = λ rest. refl }

  pub Rejects->>= :
      {A C : Type 0} {m : Io R.Stream A} (f : A → Io R.Stream C) {bs cs : List ℕ} {a : A}
      {e : Error}
      → Reads m bs a
      → Rejects (f a) cs e
      → Rejects (m >>= f) (bs ++ cs) e
  unfolding ◌>>=◌
  Rejects->>= {m = m} f {bs = bs} {cs = cs} rm rf = record {
    at = λ rest. rw (append_assoc bs cs rest, rm.at (cs ++ rest), rf.at rest, length-append bs cs);
  }
