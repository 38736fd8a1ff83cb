-- ===== src/Util/Varint.antt =====
-- EncodeUvarint, GetUvarintLen and ReadVarint of x/util/utils.go: variable-length integers.
pub mod Encode
pub mod Decode
pub mod Bounds
use mqttie.Prelude.{ℕ, zero, suc, ◌+◌, ◌*◌, ◌/◌, ◌^◌, List, [], ◌∷◌, Option, none, some, bit_and}
use mqttie.Prelude.{ltb, ◌==◌, if◌then◌else◌, take, get_or}
use mqttie.Mqtt.{runtime, varint_too_long}
use mqttie.Go.Outcome.{Outcome, ok, err, panic, stuck, recovered}
use mqttie.Go.Outcome
use mqttie.Go.Slice.{make, put_uvarint}
use mqttie.Go.Stream.{Reader, Io, pure, ◌>>=◌, read}

-- EncodeUvarint(b, val): the deferred function turns the index panic of PutUvarint into an error.
unfoldable pub encode_uvarint : ℕ → List ℕ → Outcome (ℕ × List ℕ)
encode_uvarint val b = recovered runtime (put_uvarint val b)

-- `var buf [4]byte; n, err := util.EncodeUvarint(buf[:], val)` and then `buf[:n]`, as every
-- MarshalBinary but Connect's writes the remaining length.
unfoldable pub length_bytes : ℕ → Outcome (List ℕ)
unfolding encode_uvarint
length_bytes val =
    Outcome.◌>>=◌ (encode_uvarint val (make 4)) (λ (r : ℕ × List ℕ). ok (take r.0 r.1))

-- The loop of GetUvarintLen, with a bound on its rounds.
unfoldable pub uvarint_len_loop : ℕ → ℕ → ℕ → Option ℕ
uvarint_len_loop zero length val = none
uvarint_len_loop (suc fuel) length val =
    let rest = uvarint_len_loop fuel (length + 1) (val / 128) in
    if ltb (val / 128) 1 then some (length + 1) else rest

-- A uint64 is below 128 ^ 10, so ten rounds are enough.
unfoldable pub get_uvarint_len : ℕ → Option ℕ
unfolding uvarint_len_loop
get_uvarint_len val = uvarint_len_loop 10 0 val

-- The loop of ReadVarint, from the round that shifts by `shift` on; `none` after the last round. The
-- one-byte buffer `b` keeps its byte where a Read delivers nothing.
unfoldable pub varint_rounds : (R : Reader) → ℕ → ℕ → ℕ → List ℕ → Io R.Stream (Option ℕ)
varint_rounds R zero shift v b = pure none
varint_rounds R (suc rounds) shift v b = read R b >>= λ b'.
    let byte = get_or b' 0 0 in
    let v' = v + bit_and byte 0x7F * 2 ^ shift in
    if bit_and byte 0x80 == 0 then pure (some v') else varint_rounds R rounds (shift + 7) v' b'

-- After four bytes with the top bit set ReadVarint returns the count 4 with its error.
abbrev too_long : {S : Type 0} → ℕ → Outcome (Option ℕ) → S → ℕ × Outcome ℕ × S
too_long n (ok none) s = (4, err varint_too_long, s)
too_long n (ok (some v)) s = (n, ok v, s)
too_long n (err e) s = (n, err e, s)
too_long n panic s = (n, panic, s)
too_long n stuck s = (n, stuck, s)

-- ReadVarint(r): i = 0, 7, 14, 21
unfoldable pub read_varint : (R : Reader) → Io R.Stream ℕ
unfolding varint_rounds
read_varint R s = let (n, r, s') = varint_rounds R 4 0 0 (make 1) s in too_long n r s'
