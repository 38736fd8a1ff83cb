-- ===== src/Util/Varint/Encode.antt =====
-- The encoder of variable-length integers: its bytes, its length and its range.
use mqttie.Prelude.{ℕ, zero, suc, ◌+◌, ◌/◌, ◌%◌, ◌^◌, ◌≤◌, ◌<◌, ◌≡◌, ap, some, arith}
use mqttie.Prelude.{le→leb, length, drop, All, take-append, ◌∙◌}
use mqttie.Prelude.Bits.{set_top_bit}
use mqttie.Mqtt.{runtime}
use mqttie.Go.Outcome.{ok, err}
use mqttie.Go.Slice.{uvarint_bytes, uvarint, make, put_uvarint}
use mqttie.Util.Varint.{length_bytes, uvarint_len_loop, get_uvarint_len}

-- A number below 128 ^ (k + 1) takes at most k + 1 bytes.
length-uvarint_bytes-le :
    (fuel k v : ℕ)
    → k ≤ fuel
    → v < 128 ^ suc k
    → (1 ≤ length (uvarint_bytes fuel v)) × (length (uvarint_bytes fuel v) ≤ suc k)
unfolding uvarint_bytes
length-uvarint_bytes-le zero k v hk hv = omega arith
length-uvarint_bytes-le (suc fuel) zero v hk hv = ground arith
length-uvarint_bytes-le (suc fuel) (suc k) v hk hv =
    ground (arith, length-uvarint_bytes-le fuel k (v / 128) (omega arith) (omega arith))

pos-pow : (k : ℕ) → 1 ≤ 128 ^ k
pos-pow zero = omega arith
pos-pow (suc k) = omega (arith, pos-pow k)

-- A number not below 128 ^ k takes more than k bytes.
lt-length-uvarint_bytes :
    (fuel k v : ℕ) → k ≤ fuel → 128 ^ k ≤ v → k < length (uvarint_bytes fuel v)
unfolding uvarint_bytes
lt-length-uvarint_bytes zero k v hk hv = omega arith
lt-length-uvarint_bytes (suc fuel) zero v hk hv = ground arith
lt-length-uvarint_bytes (suc fuel) (suc k) v hk hv =
    ground (arith, pos-pow k, lt-length-uvarint_bytes fuel k (v / 128) (omega arith) (omega arith))

-- A remaining length has at most four bytes exactly up to 2 ^ 28 - 1.
pub length-uvarint-le : (v : ℕ) → v < 2 ^ 28 → (1 ≤ length (uvarint v)) × (length (uvarint v) ≤ 4)
length-uvarint-le v h = length-uvarint_bytes-le 9 3 v (omega arith) h

lt-length-uvarint : (v : ℕ) → 2 ^ 28 ≤ v → 4 < length (uvarint v)
lt-length-uvarint v h = lt-length-uvarint_bytes 9 4 v (omega arith) h

-- Below 2 ^ 28 the four-byte buffer of a MarshalBinary holds the encoding.
pub length_bytes_lem : (v : ℕ) → v < 2 ^ 28 → length_bytes v ≡ ok (uvarint v)
unfolding length_bytes put_uvarint
length_bytes_lem v h =
    rw (le→leb (length (uvarint v)) 4 (length-uvarint-le v h).1)
      (ap ok (take-append (uvarint v) (drop (length (uvarint v)) (make 4))))

-- From 2 ^ 28 on the index panic of PutUvarint is recovered, and the caller gets an error.
pub length_bytes_too_long : (v : ℕ) → 2 ^ 28 ≤ v → length_bytes v ≡ err runtime
unfolding length_bytes put_uvarint
length_bytes_too_long v h = ground (arith, lt-length-uvarint v h)

uvarint_len_loop_lem :
    (fuel n v : ℕ)
    → v < 128 ^ suc fuel
    → uvarint_len_loop (suc fuel) n v ≡ some (n + length (uvarint_bytes fuel v))
unfolding uvarint_len_loop uvarint_bytes
uvarint_len_loop_lem zero n v h = ground arith
uvarint_len_loop_lem (suc fuel) n v h =
    ground (arith, uvarint_len_loop_lem fuel (n + 1) (v / 128) (omega arith))

-- GetUvarintLen ends on every uint64, and returns the number of bytes that PutUvarint writes.
pub get_uvarint_len-uvarint : (v : ℕ) → v < 2 ^ 64 → get_uvarint_len v ≡ some (length (uvarint v))
unfolding get_uvarint_len
get_uvarint_len-uvarint v h = uvarint_len_loop_lem 9 0 v (omega arith) ∙ ap some (omega arith)

-- Every byte that is written is below 256.
uvarint_bytes-IsByte : (fuel v : ℕ) → All (λ b. b < 256) (uvarint_bytes fuel v)
unfolding uvarint_bytes
uvarint_bytes-IsByte zero v = omega arith
uvarint_bytes-IsByte (suc fuel) v =
    ground (arith, set_top_bit (v % 256), uvarint_bytes-IsByte fuel (v / 128))
