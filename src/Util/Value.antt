-- ===== src/Util/Value.antt =====
-- EncodeValue and ReadValue of x/util/utils.go, one function for each case of the type switch.
use mqttie.Prelude.{
  ℕ, ◌+◌, ◌%◌, ◌^◌, List, ◌++◌, Option, none, some, ltb, if◌then◌else◌, length, take, drop, get_or,
}
use mqttie.Mqtt.{Error, packet_short}
use mqttie.Go.Outcome
use mqttie.Go.Outcome.{Outcome, ok}
use mqttie.Go.Slice.{make, copy, overlay, put_uint16, put_uint32, put_byte, uint16, uint32}
use mqttie.Go.Stream.{Reader, Io, pure, lift, value_of, ◌>>=◌, read_raw}

-- EncodeValue(b, v) for a string and for a []byte: the length is cut to 16 bits, `v` to that length,
-- and `copy(b[2:], …)` to the room in `b`.
unfoldable pub encode_bytes : List ℕ → List ℕ → Outcome (ℕ × List ℕ)
unfolding overlay copy
encode_bytes v b =
    let l = length v % 2 ^ 16 in
    Outcome.◌>>=◌ (put_uint16 l b) λ (r : ℕ × List ℕ).
      Outcome.◌>>=◌ (copy (take l v) (drop 2 r.1))
        λ (q : ℕ × List ℕ). ok (2 + q.0, take 2 r.1 ++ q.1)

-- EncodeValue(b, v) for the numbers
abbrev pub encode_uint32 : ℕ → List ℕ → Outcome (ℕ × List ℕ)
encode_uint32 = put_uint32

abbrev pub encode_uint16 : ℕ → List ℕ → Outcome (ℕ × List ℕ)
encode_uint16 = put_uint16

abbrev pub encode_uint8 : ℕ → List ℕ → Outcome (ℕ × List ℕ)
encode_uint8 = put_byte

-- The bytes themselves, once their number is known and unless that read has failed.
unfoldable pub read_tail :
    (R : Reader) {A : Type 0}
    → (List ℕ → A)
    → A
    → ℕ
    → ℕ
    → Option Error
    → Io R.Stream (A × Option Error)
read_tail R wrap old max_len l (some e) = pure (old, some e)
read_tail R wrap old max_len l none =
    if ltb max_len (l + 2)
    then pure (old, some packet_short)
    else do (b, e) ← read_raw R (make l); pure (wrap b, e)

-- ReadValue(r, &v, maxLen) for a string and for a []byte, which `wrap` makes of the bytes. The result
-- is what `v` holds afterwards, which an error may change too, and the error. A negative `maxLen`
-- fails as 0 does.
unfoldable pub read_bytes_value :
    (R : Reader) {A : Type 0} → (List ℕ → A) → A → ℕ → Io R.Stream (A × Option Error)
read_bytes_value R wrap old max_len =
    if ltb max_len 2
    then pure (old, some packet_short)
    else do (b, e) ← read_raw R (make 2); read_tail R wrap old max_len (uint16 b) e

-- ReadValue(r, &v, maxLen) for a number of `size` bytes, which `decode` reads from the buffer
unfoldable pub read_number_value :
    (R : Reader) → ℕ → (List ℕ → ℕ) → ℕ → ℕ → Io R.Stream (ℕ × Option Error)
read_number_value R size decode old max_len =
    if ltb max_len size
    then pure (old, some packet_short)
    else do (b, e) ← read_raw R (make size); pure (decode b, e)

abbrev pub read_uint32_value : (R : Reader) → ℕ → ℕ → Io R.Stream (ℕ × Option Error)
read_uint32_value R = read_number_value R 4 uint32

abbrev pub read_uint16_value : (R : Reader) → ℕ → ℕ → Io R.Stream (ℕ × Option Error)
read_uint16_value R = read_number_value R 2 uint16

abbrev pub read_uint8_value : (R : Reader) → ℕ → ℕ → Io R.Stream (ℕ × Option Error)
read_uint8_value R = read_number_value R 1 (λ b. get_or b 0 0)

-- The value alone, where the caller returns an error at once.
unfoldable pub checked : {S A : Type 0} → Io S (A × Option Error) → Io S A
checked m = m >>= λ r. lift (value_of r.0 r.1)

abbrev pub read_string : (R : Reader) → List ℕ → ℕ → Io R.Stream (List ℕ × Option Error)
read_string R = read_bytes_value R (λ b. b)
