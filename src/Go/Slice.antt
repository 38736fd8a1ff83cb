-- ===== src/Go/Slice.antt =====
-- Byte slices: `copy`, and encoding/binary on slices. A slice is the list of its bytes; a function
-- that writes to a slice returns the slice after the write.
pub mod Fills
use mqttie.Prelude.{ℕ, zero, suc, ◌+◌, ◌-◌, ◌*◌, ◌/◌, ◌%◌, ◌^◌, List, [], ◌∷◌, ◌++◌, bit_or, Bool}
use mqttie.Prelude.{ltb, leb, if◌then◌else◌, length, take, drop, replicate, get_or}
use mqttie.Go.Outcome.{Outcome, ok, panic}
use Prim.Native.Nat.{min}

-- make([]byte, n)
abbrev pub make : ℕ → List ℕ
make n = replicate n 0

-- make([]byte, length) where `length` is an int that has become `rem - used`: it panics where that is
-- negative.
unfoldable pub make_rest : ℕ → ℕ → Outcome (List ℕ)
make_rest rem used = if ltb rem used then panic else ok (make (rem - used))

-- The slice `dst` after `copy(dst, src)`, which moves as many bytes as both have.
unfoldable pub overlay : List ℕ → List ℕ → List ℕ
overlay dst src = take (length dst) src ++ drop (length src) dst

-- copy(dst, src)
unfoldable pub copy : List ℕ → List ℕ → Outcome (ℕ × List ℕ)
unfolding overlay
copy src dst = ok (min (length dst) (length src), overlay dst src)

-- dst[0] = v
unfoldable pub put_byte : ℕ → List ℕ → Outcome (ℕ × List ℕ)
put_byte v [] = panic
put_byte v (x ∷ dst) = ok (1, v ∷ dst)

abbrev pub be16 : ℕ → List ℕ
be16 v = v / 256 % 256 ∷ v % 256 ∷ []

abbrev pub be32 : ℕ → List ℕ
be32 v = v / 2 ^ 24 % 256 ∷ v / 2 ^ 16 % 256 ∷ v / 256 % 256 ∷ v % 256 ∷ []

-- A write of fixed bytes that panics where the slice is too short for them.
unfoldable pub put_bytes : List ℕ → List ℕ → Outcome (ℕ × List ℕ)
put_bytes bs dst =
    if leb (length bs) (length dst) then ok (length bs, bs ++ drop (length bs) dst) else panic

-- binary.BigEndian.PutUint16, whose callers count 2 bytes
unfoldable pub put_uint16 : ℕ → List ℕ → Outcome (ℕ × List ℕ)
unfolding put_bytes
put_uint16 v = put_bytes (be16 v)

-- binary.BigEndian.PutUint32
unfoldable pub put_uint32 : ℕ → List ℕ → Outcome (ℕ × List ℕ)
unfolding put_bytes
put_uint32 v = put_bytes (be32 v)

-- binary.BigEndian.Uint16 and Uint32, on buffers that are long enough
abbrev pub uint16 : List ℕ → ℕ
uint16 b = get_or b 0 0 * 256 + get_or b 1 0

abbrev pub uint32 : List ℕ → ℕ
uint32 b = ((get_or b 0 0 * 256 + get_or b 1 0) * 256 + get_or b 2 0) * 256 + get_or b 3 0

-- The bytes that binary.PutUvarint writes, with a bound on their number: a uint64 has ten at most.
unfoldable pub uvarint_bytes : ℕ → ℕ → List ℕ
uvarint_bytes zero x = x % 256 ∷ []
uvarint_bytes (suc fuel) x =
    let rest = uvarint_bytes fuel (x / 128) in
    if ltb x 128 then x % 256 ∷ [] else bit_or (x % 256) 0x80 ∷ rest

abbrev pub uvarint : ℕ → List ℕ
uvarint = uvarint_bytes 9

-- binary.PutUvarint, which panics with an index error where the slice is too short
unfoldable pub put_uvarint : ℕ → List ℕ → Outcome (ℕ × List ℕ)
unfolding put_bytes
put_uvarint x = put_bytes (uvarint x)
