-- ===== src/Util/Utf8.antt =====
-- EncodeUTF8, WriteUTF8 and ReadUTF8 of x/util/utils.go: length-prefixed strings. A string is the
-- list of its bytes, as in Go.
pub mod RoundTrip
pub mod Bounds
use mqttie.Prelude.{ℕ, ◌+◌, ◌%◌, ◌^◌, List, ◌++◌, ltb, if◌then◌else◌, length, take, drop}
use mqttie.Mqtt.{runtime, utf8_too_long, unexpected_eof}
use mqttie.Go.Outcome
use mqttie.Go.Outcome.{Outcome, ok, err, recovered}
use mqttie.Go.Slice.{make, overlay, put_uint16, be16, uint16}
use mqttie.Go.Stream.{Reader, Writer, Io, pure, fail, counted, ◌>>=◌, read, write}

-- EncodeUTF8(b, str): the length, then `copy(b[2:], str)`, which stops silently at the end of `b`.
unfoldable pub encode_utf8 : List ℕ → List ℕ → Outcome (ℕ × List ℕ)
unfolding overlay
encode_utf8 str b =
    if ltb 0xFFFF (length str)
    then err utf8_too_long
    else recovered runtime (
        Outcome.◌>>=◌ (put_uint16 (length str) b)
          (λ (r : ℕ × List ℕ). ok (length str + 2, take 2 r.1 ++ overlay (drop 2 r.1) str)))

-- WriteUTF8(w, str): the test is against 32 bits, and the length is then cut to 16.
unfoldable pub write_utf8 : (W : Writer) → List ℕ → Io W.Sink (Unit {0})
write_utf8 W str =
    if ltb 0xFFFF_FFFF (length str)
    then fail utf8_too_long
    else write W (be16 (length str % 2 ^ 16) ++ str)

-- ReadUTF8(r): the second test compares the count of both reads with the length of the string.
unfoldable pub read_utf8 : (R : Reader) → Io R.Stream (List ℕ)
read_utf8 R = do
  (b, n) ← counted (read R (make 2))
  if ltb n 2 then fail unexpected_eof else do
    (ret, k) ← counted (read R (make (uint16 b)))
    if ltb (n + k) (length ret) then fail unexpected_eof else pure ret
