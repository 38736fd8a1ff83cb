-- ===== src/Util/Utf8/RoundTrip.antt =====
-- EncodeUTF8 writes the length and the string, and ReadUTF8 reads them back.
use mqttie.Prelude.{ℕ, suc, ◌+◌, ◌≤◌, ◌<◌, ◌^◌, ◌≡◌, refl, List, ◌++◌, arith, length, drop}
use mqttie.Prelude.{le→ltb, lt→ltb, append-nil, take-all, length-replicate, drop-drop, length-drop}
use mqttie.Mqtt.{utf8_too_long}
use mqttie.Go.Outcome.{err}
use mqttie.Go.Slice.{make, be16, uint16, overlay}
use mqttie.Go.Slice.Fills.{Fills, Fills-put_uint16}
use mqttie.Go.Stream.{Reader}
use mqttie.Go.Stream.Reads.{
  Buffered, Reads, Reads-pure, Reads->>=, Reads-read, Reads-eq, Reads-counted,
}
use mqttie.Util.Utf8.{encode_utf8, read_utf8}

-- The bytes of a string on the wire.
abbrev pub utf8 : List ℕ → List ℕ
utf8 str = be16 (length str) ++ str

overlay-front :
    (dst src : List ℕ) → length src ≤ length dst → overlay dst src ≡ src ++ drop (length src) dst
unfolding overlay
overlay-front dst src h = rw (take-all (length dst) src h) refl

two_more : (n : ℕ) → 2 + n ≡ suc (suc n)
two_more n = omega arith

add_two : (n : ℕ) → n + 2 ≡ suc (suc n)
add_two n = omega arith

pub Fills-encode_utf8 : (str : List ℕ) → length str < 2 ^ 16 → Fills (encode_utf8 str) (utf8 str)
unfolding encode_utf8 overlay
Fills-encode_utf8 str h = record {
  at = λ t room.
      rw
        (
          le→ltb 0xFFFF (length str) (omega arith),
          (Fills-put_uint16 (length str)).at t (omega arith),
        )
        (rw
          (
            overlay-front (drop 2 t) str (omega (arith, length-drop 2 t)),
            drop-drop 2 (length str) t,
            two_more (length str),
            add_two,
          )
          refl);
}

-- A string of more than 65535 bytes is refused.
pub encode_utf8_too_long :
    (str b : List ℕ) → 2 ^ 16 ≤ length str → encode_utf8 str b ≡ err utf8_too_long
unfolding encode_utf8
encode_utf8_too_long str b h = rw (lt→ltb 0xFFFF (length str) (omega arith)) refl

pub uint16-be16 : (v : ℕ) → v < 2 ^ 16 → uint16 (be16 v) ≡ v
uint16-be16 v h = omega arith

-- ReadUTF8 reads back every string of at most 65535 bytes.
pub Reads-read_utf8 :
    {R : Reader} (B : Buffered R) (str : List ℕ)
    → length str < 2 ^ 16
    → Reads B (read_utf8 R) (utf8 str) str
unfolding read_utf8
Reads-read_utf8 B str h =
    Reads->>= B _ (Reads-counted B (Reads-read B (make 2) (be16 (length str)) refl)) (
      Reads-eq B (append-nil str) refl (
        rw (uint16-be16 (length str) h) (
          Reads->>= B _
            (Reads-counted B
              (Reads-read B (make (length str)) str (length-replicate {A = ℕ} (length str) 0)))
            (rw (le→ltb (2 + length str) (length str) (omega arith)) (Reads-pure B str)))))
