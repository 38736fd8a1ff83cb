-- ===== src/Packets/SubAck/RoundTrip.antt =====
-- MarshalBinary and ReadFrom of SubAck.
use mqttie.Prelude.{ℕ, ◌+◌, ◌-◌, ◌<◌, ◌^◌, ◌≡◌, refl, List, [], ◌∷◌, ◌++◌, arith, ◌∙◌}
use mqttie.Prelude.{length, length-append, length-replicate, lt→leb, append-nil}
use mqttie.Go.Outcome.{ok}
use mqttie.Go.Slice.{make, be16, uvarint}
use mqttie.Go.Slice.Fills.{Fills-copy, Fills-put_uint16}
use mqttie.Go.Encoder.Writes.{
  Writes, Writes-emit, Writes-store, Writes-skip, Writes->>, marshal_lem,
}
use mqttie.Go.Stream.{Reader}
use mqttie.Go.Stream.Reads.{
  Buffered, Reads, Reads-make_rest, Reads-pure, Reads->>=, Reads-read, Reads-eq, Reads-counted,
}
use mqttie.Util.Varint.Encode.{length_bytes_lem}
use mqttie.Util.Varint.Decode.{Reads-read_varint}
use mqttie.Util.Utf8.RoundTrip.{uint16-be16}
use mqttie.Packets.Frame.{cmd_sub_ack}
use mqttie.Packets.SubAck.{SubAck, fill_codes, fill, marshal_binary, read_from}
use native.Mathlib.Nat.{mod-eq_of_lt}

abbrev pub content : SubAck → List ℕ
content s = be16 s.packet_identifier ++ s.return_codes

abbrev pub body : SubAck → List ℕ
body s = uvarint (length (content s)) ++ content s

abbrev pub Fits : SubAck → Type 0
Fits s = length (content s) < 2 ^ 28

codes-Writes : (codes : List ℕ) → Writes (fill_codes codes) codes
unfolding fill_codes
codes-Writes [] = Writes-skip
codes-Writes (code ∷ codes) = Writes->> (Writes-store code) (codes-Writes codes)

-- MarshalBinary writes the command byte, the remaining length and the content, and nothing else.
pub marshal_binary_lem : (s : SubAck) → Fits s → marshal_binary s ≡ ok (cmd_sub_ack ∷ body s)
unfolding marshal_binary
marshal_binary_lem s f =
    rw
      (
        same,
        mod-eq_of_lt {n = length (content s)} {m = 2 ^ 32} (omega (arith, f)),
        length_bytes_lem (length (content s)) f,
      )
      (marshal_lem (length prefix + length (content s) + 1) writes
        (omega (arith, length-append prefix (content s))))
  where
    prefix : List ℕ
    prefix = uvarint (length (content s))

    same : length s.return_codes + 2 ≡ length (content s)
    same = omega arith

    writes : Writes (fill s prefix) (cmd_sub_ack ∷ body s)
    writes = Writes->> (Writes-store cmd_sub_ack) (
        Writes->> (Writes-emit (Fills-copy prefix)) (
          Writes->> (Writes-emit (Fills-put_uint16 s.packet_identifier))
            (codes-Writes s.return_codes)))

-- A packet with at least one return code is read back from its body.
pub Reads-read_from :
    {R : Reader} (B : Buffered R) (s q : SubAck)
    → Fits s
    → s.packet_identifier < 2 ^ 16
    → 0 < length s.return_codes
    → q.version ≡ s.version
    → Reads B (read_from R q) (body s) s
unfolding read_from
Reads-read_from B s q f id some e = Reads->>= B _ (Reads-read_varint B (length (content s)) f) (
    Reads->>= B _ (Reads-counted B (Reads-read B (make 2) (be16 s.packet_identifier) refl)) (
      rw (lt→leb (length (content s)) 2 (omega (arith, some))) (
        Reads-eq B (append-nil s.return_codes) refl (
          Reads->>= B _ (Reads-make_rest B (length (content s)) 2 (omega arith)) (
            Reads->>= B _
              (Reads-read B (make (length (content s) - 2)) s.return_codes
                (length-replicate {A = ℕ} (length (content s) - 2) 0 ∙ omega arith))
              (rw (uint16-be16 s.packet_identifier id, e) (Reads-pure B s)))))))
