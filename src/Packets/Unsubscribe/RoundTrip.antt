-- ===== src/Packets/Unsubscribe/RoundTrip.antt =====
-- MarshalBinary and ReadFrom of Unsubscribe: the topics come back, the identifier does not.
use mqttie.Prelude.{ℕ, zero, suc, ◌+◌, ◌≤◌, ◌<◌, ◌^◌, ◌≡◌, refl, List, [], ◌∷◌, ◌++◌, arith, All}
use mqttie.Prelude.{length, length-append, lt→ltb, le→ltb, lt→leb, append-nil, append_assoc}
use mqttie.Go.Outcome.{ok}
use mqttie.Go.Slice.{make, be16, uvarint}
use mqttie.Go.Slice.Fills.{Fills-copy, Fills-put_uint16}
use mqttie.Go.Encoder.Writes.{
  Writes, Writes-emit, Writes-store, Writes-skip, Writes->>, marshal_lem,
}
use mqttie.Go.Stream.{Reader}
use mqttie.Go.Stream.Reads.{
  Buffered, Reads, Reads-pure, Reads->>=, Reads-read, Reads-eq, Reads-counted,
}
use mqttie.Util.Varint.Encode.{length_bytes_lem}
use mqttie.Util.Varint.Decode.{Reads-read_varint}
use mqttie.Util.Utf8.RoundTrip.{utf8, Fills-encode_utf8, Reads-read_utf8}
use mqttie.Packets.Unsubscribe.{
  Unsubscribe, payload_length, fill_topics, fixed_header, fill, marshal_binary,
}
use mqttie.Packets.Unsubscribe.{read_topics, read_from}
use native.Mathlib.Nat.{mod-eq_of_lt}

unfoldable pub topics_bytes : List (List ℕ) → List ℕ
topics_bytes [] = []
topics_bytes (t ∷ ts) = utf8 t ++ topics_bytes ts

abbrev pub content : Unsubscribe → List ℕ
content u = be16 u.packet_identifier ++ topics_bytes u.topics

abbrev pub body : Unsubscribe → List ℕ
body u = uvarint (length (content u)) ++ content u

abbrev NameFits : List ℕ → Type 0
NameFits t = length t < 2 ^ 16

pub record Fits (u : Unsubscribe) : Type 0 where
  pub names_fit : All NameFits u.topics
  pub content_fits : length (content u) < 2 ^ 28

length-topics_bytes : (ts : List (List ℕ)) → length (topics_bytes ts) ≡ payload_length ts
unfolding topics_bytes payload_length
length-topics_bytes [] = refl
length-topics_bytes (t ∷ ts) =
    omega (arith, length-append t (topics_bytes ts), length-topics_bytes ts)

topics-Writes : (ts : List (List ℕ)) → All NameFits ts → Writes (fill_topics ts) (topics_bytes ts)
unfolding topics_bytes fill_topics
topics-Writes [] h = Writes-skip
topics-Writes (t ∷ ts) h = Writes->> (Writes-emit (Fills-encode_utf8 t h.0)) (topics-Writes ts h.1)

-- MarshalBinary writes the command byte, the remaining length and the content, and nothing else.
pub marshal_binary_lem :
    (u : Unsubscribe) → Fits u → marshal_binary u ≡ ok (fixed_header u ∷ body u)
unfolding marshal_binary
marshal_binary_lem u f =
    rw
      (
        same,
        mod-eq_of_lt {n = length (content u)} {m = 2 ^ 32} (omega (arith, f.content_fits)),
        length_bytes_lem (length (content u)) f.content_fits,
      )
      (marshal_lem (length prefix + length (content u) + 1) writes
        (omega (arith, length-append prefix (content u))))
  where
    prefix : List ℕ
    prefix = uvarint (length (content u))

    same : 2 + payload_length u.topics ≡ length (content u)
    same = omega (arith, length-topics_bytes u.topics)

    writes : Writes (fill u prefix) (fixed_header u ∷ body u)
    writes = Writes->> (Writes-store (fixed_header u)) (
        Writes->> (Writes-emit (Fills-copy prefix)) (
          Writes->> (Writes-emit (Fills-put_uint16 u.packet_identifier))
            (topics-Writes u.topics f.names_fit)))

topics_bytes-pos : (ts : List (List ℕ)) → 0 < length ts → 0 < length (topics_bytes ts)
unfolding topics_bytes
topics_bytes-pos [] h = h
topics_bytes-pos (t ∷ ts) h = omega arith

module _ {R : Reader} (B : Buffered R) where
  -- The loop reads the topics that are left, and stops where the remaining length is used up.
  Reads-read_topics :
      (ts : List (List ℕ)) (fuel rem used : ℕ) (done : List (List ℕ))
      → All NameFits ts
      → length (topics_bytes ts) ≤ fuel
      → rem ≡ used + length (topics_bytes ts)
      → Reads B (read_topics R fuel rem used done) (topics_bytes ts) (done ++ ts)
  unfolding topics_bytes read_topics
  Reads-read_topics [] zero rem used done h hf e =
      rw (le→ltb used rem (omega arith), append-nil) (Reads-pure B done)
  Reads-read_topics [] (suc fuel) rem used done h hf e =
      rw (le→ltb used rem (omega arith), append-nil) (Reads-pure B done)
  Reads-read_topics (t ∷ ts) zero rem used done h hf e = absurd (omega arith)
  Reads-read_topics (t ∷ ts) (suc fuel) rem used done h hf e =
      let total : rem ≡ used + (length (utf8 t) + length (topics_bytes ts)) =
        omega (arith, length-append t (topics_bytes ts)) in
      rw (lt→ltb used rem (omega arith)) (
        Reads->>= B _ (Reads-counted B (Reads-read_utf8 B t h.0)) (
          rw (le→ltb rem (used + length (utf8 t)) (omega arith)) (
            Reads-eq B refl (append_assoc done (t ∷ []) ts) (
              Reads-read_topics ts fuel rem (used + length (utf8 t)) (done ++ t ∷ []) h.1
                (omega (arith, length-append t (topics_bytes ts))) (omega arith)))))

  -- The topics of a packet are read back from its body. The identifier of the packet is lost: what is
  -- returned has the identifier that the receiver had before.
  pub Reads-read_from :
      (u q : Unsubscribe)
      → Fits u
      → 0 < length u.topics
      → q.version ≡ u.version
      → Reads B (read_from R q) (body u) (record u { packet_identifier = q.packet_identifier })
  unfolding read_from
  Reads-read_from u q f some e =
      Reads->>= B _ (Reads-read_varint B (length (content u)) f.content_fits) (
        Reads->>= B _ (Reads-counted B (Reads-read B (make 2) (be16 u.packet_identifier) refl)) (
          rw (lt→leb (length (content u)) 2 (omega (arith, topics_bytes-pos u.topics some))) (
            Reads-eq B (append-nil (topics_bytes u.topics)) refl (
              Reads->>= B _
                (Reads-read_topics u.topics _ _ 2 [] f.names_fit (omega arith) (omega arith))
                (rw e (Reads-pure B _))))))
