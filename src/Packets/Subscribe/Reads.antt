-- ===== src/Packets/Subscribe/Reads.antt =====
-- ReadFrom of Subscribe reads back what MarshalBinary wrote behind the command byte.
use mqttie.Prelude.{ℕ, zero, suc, ◌+◌, ◌≤◌, ◌<◌, ◌^◌, ◌≡◌, refl, List, [], ◌∷◌, ◌++◌, arith, All}
use mqttie.Prelude.{lt→ltb, le→ltb, lt→leb, length, length-append, append-nil, append_assoc}
use mqttie.Mqtt.{Topic}
use mqttie.Go.Slice.{make, be16}
use mqttie.Go.Stream.{Reader}
use mqttie.Go.Stream.Reads.{
  Buffered, Reads, Reads-pure, Reads->>=, Reads-read, Reads-eq, Reads-counted,
}
use mqttie.Util.Varint.Decode.{Reads-read_varint}
use mqttie.Util.Utf8.RoundTrip.{utf8, Reads-read_utf8, uint16-be16}
use mqttie.Packets.Subscribe.{Subscribe, read_topics, read_from}
use mqttie.Packets.Subscribe.Marshal.{topics_bytes, content, body, NameFits, Fits}

topics_bytes-pos : (ts : List Topic) → 0 < length ts → 0 < length (topics_bytes ts)
unfolding topics_bytes
topics_bytes-pos [] h = h
topics_bytes-pos (t ∷ ts) h = omega arith

module _ {R : Reader} (B : Buffered R) where
  -- The loop reads the topics that are left, and stops where the remaining length is used up.
  Reads-read_topics :
      (ts : List Topic) (fuel rem used : ℕ) (buf : List ℕ) (done : List Topic)
      → All NameFits ts
      → length (topics_bytes ts) ≤ fuel
      → rem ≡ used + length (topics_bytes ts)
      → Reads B (read_topics R fuel rem used buf done) (topics_bytes ts) (done ++ ts)
  unfolding topics_bytes read_topics
  Reads-read_topics [] zero rem used buf done h hf e =
      rw (le→ltb used rem (omega arith), append-nil) (Reads-pure B done)
  Reads-read_topics [] (suc fuel) rem used buf done h hf e =
      rw (le→ltb used rem (omega arith), append-nil) (Reads-pure B done)
  Reads-read_topics (t ∷ ts) zero rem used buf done h hf e = absurd (omega arith)
  Reads-read_topics (t ∷ ts) (suc fuel) rem used buf done h hf e =
      let total : rem ≡ used + (suc (suc (length t.name)) + suc (length (topics_bytes ts))) =
        omega (arith, length-append t.name (t.qos ∷ topics_bytes ts)) in
      rw (lt→ltb used rem (omega arith)) (
        Reads->>= B _ (Reads-counted B (Reads-read_utf8 B t.name h.0)) (
          Reads->>= B _ (Reads-counted B (Reads-read B _ (t.qos ∷ []) refl)) (
            rw (le→ltb rem (used + length (utf8 t.name) + 1) (omega arith)) (
              Reads-eq B refl (append_assoc done (t ∷ []) ts) (
                Reads-read_topics ts fuel rem (used + length (utf8 t.name) + 1) _ (done ++ t ∷ [])
                  h.1 (omega (arith, length-append t.name (t.qos ∷ topics_bytes ts)))
                  (omega arith))))))

  -- A packet with at least one topic is read back from its body.
  pub Reads-read_from :
      (s q : Subscribe)
      → Fits s
      → s.packet_identifier < 2 ^ 16
      → 0 < length s.topics
      → q.version ≡ s.version
      → Reads B (read_from R q) (body s) s
  unfolding read_from
  Reads-read_from s q f id some e =
      Reads->>= B _ (Reads-read_varint B (length (content s)) f.content_fits) (
        Reads->>= B _ (Reads-counted B (Reads-read B (make 2) (be16 s.packet_identifier) refl)) (
          rw (lt→leb (length (content s)) 2 (omega (arith, topics_bytes-pos s.topics some))) (
            Reads-eq B (append-nil (topics_bytes s.topics)) refl (
              Reads->>= B _
                (Reads-read_topics s.topics _ _ 2 _ [] f.names_fit (omega arith) (omega arith))
                (rw (uint16-be16 s.packet_identifier id, e) (Reads-pure B s))))))
