-- ===== src/Packets/Publish/Reads.antt =====
-- ReadFrom of Publish reads back what MarshalBinary wrote behind the command byte.
use mqttie.Prelude.{ℕ, suc, ◌+◌, ◌-◌, ◌<◌, ◌^◌, ◌≡◌, refl, List, ◌++◌, true, arith}
use mqttie.Prelude.{ltb, lt→leb, le→ltb, length, length-append, length-replicate, append-nil}
use mqttie.Prelude.{Bool-cases, inl, inr, ◌⊎◌, ◌∙◌}
use mqttie.Go.Slice.{make, be16}
use mqttie.Go.Stream.{Reader}
use mqttie.Go.Stream.Reads.{
  Buffered, Reads, Reads-make_rest, Reads-pure, Reads->>=, Reads-read, Reads-eq, Reads-counted,
}
use mqttie.Util.Varint.Decode.{Reads-read_varint}
use mqttie.Util.Utf8.RoundTrip.{utf8, Reads-read_utf8, uint16-be16}
use mqttie.Packets.Publish.{Publish, read_payload, read_content, read_from}
use mqttie.Packets.Publish.Marshal.{id_bytes, content, body, Fits, length-content}

-- With an identifier or a payload the topic is not all of the content.
rest_follows :
    (p : Publish)
    → (0 < p.topic.qos) ⊎ (0 < length p.payload)
    → length (utf8 p.topic.name) < length (content p)
rest_follows p some = rw length-content (ground arith)

module _ {R : Reader} (B : Buffered R) where
  Reads-read_payload :
      (p : Publish) (rem used : ℕ) (payload : List ℕ)
      → rem ≡ used + length payload
      → Reads B (read_payload R p rem used) payload (record p { payload = payload })
  unfolding read_payload
  Reads-read_payload p rem used payload e = Reads-eq B (append-nil payload) refl (
      Reads->>= B _ (Reads-make_rest B rem used (omega arith)) (
        Reads->>= B _
          (Reads-read B (make (rem - used)) payload
            (length-replicate {A = ℕ} (rem - used) 0 ∙ omega arith))
          (Reads-pure B _)))

  -- The receiver `q` holds what Recv knows from the command byte and from PacketIO. A packet that
  -- has no identifier on the wire keeps the receiver's, which is 0.
  pub record Receives (p q : Publish) : Type 0 where
    pub version : q.version ≡ p.version
    pub duplicate : q.duplicate ≡ p.duplicate
    pub retain : q.retain ≡ p.retain
    pub qos : q.topic.qos ≡ p.topic.qos
    pub identifier : p.packet_identifier < 2 ^ 16
    pub no_identifier : p.topic.qos ≡ 0 → p.packet_identifier ≡ q.packet_identifier

  Reads-read_content :
      (p q : Publish) (rem used : ℕ)
      → Receives p q
      → q.topic.name ≡ p.topic.name
      → rem ≡ used + length (id_bytes p ++ p.payload)
      → Reads B (read_content R q rem used) (id_bytes p ++ p.payload) p
  unfolding read_content
  Reads-read_content p q rem used v same e = elim (Bool-cases (ltb 0 p.topic.qos)) [
    | inl some ↦
        let total : rem ≡ used + suc (suc (length p.payload)) = with_id some in
        rw (v.qos, some)
          (Reads->>= B _ (Reads-counted B (Reads-read B (make 2) (be16 p.packet_identifier) refl)) (
            rw (le→ltb rem (used + 2) (omega arith), uint16-be16 p.packet_identifier v.identifier)
              (Reads-eq B refl (ground arith)
                (Reads-read_payload _ rem (used + 2) p.payload (omega arith)))))
    | inr zero ↦
        rw (v.qos, zero)
          (Reads-eq B refl (ground (arith, v.no_identifier))
            (Reads-read_payload _ rem used p.payload (rw zero at e)))
  ]
    where
      with_id : ltb 0 p.topic.qos ≡ true → rem ≡ used + suc (suc (length p.payload))
      with_id some = rw some at e

  -- A packet is read back from its body, if it has an identifier or a payload.
  pub Reads-read_from :
      (p q : Publish)
      → Fits p
      → Receives p q
      → (0 < p.topic.qos) ⊎ (0 < length p.payload)
      → Reads B (read_from R q) (body p) p
  unfolding read_from
  Reads-read_from p q f v some =
      Reads->>= B _ (Reads-read_varint B (length (content p)) f.content_fits) (
        Reads->>= B _ (Reads-counted B (Reads-read_utf8 B p.topic.name f.name_fits)) (
          rw (lt→leb (length (content p)) (length (utf8 p.topic.name)) (rest_follows p some)) (
            Reads-read_content p _ (length (content p)) (length (utf8 p.topic.name))
              (record {
                version = v.version;
                duplicate = v.duplicate;
                retain = v.retain;
                qos = v.qos;
                identifier = v.identifier;
                no_identifier = v.no_identifier;
              })
              refl (omega (arith, length-append p.topic.name (id_bytes p ++ p.payload))))))
