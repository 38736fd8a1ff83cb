-- ===== src/Packets/PacketIo/RoundTrip.antt =====
-- Recv reads back what Send wrote, for every packet but Connect.
use mqttie.Prelude.{ℕ, ◌<◌, ◌^◌, ◌≡◌, ◌⊎◌, refl, List, [], ◌∷◌, none, length, sym}
use mqttie.Prelude.{append-nil, bit_and, Bool-cases, inl, inr, ◌==◌}
use mqttie.Mqtt.{mqtt_v311}
use mqttie.Go.Outcome.{ok}
use mqttie.Go.Slice.{make, be16}
use mqttie.Go.Stream.{Reader, Io, pure, ◌>>=◌}
use mqttie.Go.Stream.Reads.{Buffered, Reads, Reads-pure, Reads->>=, Reads-read, Reads-eq}
use mqttie.Packets
use mqttie.Packets.Publish.{Publish, fixed_header}
use mqttie.Packets.Unsubscribe.{fixed_header as unsubscribe_header}
use mqttie.Packets.PacketIo.{
  Packet, connect, conn_ack, publish, pub_ack, pub_rec, pub_rel, pub_comp,
}
use mqttie.Packets.PacketIo.{
  subscribe, sub_ack, unsubscribe, unsub_ack, ping_req, ping_resp, disconnect,
}
use mqttie.Packets.PacketIo.{marshal_binary, new_publish, set_deadline, recv_body, recv}
use mqttie.Packets.PacketIo.Commands.{fixed_header-Flags}

-- What a publish packet needs, so that the receiver can rebuild it.
pub record PublishWire (v : ℕ) (p : Publish) : Type 0 where
  pub fits : Packets.Publish.Marshal.Fits p
  pub version : p.version ≡ v
  pub qos : p.topic.qos < 4
  pub identifier : p.packet_identifier < 2 ^ 16
  pub no_identifier : p.topic.qos ≡ 0 → p.packet_identifier ≡ 0
  pub some_content : (0 < p.topic.qos) ⊎ (0 < length p.payload)

-- The packets of version `v` that the wire can carry: lengths and identifiers in their range, at least
-- one topic or code, and a publish packet with a QoS below 4 and with an identifier or a payload. The
-- identifier of an Unsubscribe may be any, since it is not returned. Connect is left out.
abbrev pub IsWire : ℕ → Packet → Type 0
IsWire v (connect p) = ⊥
IsWire v (conn_ack p) = p.version ≡ v
IsWire v (publish p) = PublishWire v p
IsWire v (pub_ack p) = (p.version ≡ v) × (p.packet_identifier < 2 ^ 16)
IsWire v (pub_rec p) = (p.version ≡ v) × (p.packet_identifier < 2 ^ 16)
IsWire v (pub_rel p) = (p.version ≡ v) × (p.packet_identifier < 2 ^ 16)
IsWire v (pub_comp p) = (p.version ≡ v) × (p.packet_identifier < 2 ^ 16)
IsWire v (subscribe p) =
    (p.version ≡ v)
    × (p.packet_identifier < 2 ^ 16)
    × (0 < length p.topics)
    × Packets.Subscribe.Marshal.Fits p
IsWire v (sub_ack p) =
    (p.version ≡ v)
    × (p.packet_identifier < 2 ^ 16)
    × (0 < length p.return_codes)
    × Packets.SubAck.RoundTrip.Fits p
IsWire v (unsubscribe p) =
    (p.version ≡ v) × (0 < length p.topics) × Packets.Unsubscribe.RoundTrip.Fits p
IsWire v (unsub_ack p) = (p.version ≡ v) × (p.packet_identifier < 2 ^ 16)
IsWire v (ping_req p) = p.version ≡ v
IsWire v (ping_resp p) = p.version ≡ v
IsWire v (disconnect p) = p.version ≡ v

-- What Recv makes of a packet: itself, but that an Unsubscribe has no identifier.
abbrev pub received : Packet → Packet
received (unsubscribe p) = unsubscribe (record p { packet_identifier = 0 })
received p = p

abbrev pub bytes : Packet → List ℕ
bytes (connect p) = []
bytes (conn_ack p) = 0x20 ∷ Packets.ConnAck.Reads.body p
bytes (publish p) = fixed_header p ∷ Packets.Publish.Marshal.body p
bytes (pub_ack p) = 0x40 ∷ 2 ∷ be16 p.packet_identifier
bytes (pub_rec p) = 0x50 ∷ 2 ∷ be16 p.packet_identifier
bytes (pub_rel p) = Packets.PubRel.Reads.command p ∷ 2 ∷ be16 p.packet_identifier
bytes (pub_comp p) = 0x70 ∷ 2 ∷ be16 p.packet_identifier
bytes (subscribe p) = 0x82 ∷ Packets.Subscribe.Marshal.body p
bytes (sub_ack p) = 0x90 ∷ Packets.SubAck.RoundTrip.body p
bytes (unsubscribe p) = unsubscribe_header p ∷ Packets.Unsubscribe.RoundTrip.body p
bytes (unsub_ack p) = 0xB0 ∷ 2 ∷ be16 p.packet_identifier
bytes (ping_req p) = 0xC0 ∷ 0 ∷ []
bytes (ping_resp p) = 0xD0 ∷ 0 ∷ []
bytes (disconnect p) = 0xE0 ∷ 0 ∷ []

-- MarshalBinary writes the bytes of every packet that the wire can carry.
pub marshal_binary-bytes :
    (uuid : List ℕ) (v : ℕ) (p : Packet) → IsWire v p → marshal_binary uuid p ≡ ok (bytes p)
unfolding marshal_binary
marshal_binary-bytes uuid v (connect p) w = elim w [ ]
marshal_binary-bytes uuid v (conn_ack p) w = Packets.ConnAck.Reads.marshal_binary_lem p
marshal_binary-bytes uuid v (publish p) w = Packets.Publish.Marshal.marshal_binary_lem p w.fits
marshal_binary-bytes uuid v (pub_ack p) w = Packets.PubAck.Reads.marshal_binary_lem p
marshal_binary-bytes uuid v (pub_rec p) w = Packets.PubRec.Reads.marshal_binary_lem p
marshal_binary-bytes uuid v (pub_rel p) w = Packets.PubRel.Reads.marshal_binary_lem p
marshal_binary-bytes uuid v (pub_comp p) w = Packets.PubComp.Reads.marshal_binary_lem p
marshal_binary-bytes uuid v (subscribe p) w = Packets.Subscribe.Marshal.marshal_binary_lem p w.3
marshal_binary-bytes uuid v (sub_ack p) w = Packets.SubAck.RoundTrip.marshal_binary_lem p w.3
marshal_binary-bytes uuid v (unsubscribe p) w =
    Packets.Unsubscribe.RoundTrip.marshal_binary_lem p w.2
marshal_binary-bytes uuid v (unsub_ack p) w = Packets.UnsubAck.Reads.marshal_binary_lem p
marshal_binary-bytes uuid v (ping_req p) w = unfold Packets.PingReq.marshal_binary in refl
marshal_binary-bytes uuid v (ping_resp p) w = unfold Packets.PingResp.marshal_binary in refl
marshal_binary-bytes uuid v (disconnect p) w = unfold Packets.Disconnect.marshal_binary in refl

-- The two command bytes that depend on the version.
pub_rel_command : (p : Packets.PubRel.PubRel) → bit_and (Packets.PubRel.Reads.command p) 0xF0 ≡ 0x60
pub_rel_command p = elim (Bool-cases (p.version == mqtt_v311)) [ inl e ↦ rw e | inr e ↦ rw e ]

unsubscribe_command :
    (p : Packets.Unsubscribe.Unsubscribe) → bit_and (unsubscribe_header p) 0xF0 ≡ 0xA0
unfolding unsubscribe_header
unsubscribe_command p = elim (Bool-cases (p.version == mqtt_v311)) [ inl e ↦ rw e | inr e ↦ rw e ]

module _ {R : Reader} (B : Buffered R) (fuel v : ℕ) where
  pub Reads-map :
      {A C : Type 0} {m : Io R.Stream A} (f : A → C) {bs : List ℕ} {a : A}
      → Reads B m bs a
      → Reads B (m >>= λ x. pure (f x)) bs (f a)
  Reads-map f {bs = bs} r = Reads-eq B (append-nil bs) refl (Reads->>= B _ r (Reads-pure B _))

  no_deadline : Reads B (set_deadline none) [] tt
  unfolding set_deadline
  no_deadline = record { at = λ rest. refl }

  pub Reads-recv :
      (b : ℕ) {bs : List ℕ} {p : Packet}
      → Reads B (recv_body R fuel v b) bs p
      → Reads B (recv R none fuel v) (b ∷ bs) p
  unfolding recv
  Reads-recv b r = Reads->>= B _ no_deadline (Reads->>= B _ (Reads-read B (make 1) (b ∷ []) refl) r)

  publish-body :
      (p : Publish)
      → PublishWire v p
      → Reads B (recv_body R fuel v (fixed_header p)) (Packets.Publish.Marshal.body p) (publish p)
  unfolding recv_body
  publish-body p w =
      let f = fixed_header-Flags p w.qos in
      rw f.command (
        Reads-map publish (
          Packets.Publish.Reads.Reads-read_from B p (new_publish v (fixed_header p)) w.fits
            (record {
              version = sym w.version;
              duplicate = f.duplicate_bit;
              retain = f.retain_bit;
              qos = f.qos_bits;
              identifier = w.identifier;
              no_identifier = w.no_identifier;
            })
            w.some_content))

  -- What Recv returns for each packet, behind the command byte.
  recv_body_lem : (p : Packet) → IsWire v p → Reads B (recv R none fuel v) (bytes p) (received p)
  unfolding recv_body
  recv_body_lem (connect p) w = elim w [ ]
  recv_body_lem (conn_ack p) w =
      Reads-recv _ (Reads-map conn_ack (Packets.ConnAck.Reads.Reads-read_from B p _ (sym w) refl))
  recv_body_lem (publish p) w = Reads-recv _ (publish-body p w)
  recv_body_lem (pub_ack p) w =
      Reads-recv _ (Reads-map pub_ack (Packets.PubAck.Reads.Reads-read_from B p _ w.1 (sym w.0)))
  recv_body_lem (pub_rec p) w =
      Reads-recv _ (Reads-map pub_rec (Packets.PubRec.Reads.Reads-read_from B p _ w.1 (sym w.0)))
  recv_body_lem (pub_rel p) w = Reads-recv _ (
      rw (pub_rel_command p)
        (Reads-map pub_rel (Packets.PubRel.Reads.Reads-read_from B p _ w.1 (sym w.0))))
  recv_body_lem (pub_comp p) w =
      Reads-recv _ (Reads-map pub_comp (Packets.PubComp.Reads.Reads-read_from B p _ w.1 (sym w.0)))
  recv_body_lem (subscribe p) w =
      Reads-recv _
        (Reads-map subscribe (Packets.Subscribe.Reads.Reads-read_from B p _ w.3 w.1 w.2 (sym w.0)))
  recv_body_lem (sub_ack p) w =
      Reads-recv _
        (Reads-map sub_ack (Packets.SubAck.RoundTrip.Reads-read_from B p _ w.3 w.1 w.2 (sym w.0)))
  recv_body_lem (unsubscribe p) w = Reads-recv _ (
      rw (unsubscribe_command p) (
        Reads-map unsubscribe
          (Packets.Unsubscribe.RoundTrip.Reads-read_from B p _ w.2 w.1 (sym w.0))))
  recv_body_lem (unsub_ack p) w =
      Reads-recv _
        (Reads-map unsub_ack (Packets.UnsubAck.Reads.Reads-read_from B p _ w.1 (sym w.0)))
  recv_body_lem (ping_req p) w =
      Reads-recv _ (Reads-map ping_req (Packets.PingReq.Reads.Reads-read_from B p _ (sym w)))
  recv_body_lem (ping_resp p) w =
      Reads-recv _ (Reads-map ping_resp (Packets.PingResp.Reads.Reads-read_from B p _ (sym w)))
  recv_body_lem (disconnect p) w =
      Reads-recv _ (Reads-map disconnect (Packets.Disconnect.Reads.Reads-read_from B p _ (sym w)))

-- For every packet but Connect that has the version of the receiver, an identifier of 16 bits, a
-- remaining length below 2 ^ 28 and strings with a length of 16 bits, at least one topic or return code
-- where it is a Subscribe, SubAck or Unsubscribe, and, where it is a Publish, a QoS below 4, with QoS 0 a
-- payload and the identifier 0: MarshalBinary returns the packet's bytes, and Recv takes exactly those
-- bytes from a connection on which they have arrived and returns the packet, an Unsubscribe with the
-- identifier 0.
pub recv-marshal_binary :
    {R : Reader} (B : Buffered R) (fuel v : ℕ) (uuid : List ℕ) (p : Packet)
    → IsWire v p
    → (marshal_binary uuid p ≡ ok (bytes p)) × Reads B (recv R none fuel v) (bytes p) (received p)
recv-marshal_binary B fuel v uuid p w =
    (marshal_binary-bytes uuid v p w, recv_body_lem B fuel v p w)
