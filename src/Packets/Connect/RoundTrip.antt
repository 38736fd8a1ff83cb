-- ===== src/Packets/Connect/RoundTrip.antt =====
-- ReadFrom of Connect reads back what MarshalBinary wrote behind the command byte, in version 3.1.1.
use mqttie.Prelude.{
  ℕ, zero, suc, ◌+◌, ◌-◌, ◌<◌, ◌≤◌, ◌^◌, ◌≡◌, refl, ◌∙◌, ap, sym, List, [], ◌∷◌, ◌++◌, true, false,
  leb, ◌&&◌, if◌then◌else◌, length, length-append, append_assoc, le→ltb, arith,
}
use mqttie.Mqtt.{mqtt_v311}
use mqttie.Go.Outcome.{ok}
use mqttie.Go.Slice.{be16, uvarint}
use mqttie.Go.Stream.{Reader}
use mqttie.Go.Stream.Reads.{Buffered, Reads, Reads->>=, Reads-eq, Reads-counted}
use mqttie.Util.Varint.Decode.{Reads-read_varint}
use mqttie.Packets.Connect.{Connect}
use mqttie.Packets.Connect.Length.{nonempty}
use mqttie.Packets.Connect.Marshal.{is_v5, has_will}
use mqttie.Packets.Connect.Bytes.{opt, will_bytes, credentials, flags, content, body, Fits}
use mqttie.Packets.Connect.Flags.{flags_byte-FlagBits, flags_and_len-flags}
use mqttie.Packets.Connect.Read.{read_body, drain, verdict, finish, read_from}
use mqttie.Packets.Connect.Reads.{BitsOf, flags_lem, Reads-parse_var_header}
use mqttie.Packets.Connect.Reads.Payload.{payload, Reads-payload}

-- What ReadFrom makes of the receiver `q`: the fields of `c` that are on the wire.
abbrev pub received : Connect → Connect → Connect
received q c = record q {
  version = mqtt_v311;
  clean_session = if c.clean_session then true else q.clean_session;
  keep_alive = c.keep_alive;
  client_id = c.client_id;
  will_topic = if has_will c then c.will_topic else q.will_topic;
  will_message = if has_will c then c.will_message else q.will_message;
  will_retain = if has_will c && c.will_retain then true else q.will_retain;
  username = if nonempty c.username then c.username else q.username;
  password = if nonempty c.username && nonempty c.password then c.password else q.password;
}

-- Without properties the packet is its fixed part and its payload.
content-payload :
    (c : Connect)
    → c.version ≡ mqtt_v311
    → content c
      ≡ ((0 ∷ 4 ∷ b'M' ∷ b'Q' ∷ b'T' ∷ b'T' ∷ mqtt_v311 ∷ flags c ∷ []) ++ be16 c.keep_alive)
        ++ payload c
content-payload c v = let old : is_v5 c ≡ false = rw v refl in rw old cc

length-content_payload :
    (c : Connect) → c.version ≡ mqtt_v311 → length (content c) ≡ 10 + length (payload c)
length-content_payload c v = omega (arith, ap length (content-payload c v))

module _ {R : Reader} (B : Buffered R) where
  Reads-body :
      (q c : Connect)
      → c.version ≡ mqtt_v311
      → c.keep_alive < 2 ^ 16
      → BitsOf (flags c) c
      → Fits c
      → Reads B (read_body R (length (content c)) q) (content c) (received q c)
  unfolding read_body
  Reads-body q c v small h f =
      let room = length-content_payload c v in
      Reads-eq B (sym (content-payload c v)) refl (
        Reads->>= B _
          (Reads-counted B (
            Reads-parse_var_header B (flags c) (length (content c)) q c small (omega (arith, room))
              h))
          (Reads-payload B (length (content c) - 10) (flags c) _ c refl v h f
            (omega (arith, room))))

  -- A packet of the length that was announced ends the reading.
  finish_exact :
      (fuel total n : ℕ) (r : Connect) (s : R.Stream)
      → total ≡ n
      → drain R fuel total n (verdict total n (ok r)) s ≡ (n, ok r, s)
  unfolding drain
  finish_exact zero total n r s e =
      rw (le→ltb total n (omega arith), le→ltb n total (omega arith)) refl
  finish_exact (suc fuel) total n r s e =
      rw (le→ltb total n (omega arith), le→ltb n total (omega arith)) refl

  Reads-framed :
      (fuel : ℕ) (bs : List ℕ) (q r : Connect)
      → 13 ≤ length bs
      → length bs < 2 ^ 28
      → Reads B (read_body R (length bs) q) bs r
      → Reads B (read_from R fuel q) (uvarint (length bs) ++ bs) r
  unfolding read_from finish
  Reads-framed fuel bs q r long short reads =
      let big : leb (length bs + length (uvarint (length bs))) 12 ≡ false = ground arith in
      record {
        at = λ rest.
            rw
              (
                append_assoc (uvarint (length bs)) bs rest,
                (Reads-read_varint B (length bs) short).at (bs ++ rest),
                big,
              )
              (rw (reads.at rest) (
                finish_exact fuel (length bs + length (uvarint (length bs)))
                  (length (uvarint (length bs)) + length bs) r (B.feed rest) (omega arith)
                ∙ rw (← (length-append (uvarint (length bs)) bs)) refl));
      }

  -- ReadFrom takes from the connection exactly the bytes that MarshalBinary wrote behind the command
  -- byte, and returns the receiver with the fields of the packet that are on the wire: for a packet of
  -- version 3.1.1 with a QoS up to 2, whose client identifier is set and whose lengths fit. The will
  -- fields of a packet without a will topic, and a password without a username, are not on the wire.
  pub Reads-connect_read_from :
      (fuel : ℕ) (q c : Connect)
      → c.version ≡ mqtt_v311
      → c.will_topic.qos ≤ 2
      → c.keep_alive < 2 ^ 16
      → 0 < length c.client_id
      → Fits c
      → Reads B (read_from R fuel q) (body c) (received q c)
  Reads-connect_read_from fuel q c v qos small named f =
      let h : BitsOf (flags c) c =
        rw (← (flags_and_len-flags c qos), flags_lem c v)
          (flags_byte-FlagBits c.will_topic.qos c.clean_session (nonempty c.username)
            (nonempty c.username && nonempty c.password) (has_will c) c.will_retain qos) in
      Reads-framed fuel (content c) q (received q c)
        (omega (
          arith,
          length-content_payload c v,
          named,
          length-append c.client_id (opt (has_will c) (will_bytes c) ++ credentials c),
        ))
        f.content_fits (Reads-body q c v small h f)
