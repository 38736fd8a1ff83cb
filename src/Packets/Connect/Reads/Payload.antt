-- ===== src/Packets/Connect/Reads/Payload.antt =====
-- The payload of a connect packet of version 3.1.1, as ReadFrom reads it.
use mqttie.Prelude.{
  ◌/◌, ℕ, ◌+◌, ◌-◌, ◌≤◌, ◌≡◌, refl, ◌∙◌, List, ◌++◌, true, false, ◌&&◌, if◌then◌else◌, bit_and,
  length, length-append, append-nil, arith, Bool-cases, inl, inr,
}
use mqttie.Mqtt.{mqtt_v311}
use mqttie.Go.Stream.{Reader, counted, ◌>>=◌}
use mqttie.Go.Stream.Reads.{Buffered, Reads, Reads-pure, Reads->>=, Reads-eq, Reads-counted}
use mqttie.Util.Utf8.RoundTrip.{utf8}
use mqttie.Packets.Connect.{Connect, flag_username, mask_will_qos}
use mqttie.Packets.Connect.Length.{nonempty}
use mqttie.Packets.Connect.Marshal.{is_v5, has_will}
use mqttie.Packets.Connect.Bytes.{opt, will_bytes, credentials, Fits}
use mqttie.Packets.Connect.Read.{
  read_will_section, read_will, read_optional_will, read_username, read_password, read_payload,
}
use mqttie.Packets.Connect.Reads.{BitsOf, flag_zero, Reads-string}

module _ {R : Reader} (B : Buffered R) where
  Reads-will :
      (rem used byte : ℕ) (q c : Connect)
      → q.version ≡ mqtt_v311
      → BitsOf byte c
      → has_will c ≡ true
      → Fits c
      → used + (length c.will_topic.name + length c.will_message + 4) ≤ rem
      → Reads B
          (read_will R rem used byte q)
          (utf8 c.will_topic.name ++ utf8 c.will_message)
          (record q { will_topic = c.will_topic; will_message = c.will_message })
  unfolding read_will read_will_section
  Reads-will rem used byte q c v h will f room =
      let bits : bit_and byte mask_will_qos / 8 ≡ c.will_topic.qos = rw will at h.qos_bits in
      let old : is_v5 q ≡ false = rw v refl in
      rw old (
        Reads->>= B _ (Reads-counted B (Reads-pure B q)) (
          Reads->>= B _
            (Reads-counted B
              (Reads-string B c.will_topic.name _ (rem - (used + 0)) f.name_fits (omega arith)))
            (Reads-eq B (append-nil (utf8 c.will_message)) refl (
              Reads->>= B _
                (Reads-string B c.will_message _
                  (rem - (used + 0 + length (utf8 c.will_topic.name))) f.message_fits (omega arith))
                (rw bits (Reads-pure B _))))))

  Reads-username :
      (rem byte : ℕ) (q c : Connect)
      → nonempty c.username ≡ true
      → BitsOf byte c
      → Fits c
      → length c.username + 2 ≤ rem
      → Reads B (read_username R rem byte q) (utf8 c.username) (record q { username = c.username })
  unfolding read_username
  Reads-username rem byte q c user h f room =
      rw (h.user_bit, user)
        (Reads-eq B (append-nil (utf8 c.username)) refl
          (Reads->>= B _ (Reads-string B c.username _ rem f.username_fits room) (Reads-pure B _)))

  Reads-password :
      (rem byte : ℕ) (q c : Connect)
      → nonempty c.username ≡ true
      → BitsOf byte c
      → Fits c
      → length (opt (nonempty c.password) (utf8 c.password)) ≤ rem
      → Reads B
          (read_password R rem byte q)
          (opt (nonempty c.password) (utf8 c.password))
          (record q { password = if nonempty c.password then c.password else q.password })
  unfolding read_password
  Reads-password rem byte q c user h f room = elim (Bool-cases (nonempty c.password)) [
    | inl pass ↦
        let fits : length (utf8 c.password) ≤ rem = rw pass at room in
        rw (h.secret_bit, user, pass)
          (Reads-eq B (append-nil (utf8 c.password)) refl (
            Reads->>= B _ (Reads-string B c.password _ rem f.password_fits (omega arith))
              (rw (flag_zero byte flag_username (h.user_bit ∙ user)) (Reads-pure B _))))
    | inr bare ↦ rw (h.secret_bit, user, bare) (Reads-pure B _)
  ]

  Reads-credentials :
      (rem used byte : ℕ) (q c : Connect)
      → c.version ≡ mqtt_v311
      → BitsOf byte c
      → Fits c
      → used + length (credentials c) ≤ rem
      → Reads B
          ((do
            (c', n) ← counted (read_username R (rem - used) byte q)
            read_password R (rem - (used + n)) byte c'))
          (credentials c)
          (record q {
            username = if nonempty c.username then c.username else q.username;
            password =
                if nonempty c.username && nonempty c.password then c.password else q.password;
          })
  unfolding read_username read_password
  Reads-credentials rem used byte q c v h f room = elim (Bool-cases (nonempty c.username)) [
    | inl user ↦
        let fits : used + length (utf8 c.username ++ opt (nonempty c.password) (utf8 c.password))
            ≤ rem =
          rw user at room in
        rw user (
          Reads->>= B _
            (Reads-counted B (
              Reads-username (rem - used) byte q c user h f (
                omega
                  (arith, length-append c.username (opt (nonempty c.password) (utf8 c.password))))))
            (Reads-password (rem - (used + length (utf8 c.username))) byte _ c user h f (
              omega
                (arith, length-append c.username (opt (nonempty c.password) (utf8 c.password))))))
    | inr nobody ↦
        rw (h.user_bit, h.secret_bit, nobody, v)
          (Reads->>= B _ (Reads-counted B (Reads-pure B q)) (Reads-pure B _))
  ]

  Reads-optional_will :
      (rem used byte : ℕ) (q c : Connect)
      → q.version ≡ mqtt_v311
      → c.version ≡ mqtt_v311
      → BitsOf byte c
      → Fits c
      → used + length (opt (has_will c) (will_bytes c)) ≤ rem
      → Reads B (read_optional_will R rem used byte q) (opt (has_will c) (will_bytes c)) (record q {
        will_topic = if has_will c then c.will_topic else q.will_topic;
        will_message = if has_will c then c.will_message else q.will_message;
      })
  unfolding read_optional_will
  Reads-optional_will rem used byte q c v w h f room = elim (Bool-cases (has_will c)) [
    | inl will ↦
        let old : is_v5 c ≡ false = rw w refl in
        let fits : used + length (utf8 c.will_topic.name ++ utf8 c.will_message) ≤ rem =
          rw (will, old) at room in
        rw (h.will_bit, will, old)
          (Reads-will rem used byte q c v h will f
            (omega (arith, length-append c.will_topic.name (utf8 c.will_message))))
    | inr without ↦ rw (h.will_bit, without) (Reads-pure B q)
  ]

-- What follows the variable header, in version 3.1.1.
abbrev pub payload : Connect → List ℕ
payload c = utf8 c.client_id ++ (opt (has_will c) (will_bytes c) ++ credentials c)

module _ {R : Reader} (B : Buffered R) where
  pub Reads-payload :
      (rem byte : ℕ) (q c : Connect)
      → q.version ≡ mqtt_v311
      → c.version ≡ mqtt_v311
      → BitsOf byte c
      → Fits c
      → length (payload c) ≤ rem
      → Reads B (read_payload R rem byte q) (payload c) (record q {
        client_id = c.client_id;
        will_topic = if has_will c then c.will_topic else q.will_topic;
        will_message = if has_will c then c.will_message else q.will_message;
        username = if nonempty c.username then c.username else q.username;
        password = if nonempty c.username && nonempty c.password then c.password else q.password;
      })
  unfolding read_payload
  Reads-payload rem byte q c v w h f room =
      let l = length-append c.client_id (opt (has_will c) (will_bytes c) ++ credentials c) in
      let m = length-append (opt (has_will c) (will_bytes c)) (credentials c) in
      Reads->>= B _
        (Reads-counted B (Reads-string B c.client_id _ rem f.id_fits (omega (arith, l, room))))
        (Reads->>= B _
          (Reads-counted B (
            Reads-optional_will B rem (length (utf8 c.client_id)) byte _ c v w h f
              (omega (arith, l, m, room))))
          (Reads-credentials B rem
            (length (utf8 c.client_id) + length (opt (has_will c) (will_bytes c))) byte _ c w h f
            (omega (arith, l, m, room))))
