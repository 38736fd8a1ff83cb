-- ===== src/Packets/Connect/Read.antt =====
-- ReadFrom of Connect and the parts it is made of. The receiver is passed along; an error that is
-- returned drops it, since PacketIO.Recv does.
pub mod Properties
pub mod Swallowed
use mqttie.Prelude.{ℕ, zero, suc, ◌+◌, ◌-◌, ◌*◌, ◌/◌, List, [], ◌∷◌, Bool, true, none, some}
use mqttie.Prelude.{ltb, leb, ◌==◌, ◌&&◌, ◌||◌, if◌then◌else◌, length, bit_and, get_or}
use mqttie.Mqtt.{
  Topic, mqtt_v311, mqtt_v5, packet_short, packet_long, unknown_protocol, unknown_version,
}
use mqttie.Mqtt.{illegal_flags, password_without_username}
use mqttie.Go.Outcome.{Outcome, ok, err, panic, stuck}
use mqttie.Go.Stream.{Reader, Io, pure, fail, counted, ◌>>=◌}
use mqttie.Util.Varint.{read_varint}
use mqttie.Util.Value.{read_string, read_uint16_value, read_uint8_value, checked}
use mqttie.Packets.Connect.{Connect, flag_username, flag_password, flag_will_retain, flag_will}
use mqttie.Packets.Connect.{flag_clean_session, mask_will_qos}
use mqttie.Packets.Connect.Read.Properties.{bytes_eq, read_conn_properties, read_will_properties}

-- flags&mask > 0
abbrev pub flag_set : ℕ → ℕ → Bool
flag_set flags mask = ltb 0 (bit_and flags mask)

-- The flags byte, in which a will-retain flag needs a will flag.
abbrev pub apply_flags : ℕ → Connect → Outcome Connect
apply_flags flags c =
    let c' = if flag_set flags flag_clean_session then record c { clean_session = true } else c in
    if flag_set flags flag_will_retain
    then (if bit_and flags flag_will == 0
        then err (illegal_flags flags)
        else ok (record c' { will_retain = true }))
    else ok c'

-- The properties of a connect packet of version 5. `rem_len` is compared with the size of the length
-- field alone.
unfoldable pub read_var_properties : (R : Reader) → ℕ → Connect → Io R.Stream Connect
read_var_properties R rem_len c =
    if leb mqtt_v5 c.version
    then (do
      (v, n) ← counted (read_varint R)
      if ltb rem_len n then fail packet_short else read_conn_properties R v v c)
    else pure c

-- parseVarHeader. `remLen-n` is the subtraction that stops at 0: a negative limit fails as 0 does.
unfoldable pub parse_var_header : (R : Reader) → ℕ → Connect → Io R.Stream (ℕ × Connect)
parse_var_header R rem_len c = do
  (buf, n) ← counted (checked (read_string R [] rem_len))
  if bytes_eq buf (b'M' ∷ b'Q' ∷ b'T' ∷ b'T' ∷ [])
      then (do
        (version, k) ← counted (checked (read_uint8_value R 0 (rem_len - n)))
        if version == mqtt_v311 || version == mqtt_v5
            then (do
              (flags, j) ← counted (checked (read_uint8_value R version (rem_len - (n + k))))
              c' ← (λ s. (0, apply_flags flags (record c { version = version }), s))
              keep_alive ← checked (read_uint16_value R c'.keep_alive (rem_len - (n + k + j)))
              c'' ← read_var_properties R rem_len (record c' { keep_alive = keep_alive })
              pure (flags, c''))
            else fail (unknown_version version))
      else fail (unknown_protocol buf)

-- The property section of a will.
unfoldable pub read_will_section : (R : Reader) → Connect → Io R.Stream Connect
read_will_section R c =
    if leb mqtt_v5 c.version
    then (do prop_len ← read_varint R; read_will_properties R prop_len c)
    else pure c

-- The will: its properties in version 5, then topic and message.
unfoldable pub read_will : (R : Reader) → ℕ → ℕ → ℕ → Connect → Io R.Stream Connect
read_will R rem used flags c = do
  (c', n) ← counted (read_will_section R c)
  (name, k) ← counted (checked (read_string R c'.will_topic.name (rem - (used + n))))
  message ← checked (read_string R c'.will_message (rem - (used + n + k)))
  pure (record c' {
    will_topic = record { name = name; qos = bit_and flags mask_will_qos / 8 };
    will_message = message;
  })

unfoldable pub read_optional_will : (R : Reader) → ℕ → ℕ → ℕ → Connect → Io R.Stream Connect
read_optional_will R rem used flags c =
    if flag_set flags flag_will then read_will R rem used flags c else pure c

unfoldable pub read_username : (R : Reader) → ℕ → ℕ → Connect → Io R.Stream Connect
read_username R rem flags c =
    if flag_set flags flag_username
    then (do
      username ← checked (read_string R c.username rem)
      pure (record c { username = username }))
    else pure c

unfoldable pub read_password : (R : Reader) → ℕ → ℕ → Connect → Io R.Stream Connect
read_password R rem flags c =
    if flag_set flags flag_password
    then (do
      password ← checked (read_string R c.password rem)
      if bit_and flags flag_username == 0 && leb c.version mqtt_v311
          then fail password_without_username
          else pure (record c { password = password }))
    else pure c

-- readPayload
unfoldable pub read_payload : (R : Reader) → ℕ → ℕ → Connect → Io R.Stream Connect
read_payload R rem flags c = do
  (id, n) ← counted (checked (read_string R c.client_id rem))
  (c', k) ← counted (read_optional_will R rem n flags (record c { client_id = id }))
  (c'', j) ← counted (read_username R (rem - (n + k)) flags c')
  read_password R (rem - (n + k + j)) flags c''

-- The variable header and the payload, for which `length - n` is left.
unfoldable pub read_body : (R : Reader) → ℕ → Connect → Io R.Stream Connect
read_body R rem c = do
  ((flags, c'), n) ← counted (parse_var_header R rem c)
  read_payload R (rem - n) flags c'

-- The loop `for n < length` of the deferred function: ten bytes at a time, until an error. The source
-- has no bound on its rounds; `stuck` says that `fuel` of them were not enough.
unfoldable pub drain :
    (R : Reader) → ℕ → ℕ → ℕ → Outcome Connect → R.Stream → ℕ × Outcome Connect × R.Stream
drain R zero total n r s = if ltb n total then (n, stuck, s) else (n, r, s)
drain R (suc fuel) total n r s =
    let d = R.read s 10 in
    let rest = drain R fuel total (n + length d.bytes) r d.next in
    if ltb n total
    then (elim d.error [ some e ↦ (n + length d.bytes, r, d.next) | none ↦ rest ])
    else (n, r, s)

-- The deferred function's verdict on a packet that was read without error.
abbrev pub verdict : ℕ → ℕ → Outcome Connect → Outcome Connect
verdict total n (ok c) =
    if ltb total n then err packet_long else if ltb n total then err packet_short else ok c
verdict total n r = r

unfoldable pub finish :
    (R : Reader) → ℕ → ℕ → ℕ → ℕ × Outcome Connect × R.Stream → ℕ × Outcome Connect × R.Stream
finish R fuel total start (n, r, s) = drain R fuel total (start + n) (verdict total (start + n) r) s

abbrev after_length :
    (R : Reader) → ℕ → Connect → ℕ → Outcome ℕ → R.Stream → ℕ × Outcome Connect × R.Stream
after_length R fuel c start (ok rem) s =
    if leb (rem + start) 12
    then (start, err packet_short, s)
    else finish R fuel (rem + start) start (read_body R rem c s)
after_length R fuel c start (err e) s = (0, err e, s)
after_length R fuel c start panic s = (0, panic, s)
after_length R fuel c start stuck s = (0, stuck, s)

-- ReadFrom. Its count is 0 where the length cannot be read.
unfoldable pub read_from : (R : Reader) → ℕ → Connect → Io R.Stream Connect
read_from R fuel c s = let (n, r, s') = read_varint R s in after_length R fuel c n r s'
