-- ===== src/Packets/Connect/Read/Properties.antt =====
-- readConnProperty, readConnProperties and readWillProperties of packets/connect.go.
use mqttie.Prelude.{ℕ, zero, suc, ◌+◌, ◌-◌, List, [], ◌∷◌, Option, none, some, Bool, true, false}
use mqttie.Prelude.{ltb, ◌==◌, ◌&&◌, if◌then◌else◌}
use mqttie.Mqtt.{Error, illegal_property}
use mqttie.Go.Outcome.{stuck}
use mqttie.Go.Stream.{Reader, Io, pure, fail, lift, counted, ◌>>=◌}
use mqttie.Util.Value.{
  read_bytes_value, read_string, read_uint32_value, read_uint16_value, read_uint8_value, checked,
}
use mqttie.Packets.Connect.{Connect, Properties}
use mqttie.Packets.Connect.{
  prop_session_expire, prop_receive_max, prop_max_packet_size, prop_topic_alias_max,
}
use mqttie.Packets.Connect.{
  prop_request_response_info, prop_disable_problem_info, prop_user_property,
}
use mqttie.Packets.Connect.{prop_auth_method, prop_auth_data, prop_will_delay, prop_will_utf8}
use mqttie.Packets.Connect.{prop_will_expire, prop_will_content_type, prop_will_response_topic}
use mqttie.Packets.Connect.{prop_will_correlation_data, prop_will_user_props}

-- bytes.Equal, and equality of strings
unfoldable pub bytes_eq : List ℕ → List ℕ → Bool
bytes_eq [] [] = true
bytes_eq [] (y ∷ ys) = false
bytes_eq (x ∷ xs) [] = false
bytes_eq (x ∷ xs) (y ∷ ys) = x == y && bytes_eq xs ys

-- m[key] = value
unfoldable pub put_property : List ℕ → List ℕ → Properties → Properties
put_property key value [] = (key, value) ∷ []
put_property key value ((k, v) ∷ props) =
    if bytes_eq k key then (key, value) ∷ props else (k, v) ∷ put_property key value props

-- A key and its value; an error of the value is returned after the pair is stored.
unfoldable pub read_pair : (R : Reader) → ℕ → Io R.Stream (List ℕ × List ℕ × Option Error)
read_pair R prop_len = do
  (key, n) ← counted (checked (read_string R [] prop_len))
  (value, e) ← read_string R [] (prop_len - n)
  pure (key, value, e)

-- readConnProperty
unfoldable pub read_conn_property : (R : Reader) → ℕ → ℕ → Connect → Io R.Stream Connect
read_conn_property R id len c =
    if id == prop_session_expire
    then (do
      v ← checked (read_uint32_value R c.session_expiry_interval len)
      pure (record c { session_expiry_interval = v }))
    else if id == prop_receive_max
    then (do
      v ← checked (read_uint16_value R c.receive_max len)
      pure (record c { receive_max = v }))
    else if id == prop_max_packet_size
    then (do
      v ← checked (read_uint32_value R c.max_packet_size len)
      pure (record c { max_packet_size = v }))
    else if id == prop_topic_alias_max
    then (do
      v ← checked (read_uint16_value R c.topic_alias_max len)
      pure (record c { topic_alias_max = v }))
    else if id == prop_request_response_info
    then (do
      v ← checked (read_uint8_value R 0 len)
      pure (if v == 1 then record c { request_response_info = true } else c))
    else if id == prop_disable_problem_info
    then (do
      v ← checked (read_uint8_value R 0 len)
      pure (if v == 0 then record c { disable_problem_info = true } else c))
    else if id == prop_user_property
    then (do
      (key, value) ← checked (read_pair R len >>= λ r. pure ((r.0, r.1), r.2))
      pure (record c { conn_user_properties = put_property key value c.conn_user_properties }))
    else if id == prop_auth_method
    then (do v ← checked (read_string R c.auth_method len); pure (record c { auth_method = v }))
    else if id == prop_auth_data
    then (do
      v ← checked (read_bytes_value R some c.auth_data len)
      pure (record c { auth_data = v }))
    else fail (illegal_property id)

-- readConnProperties: the loop `for n < propLen`, where `left` is `propLen - n`. A property that is
-- read takes a byte at least, so `propLen` rounds are enough.
unfoldable pub read_conn_properties : (R : Reader) → ℕ → ℕ → Connect → Io R.Stream Connect
read_conn_properties R zero left c = if ltb 0 left then lift stuck else pure c
read_conn_properties R (suc fuel) left c =
    if ltb 0 left
    then (do
      (id, n) ← counted (checked (read_uint8_value R 0 left))
      (c', k) ← counted (read_conn_property R id (left - n) c)
      read_conn_properties R fuel (left - (n + k)) c')
    else pure c

-- One property of a will: the receiver afterwards, and the error that the inner `err` holds. An error
-- of a user property's key is returned, and so dropped with the receiver.
unfoldable pub read_will_property :
    (R : Reader) → ℕ → ℕ → ℕ → Connect → Io R.Stream (Connect × Option Error)
read_will_property R id prop_len left c =
    if id == prop_will_content_type
    then (do
      (v, e) ← read_string R c.will_content_type left
      pure (record c { will_content_type = v }, e))
    else if id == prop_will_correlation_data
    then (do
      (v, e) ← read_bytes_value R some c.will_correlation_data prop_len
      pure (record c { will_correlation_data = v }, e))
    else if id == prop_will_delay
    then (do
      (v, e) ← read_uint32_value R c.will_delay_interval left
      pure (record c { will_delay_interval = v }, e))
    else if id == prop_will_expire
    then (do
      (v, e) ← read_uint32_value R c.will_message_expiry left
      pure (record c { will_message_expiry = v }, e))
    else if id == prop_will_response_topic
    then (do
      (v, e) ← read_string R c.will_response_topic left
      pure (record c { will_response_topic = v }, e))
    else if id == prop_will_utf8
    then (do
      (v, e) ← read_uint8_value R 0 left
      pure (if v == 1 then record c { will_format_utf8 = true } else c, e))
    else if id == prop_will_user_props
    then (do
      (key, value, e) ← read_pair R left
      pure (record c { will_user_properties = put_property key value c.will_user_properties }, e))
    else pure (c, some (illegal_property id))

-- The loop of readWillProperties, with the count `n`. The `err` of its body hides the function's
-- result: where a property fails the loop is left by `break`, and the function returns no error.
unfoldable pub will_loop : (R : Reader) → ℕ → ℕ → ℕ → Connect → Io R.Stream Connect
will_loop R zero prop_len n c = if ltb n prop_len then lift stuck else pure c
will_loop R (suc fuel) prop_len n c =
    if ltb n prop_len
    then (do
      (id, k) ← counted (checked (read_uint8_value R 0 (prop_len - n)))
      ((c', e), j) ← counted (read_will_property R id prop_len (prop_len - (n + k)) c)
      elim e [ some x ↦ pure c' | none ↦ will_loop R fuel prop_len (n + k + j) c' ])
    else pure c

-- readWillProperties. A property that is read takes a byte at least, so `propLen` rounds are enough.
unfoldable pub read_will_properties : (R : Reader) → ℕ → Connect → Io R.Stream Connect
read_will_properties R prop_len c = will_loop R prop_len prop_len 0 c
