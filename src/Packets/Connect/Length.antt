-- ===== src/Packets/Connect/Length.antt =====
-- The lengths that MarshalBinary of Connect computes before it writes. A length is cut to 16 bits, and
-- what is added to it inside `uint64(uint16(…) + 3)` wraps there.
use mqttie.Prelude.{ℕ, ◌+◌, ◌*◌, ◌%◌, ◌^◌, List, [], ◌∷◌, Option, none, some, Bool, true, false}
use mqttie.Prelude.{ltb, leb, if◌then◌else◌, length, bit_or}
use mqttie.Mqtt.{mqtt_v5}
use mqttie.Packets.Connect.{
  Connect, Properties, flag_username, flag_password, flag_will_retain, flag_will,
  flag_clean_session,
}

-- uint16(n)
abbrev pub u16 : ℕ → ℕ
u16 n = n % 2 ^ 16

-- s != ""
abbrev pub nonempty : List ℕ → Bool
nonempty [] = false
nonempty (x ∷ xs) = true

-- uint64(uint16(len(s)) + 3)
abbrev pub value_len : List ℕ → ℕ
value_len s = u16 (u16 (length s) + 3)

-- The loop over the pairs of a map.
unfoldable pub user_props_len : Properties → ℕ
user_props_len [] = 0
user_props_len ((key, value) ∷ props) =
    u16 (u16 (length key) + 5) + u16 (length value) + user_props_len props

abbrev pub data_len : Option (List ℕ) → ℕ
data_len none = 0
data_len (some d) = value_len d

-- computeConnectPropLen
unfoldable pub connect_prop_len : Connect → ℕ
connect_prop_len c =
    (if ltb 0 c.session_expiry_interval then 5 else 0)
    + (if ltb 0 c.receive_max then 3 else 0)
    + (if ltb 0 c.max_packet_size then 5 else 0)
    + (if ltb 0 c.topic_alias_max then 3 else 0)
    + (if c.request_response_info then 2 else 0)
    + (if c.disable_problem_info then 2 else 0)
    + user_props_len c.conn_user_properties
    + (if nonempty c.auth_method then value_len c.auth_method else 0)
    + data_len c.auth_data

-- computeWillPropLen
unfoldable pub will_prop_len : Connect → ℕ
will_prop_len c =
    if nonempty c.will_topic.name
    then (if ltb 0 c.will_delay_interval then 5 else 0)
      + (if c.will_format_utf8 then 2 else 0)
      + (if ltb 0 c.will_message_expiry then 5 else 0)
      + (if nonempty c.will_content_type then value_len c.will_content_type else 0)
      + (if nonempty c.will_response_topic
          then value_len c.will_response_topic + data_len c.will_correlation_data
          else 0)
      + user_props_len c.will_user_properties
    else 0

-- `length += uint64(uint16(len(c.Password))) + 2; flags |= connectFlagPassword` if there is one
abbrev pub add_password : Connect → ℕ × ℕ → ℕ × ℕ
add_password c (flags, len) =
    if nonempty c.password
    then (bit_or flags flag_password, len + u16 (length c.password) + 2)
    else (flags, len)

abbrev pub add_credentials : Connect → ℕ × ℕ → ℕ × ℕ
add_credentials c (flags, len) =
    if nonempty c.username
    then add_password c (bit_or flags flag_username, len + u16 (length c.username) + 2)
    else if leb mqtt_v5 c.version
    then add_password c (flags, len)
    else (flags, len)

-- The QoS, a uint8, is shifted by 3 in eight bits.
abbrev pub add_will : Connect → ℕ × ℕ → ℕ × ℕ
add_will c (flags, len) =
    if nonempty c.will_topic.name
    then (let flags' = bit_or flags (bit_or (c.will_topic.qos * 8 % 2 ^ 8) flag_will) in
        (
          if c.will_retain then bit_or flags' flag_will_retain else flags',
          len + u16 (length c.will_topic.name) + (u16 (length c.will_message) + 4),
        ))
    else (flags, len)

-- computeFlagsAndLen, after the client identifier is set
unfoldable pub flags_and_len : Connect → ℕ × ℕ
flags_and_len c =
    let (flags, len) =
      add_will c
        (add_credentials c (if c.clean_session then bit_or 0 flag_clean_session else 0, 10)) in
    (flags, len + (u16 (length c.client_id) + 2))

-- An empty client identifier is replaced by a new UUID, for good.
unfoldable pub with_client_id : List ℕ → Connect → Connect
with_client_id uuid c = if nonempty c.client_id then c else record c { client_id = uuid }
