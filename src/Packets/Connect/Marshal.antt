-- ===== src/Packets/Connect/Marshal.antt =====
-- MarshalBinary of Connect and the writers of its properties.
use mqttie.Prelude.{ℕ, ◌+◌, List, [], ◌∷◌, Option, none, some, Bool}
use mqttie.Prelude.{ltb, leb, ◌==◌, if◌then◌else◌, ◌&&◌}
use mqttie.Mqtt.{mqtt_v5, qos_too_high, packet_too_large}
use mqttie.Go.Outcome
use mqttie.Go.Outcome.{Outcome, ok, err, stuck}
use mqttie.Go.Slice.{copy, put_uint16, put_uvarint}
use mqttie.Go.Encoder.{Enc, marshal, store, emit, skip, ◌>>◌}
use mqttie.Go.Stream.{Writer, Io}
use mqttie.Util.Varint.{get_uvarint_len}
use mqttie.Util.Value.{encode_bytes, encode_uint32, encode_uint16}
use mqttie.Packets.Frame.{cmd_connect, write_marshalled}
use mqttie.Packets.Connect.{Connect, Properties}
use mqttie.Packets.Connect.{
  prop_session_expire, prop_receive_max, prop_max_packet_size, prop_topic_alias_max,
}
use mqttie.Packets.Connect.{
  prop_request_response_info, prop_disable_problem_info, prop_user_property,
}
use mqttie.Packets.Connect.{prop_auth_method, prop_auth_data, prop_will_delay, prop_will_utf8}
use mqttie.Packets.Connect.{prop_will_expire, prop_will_content_type, prop_will_response_topic}
use mqttie.Packets.Connect.{prop_will_correlation_data, prop_will_user_props}
use mqttie.Packets.Connect.Length.{
  nonempty, connect_prop_len, will_prop_len, flags_and_len, with_client_id,
}

abbrev pub when : Bool → Enc → Enc
when b m = if b then m else skip

-- One property: its identifier, then EncodeValue of a string or of bytes.
abbrev pub fill_value : ℕ → List ℕ → Enc
fill_value id v = store id >> emit (encode_bytes v)

abbrev pub fill_data : ℕ → Option (List ℕ) → Enc
fill_data id none = skip
fill_data id (some d) = fill_value id d

unfoldable pub fill_user_props : ℕ → Properties → Enc
fill_user_props id [] = skip
fill_user_props id ((key, value) ∷ props) =
    store id >> emit (encode_bytes key) >> emit (encode_bytes value) >> fill_user_props id props

-- marshalConnProperties
unfoldable pub marshal_conn_properties : Connect → Enc
marshal_conn_properties c =
    when (ltb 0 c.session_expiry_interval)
      (store prop_session_expire >> emit (encode_uint32 c.session_expiry_interval))
    >> when (ltb 0 c.receive_max) (store prop_receive_max >> emit (encode_uint16 c.receive_max))
    >> when (ltb 0 c.max_packet_size)
        (store prop_max_packet_size >> emit (encode_uint32 c.max_packet_size))
    >> when (ltb 0 c.topic_alias_max)
        (store prop_topic_alias_max >> emit (encode_uint16 c.topic_alias_max))
    >> when c.request_response_info (emit (copy (prop_request_response_info ∷ 0x01 ∷ [])))
    >> when c.disable_problem_info (emit (copy (prop_disable_problem_info ∷ 0x00 ∷ [])))
    >> fill_user_props prop_user_property c.conn_user_properties
    >> when (nonempty c.auth_method) (fill_value prop_auth_method c.auth_method)
    >> fill_data prop_auth_data c.auth_data

-- marshalWillProperties
unfoldable pub marshal_will_properties : Connect → Enc
marshal_will_properties c =
    when (ltb 0 c.will_delay_interval)
      (store prop_will_delay >> emit (encode_uint32 c.will_delay_interval))
    >> when c.will_format_utf8 (emit (copy (prop_will_utf8 ∷ 0x01 ∷ [])))
    >> when (ltb 0 c.will_message_expiry)
        (store prop_will_expire >> emit (encode_uint32 c.will_message_expiry))
    >> when (nonempty c.will_content_type) (fill_value prop_will_content_type c.will_content_type)
    >> when (nonempty c.will_response_topic) (
        fill_value prop_will_response_topic c.will_response_topic
        >> fill_data prop_will_correlation_data c.will_correlation_data)
    >> fill_user_props prop_will_user_props c.will_user_properties

abbrev pub uvarint_len : ℕ → Outcome ℕ
uvarint_len n = elim (get_uvarint_len n) [ none ↦ stuck | some k ↦ ok k ]

-- The lengths of the two property sections, and the remaining length with them.
abbrev pub section_len : Bool → ℕ → Outcome ℕ
section_len present len =
    if present then Outcome.◌>>=◌ (uvarint_len len) (λ (k : ℕ). ok (len + k)) else ok 0

abbrev pub is_v5 : Connect → Bool
is_v5 c = leb mqtt_v5 c.version

abbrev pub has_will : Connect → Bool
has_will c = nonempty c.will_topic.name

-- The last branch tests for version 5 alone, where the length is computed for every later version too.
abbrev pub fill_credentials : Connect → Enc
fill_credentials c =
    if nonempty c.username
    then emit (encode_bytes c.username)
      >> when (nonempty c.password) (emit (encode_bytes c.password))
    else when (c.version == mqtt_v5) (when (nonempty c.password) (emit (encode_bytes c.password)))

-- What MarshalBinary writes, in order; `uint8(c.Version)` is the version itself.
unfoldable pub fill : Connect → ℕ → Enc
fill c rem_len =
    store cmd_connect
    >> emit (put_uvarint rem_len)
    >> emit (copy (0 ∷ 4 ∷ b'M' ∷ b'Q' ∷ b'T' ∷ b'T' ∷ c.version ∷ (flags_and_len c).0 ∷ []))
    >> emit (put_uint16 c.keep_alive)
    >> when (is_v5 c) (emit (put_uvarint (connect_prop_len c)) >> marshal_conn_properties c)
    >> emit (encode_bytes c.client_id)
    >> when (has_will c) (
        when (is_v5 c) (emit (put_uvarint (will_prop_len c)) >> marshal_will_properties c)
        >> emit (encode_bytes c.will_topic.name)
        >> emit (encode_bytes c.will_message))
    >> fill_credentials c

-- The remaining length
unfoldable pub rem_length : Connect → Outcome ℕ
rem_length c = Outcome.◌>>=◌ (section_len (is_v5 c) (connect_prop_len c)) λ (conn : ℕ).
    Outcome.◌>>=◌ (section_len (is_v5 c && has_will c) (will_prop_len c))
      λ (will : ℕ). ok ((flags_and_len c).1 + conn + will)

-- The packet of a receiver whose client identifier is set.
unfoldable pub marshal_filled : Connect → Outcome (List ℕ)
marshal_filled c = Outcome.◌>>=◌ (rem_length c) λ (rem_len : ℕ).
    Outcome.◌>>=◌ (uvarint_len rem_len) λ (size : ℕ).
      if ltb 4 size then err packet_too_large else marshal (rem_len + size + 1) (fill c rem_len)

-- MarshalBinary. `uuid` is the text of the UUID that uuid.NewV4 returns.
unfoldable pub marshal_binary : List ℕ → Connect → Outcome (List ℕ)
marshal_binary uuid c =
    if ltb 2 c.will_topic.qos then err qos_too_high else marshal_filled (with_client_id uuid c)

unfoldable pub write_to : (W : Writer) → List ℕ → Connect → Io W.Sink (Unit {0})
write_to W uuid c = write_marshalled W (marshal_binary uuid c)
