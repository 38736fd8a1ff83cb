-- ===== src/Packets/Connect/Bytes.antt =====
-- The bytes of a connect packet, as MQTT lays them out, and what fits into them.
use mqttie.Prelude.{
  ℕ, ◌-◌, ◌<◌, ◌≤◌, ◌^◌, List, [], ◌∷◌, ◌++◌, Option, none, some, Bool, ltb, if◌then◌else◌, ◌&&◌,
  ◌||◌, ◌+◌, ◌*◌, length, All,
}
use mqttie.Go.Slice.{be16, be32, uvarint}
use mqttie.Util.Utf8.RoundTrip.{utf8}
use mqttie.Packets.Connect.{Connect, Properties}
use mqttie.Packets.Connect.{
  prop_session_expire, prop_receive_max, prop_max_packet_size, prop_topic_alias_max,
}
use mqttie.Packets.Connect.{
  prop_request_response_info, prop_disable_problem_info, prop_user_property,
}
use mqttie.Packets.Connect.{prop_auth_method, prop_auth_data, prop_will_delay, prop_will_utf8}
use mqttie.Packets.Connect.{prop_will_expire, prop_will_content_type, prop_will_response_topic}
use mqttie.Packets.Connect.{prop_will_correlation_data, prop_will_user_props}
use mqttie.Packets.Connect.Length.{nonempty}
use mqttie.Packets.Connect.Marshal.{is_v5, has_will}

-- A part that is there only under a condition.
abbrev pub opt : Bool → List ℕ → List ℕ
opt b bs = if b then bs else []

abbrev pub data_bytes : ℕ → Option (List ℕ) → List ℕ
data_bytes id none = []
data_bytes id (some d) = id ∷ utf8 d

abbrev pub user_bytes : ℕ → Properties → List ℕ
user_bytes id [] = []
user_bytes id ((key, value) ∷ props) =
    (id ∷ []) ++ (utf8 key ++ (utf8 value ++ user_bytes id props))

abbrev pub conn_section : Connect → List ℕ
conn_section c =
    opt (ltb 0 c.session_expiry_interval) (prop_session_expire ∷ be32 c.session_expiry_interval)
    ++ (opt (ltb 0 c.receive_max) (prop_receive_max ∷ be16 c.receive_max)
        ++ (opt (ltb 0 c.max_packet_size) (prop_max_packet_size ∷ be32 c.max_packet_size)
            ++ (opt (ltb 0 c.topic_alias_max) (prop_topic_alias_max ∷ be16 c.topic_alias_max)
                ++ (opt c.request_response_info (prop_request_response_info ∷ 1 ∷ [])
                    ++ (opt c.disable_problem_info (prop_disable_problem_info ∷ 0 ∷ [])
                        ++ (user_bytes prop_user_property c.conn_user_properties
                            ++ (opt (nonempty c.auth_method) (prop_auth_method ∷ utf8 c.auth_method)
                                ++ data_bytes prop_auth_data c.auth_data)))))))

abbrev pub will_section : Connect → List ℕ
will_section c =
    opt (ltb 0 c.will_delay_interval) (prop_will_delay ∷ be32 c.will_delay_interval)
    ++ (opt c.will_format_utf8 (prop_will_utf8 ∷ 1 ∷ [])
        ++ (opt (ltb 0 c.will_message_expiry) (prop_will_expire ∷ be32 c.will_message_expiry)
            ++ (opt (nonempty c.will_content_type)
                  (prop_will_content_type ∷ utf8 c.will_content_type)
                ++ (opt (nonempty c.will_response_topic) (
                      (prop_will_response_topic ∷ utf8 c.will_response_topic)
                      ++ data_bytes prop_will_correlation_data c.will_correlation_data)
                    ++ user_bytes prop_will_user_props c.will_user_properties))))

-- A property section, behind its length.
abbrev pub prefixed : List ℕ → List ℕ
prefixed bs = uvarint (length bs) ++ bs

abbrev pub will_bytes : Connect → List ℕ
will_bytes c =
    opt (is_v5 c) (prefixed (will_section c)) ++ (utf8 c.will_topic.name ++ utf8 c.will_message)

-- A password without a username is there in version 5 only.
abbrev pub credentials : Connect → List ℕ
credentials c =
    if nonempty c.username
    then utf8 c.username ++ opt (nonempty c.password) (utf8 c.password)
    else opt (is_v5 c && nonempty c.password) (utf8 c.password)

-- A password is announced with a username, and in version 5 without one.
abbrev pub secret : Connect → Bool
secret c = nonempty c.password && (nonempty c.username || is_v5 c)

abbrev pub bit : Bool → ℕ → ℕ
bit b n = if b then n else 0

-- The flags byte: bit 1 for a clean session, bit 2 for a will, its QoS in the bits 3 and 4, bit 5 for its
-- retention, bit 6 for a password and bit 7 for a username.
abbrev pub flags : Connect → ℕ
flags c =
    bit c.clean_session 2
    + (if has_will c then 4 + c.will_topic.qos * 8 + bit c.will_retain 32 else 0)
    + bit (secret c) 64
    + bit (nonempty c.username) 128

-- What follows the remaining length.
abbrev pub content : Connect → List ℕ
content c =
    (0 ∷ 4 ∷ b'M' ∷ b'Q' ∷ b'T' ∷ b'T' ∷ c.version ∷ flags c ∷ [])
    ++ (be16 c.keep_alive
        ++ (opt (is_v5 c) (prefixed (conn_section c))
            ++ (utf8 c.client_id ++ (opt (has_will c) (will_bytes c) ++ credentials c))))

abbrev pub body : Connect → List ℕ
body c = prefixed (content c)

-- A property is counted with the three or five bytes before it in sixteen bits.
abbrev pub Short : List ℕ → Type 0
Short s = length s < 2 ^ 16 - 5

abbrev pub ShortData : Option (List ℕ) → Type 0
ShortData none = Unit {0}
ShortData (some d) = Short d

abbrev pub ShortPair : List ℕ × List ℕ → Type 0
ShortPair (key, value) = Short key × Short value

-- A packet whose strings have room for their lengths, whose version is 5 at most, and whose remaining
-- length fits four bytes.
pub record Fits (c : Connect) : Type 0 where
  pub known : c.version ≤ 5
  pub id_fits : length c.client_id < 2 ^ 16
  pub name_fits : length c.will_topic.name < 2 ^ 16
  pub message_fits : length c.will_message < 2 ^ 16
  pub username_fits : length c.username < 2 ^ 16
  pub password_fits : length c.password < 2 ^ 16
  pub method_fits : Short c.auth_method
  pub data_fits : ShortData c.auth_data
  pub users_fit : All ShortPair c.conn_user_properties
  pub type_fits : Short c.will_content_type
  pub response_fits : Short c.will_response_topic
  pub correlation_fits : ShortData c.will_correlation_data
  pub will_users_fit : All ShortPair c.will_user_properties
  pub content_fits : length (content c) < 2 ^ 28
