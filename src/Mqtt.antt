-- ===== src/Mqtt.antt =====
-- mqtt/mqtt.go: the QoS and version constants, topics, and the error values of the whole module.
use mqttie.Prelude.{ℕ, List}

-- type QoS uint8
abbrev pub qos_0 : ℕ
qos_0 = 0

abbrev pub qos_1 : ℕ
qos_1 = 1

abbrev pub qos_2 : ℕ
qos_2 = 2

-- type Version uint8
abbrev pub mqtt_v311 : ℕ
mqtt_v311 = 0x04

abbrev pub mqtt_v5 : ℕ
mqtt_v5 = 0x05

-- The error values that the modelled code returns. `transport` stands for an error of the
-- connection or the writer, of which the code only passes on what it was given; `runtime` is the
-- recovered index panic of EncodeUvarint and EncodeUTF8.
pub data Error : Type 0 where
  connect_bad_version connect_id_not_allowed connect_unavailable : Error
  connect_credentials connect_unauthorized : Error
  packet_short packet_long illegal_qos : Error
  varint_too_long utf8_too_long runtime : Error
  eof unexpected_eof : Error
  transport : ℕ → Error
  invalid_command : ℕ → Error
  unknown_protocol : List ℕ → Error
  unknown_version illegal_flags illegal_property connack_flags : ℕ → Error
  password_without_username unexpected_payload : Error
  qos_too_high packet_too_large : Error
  illegal_response internal_conflict : Error

-- type Topic struct
pub record Topic : Type 0 where
  pub name : List ℕ
  pub qos : ℕ

-- type Subscription struct; the channel of the messages is known by a number.
pub record Subscription : Type 0 where
  pub topic : Topic
  pub messages : ℕ
