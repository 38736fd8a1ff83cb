-- ===== src/Packets/Connect.antt =====
-- Connect of packets/connect.go: the struct, its flags and property identifiers.
pub mod Length
pub mod Marshal
pub mod Bytes
pub mod Sizes
pub mod Fills
pub mod Exact
pub mod Flags
pub mod Reads
pub mod RoundTrip
pub mod Read
use mqttie.Prelude.{ℕ, List, Option, Bool}
use mqttie.Mqtt.{Topic}

abbrev pub flag_username : ℕ
flag_username = 0x80

abbrev pub flag_password : ℕ
flag_password = 0x40

abbrev pub flag_will_retain : ℕ
flag_will_retain = 0x20

abbrev pub flag_will : ℕ
flag_will = 0x04

abbrev pub flag_clean_session : ℕ
flag_clean_session = 0x02

abbrev pub mask_will_qos : ℕ
mask_will_qos = 0x18

abbrev pub prop_session_expire : ℕ
prop_session_expire = 0x11

abbrev pub prop_receive_max : ℕ
prop_receive_max = 0x21

abbrev pub prop_max_packet_size : ℕ
prop_max_packet_size = 0x27

abbrev pub prop_topic_alias_max : ℕ
prop_topic_alias_max = 0x22

abbrev pub prop_request_response_info : ℕ
prop_request_response_info = 0x19

abbrev pub prop_disable_problem_info : ℕ
prop_disable_problem_info = 0x17

abbrev pub prop_user_property : ℕ
prop_user_property = 0x26

abbrev pub prop_auth_method : ℕ
prop_auth_method = 0x15

abbrev pub prop_auth_data : ℕ
prop_auth_data = 0x16

abbrev pub prop_will_delay : ℕ
prop_will_delay = 0x18

abbrev pub prop_will_utf8 : ℕ
prop_will_utf8 = 0x01

abbrev pub prop_will_expire : ℕ
prop_will_expire = 0x02

abbrev pub prop_will_content_type : ℕ
prop_will_content_type = 0x03

abbrev pub prop_will_response_topic : ℕ
prop_will_response_topic = 0x08

abbrev pub prop_will_correlation_data : ℕ
prop_will_correlation_data = 0x09

abbrev pub prop_will_user_props : ℕ
prop_will_user_props = 0x26

-- A map[string]string: its pairs, in the order in which `range` visits them.
abbrev pub Properties : Type 0
Properties = List (List ℕ × List ℕ)

-- A []byte that the code compares with nil is an option.
pub record Connect : Type 0 where
  pub version : ℕ
  pub clean_session : Bool
  pub keep_alive : ℕ
  pub will_topic : Topic
  pub will_message : List ℕ
  pub will_retain : Bool
  pub client_id : List ℕ
  pub username : List ℕ
  pub password : List ℕ
  pub session_expiry_interval : ℕ
  pub max_packet_size : ℕ
  pub receive_max : ℕ
  pub topic_alias_max : ℕ
  pub request_response_info : Bool
  pub disable_problem_info : Bool
  pub conn_user_properties : Properties
  pub auth_method : List ℕ
  pub auth_data : Option (List ℕ)
  pub will_delay_interval : ℕ
  pub will_message_expiry : ℕ
  pub will_format_utf8 : Bool
  pub will_content_type : List ℕ
  pub will_response_topic : List ℕ
  pub will_correlation_data : Option (List ℕ)
  pub will_user_properties : Properties
