-- ===== src/Client/Options.antt =====
-- client/options.go: a field that is a pointer is an Option, `none` where it is not set.
pub mod KeepAlive
pub mod Will
use mqttie.Prelude.{ℕ, List, [], ◌^◌, ◌-◌, Option, none, some, Bool, if◌then◌else◌, ltb}
use mqttie.Prelude.Int.{ℤ, pos, negsuc, to_uint16}
use mqttie.Mqtt.{Topic}

pub record ClientOptions : Type 0 where
  pub version : Option ℕ
  pub client_id : Option (List ℕ)
  pub timeout : Option ℤ

abbrev pub new_client_options : ClientOptions
new_client_options = record { version = none; client_id = none; timeout = none }

abbrev pub set_version : ℕ → ClientOptions → ClientOptions
set_version version opts = record opts { version = some version }

abbrev pub set_client_id : List ℕ → ClientOptions → ClientOptions
set_client_id id opts = record opts { client_id = some id }

abbrev pub set_timeout : ℤ → ClientOptions → ClientOptions
set_timeout timeout opts = record opts { timeout = some timeout }

pub record ConnectOptions : Type 0 where
  pub clean_session : Option Bool
  pub keep_alive : Option ℕ
  pub username : Option (List ℕ)
  pub password : Option (List ℕ)
  pub will_topic : Option Topic
  pub will_message : List ℕ
  pub will_retain : Option Bool

abbrev pub new_connect_options : ConnectOptions
new_connect_options = record {
  clean_session = none;
  keep_alive = none;
  username = none;
  password = none;
  will_topic = none;
  will_message = [];
  will_retain = none;
}

abbrev pub set_clean_session : Bool → ConnectOptions → ConnectOptions
set_clean_session clean opts = record opts { clean_session = some clean }

-- `if secs > int64(^uint16(0)) { secs = int64(^uint16(0)) }`
abbrev pub clamp : ℤ → ℤ
clamp (pos secs) = if ltb (2 ^ 16 - 1) secs then pos (2 ^ 16 - 1) else pos secs
clamp (negsuc n) = negsuc n

-- SetKeepAlive; `secs` is int64(duration.Seconds()), the whole seconds of the duration.
unfoldable pub set_keep_alive : ℤ → ConnectOptions → ConnectOptions
set_keep_alive secs opts = record opts { keep_alive = some (to_uint16 (clamp secs)) }

abbrev pub set_username : List ℕ → ConnectOptions → ConnectOptions
set_username username opts = record opts { username = some username }

abbrev pub set_password : List ℕ → ConnectOptions → ConnectOptions
set_password password opts = record opts { password = some password }

abbrev pub set_will_topic : Topic → Bool → ConnectOptions → ConnectOptions
set_will_topic topic retain opts = record opts {
  will_topic = some topic;
  will_retain = some retain;
}

abbrev pub set_will_message : List ℕ → ConnectOptions → ConnectOptions
set_will_message message opts = record opts { will_message = message }

pub record PublishOptions : Type 0 where
  pub retain : Option Bool

abbrev pub new_publish_options : PublishOptions
new_publish_options = record { retain = none }

abbrev pub set_retain : Bool → PublishOptions → PublishOptions
set_retain retain opts = record opts { retain = some retain }
