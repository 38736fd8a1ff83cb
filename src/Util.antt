-- ===== src/Util.antt =====
-- x/util/utils.go: the MQTT wire encodings of numbers and strings.
pub mod Varint
pub mod Utf8
pub mod Value
