-- ===== src/Packets/Connect/Read/Swallowed.antt =====
-- What readWillProperties makes of a property that it does not know.
use mqttie.Prelude.{
  ℕ, zero, suc, ◌-◌, ◌<◌, ◌≡◌, refl, [], ◌∷◌, none, some, false, arith, ◌==◌, lt→ltb, le→ltb,
}
use mqttie.Go.Outcome.{ok}
use mqttie.Go.Stream.{Reader, ◌>>=◌, read_raw, counted}
use mqttie.Go.Slice.{overlay}
use mqttie.Mqtt.{illegal_property}
use mqttie.Util.Value.{checked, read_number_value, read_uint8_value}
use mqttie.Packets.Connect.{Connect}
use mqttie.Packets.Connect.{
  prop_will_content_type, prop_will_correlation_data, prop_will_delay, prop_will_expire,
}
use mqttie.Packets.Connect.{prop_will_response_topic, prop_will_utf8, prop_will_user_props}
use mqttie.Packets.Connect.Read.Properties.{read_will_property, will_loop, read_will_properties}

-- A property identifier of no will property.
pub record NoWillProperty (id : ℕ) : Type 0 where
  pub not_content_type : (id == prop_will_content_type) ≡ false
  pub not_correlation_data : (id == prop_will_correlation_data) ≡ false
  pub not_delay : (id == prop_will_delay) ≡ false
  pub not_expire : (id == prop_will_expire) ≡ false
  pub not_response_topic : (id == prop_will_response_topic) ≡ false
  pub not_utf8 : (id == prop_will_utf8) ≡ false
  pub not_user_props : (id == prop_will_user_props) ≡ false

read_id :
    (R : Reader) (s s' : R.Stream) (id len : ℕ)
    → 0 < len
    → R.read s 1 ≡ record { bytes = id ∷ []; error = none; next = s' }
    → counted (checked (read_uint8_value R 0 len)) s ≡ (1, ok (id, 1), s')
unfolding checked counted read_number_value read_raw ◌>>=◌ overlay
read_id R s s' id len p e = rw (le→ltb len 1 (omega arith), e) refl

illegal :
    (R : Reader) (s : R.Stream) (id prop_len left : ℕ) (c : Connect)
    → NoWillProperty id
    → counted (read_will_property R id prop_len left c) s
      ≡ (0, ok ((c, some (illegal_property id)), 0), s)
unfolding counted read_will_property
illegal R s id prop_len left c h =
    rw
      (
        h.not_content_type, h.not_correlation_data, h.not_delay, h.not_expire, h.not_response_topic,
        h.not_utf8, h.not_user_props,
      )
      refl

-- Where the section is not empty and begins with an identifier of no will property, readWillProperties
-- returns no error: it has taken one byte, whatever the length of the section, and the receiver is as it was.
pub illegal_will_property :
    (R : Reader) (s s' : R.Stream) (id prop_len : ℕ) (c : Connect)
    → NoWillProperty id
    → 0 < prop_len
    → R.read s 1 ≡ record { bytes = id ∷ []; error = none; next = s' }
    → read_will_properties R prop_len c s ≡ (1, ok c, s')
unfolding read_will_properties will_loop ◌>>=◌
illegal_will_property R s s' id zero c h p e = elim p [ ]
illegal_will_property R s s' id (suc len) c h p e =
    rw
      (
        lt→ltb 0 (suc len) p,
        read_id R s s' id (suc len - 0) (omega arith) e,
        illegal R s' id _ _ c h,
      )
      refl
