-- ===== src/Packets/Connect/Reads.antt =====
-- The parts of ReadFrom of Connect on the bytes of a packet of version 3.1.1.
pub mod Payload
use mqttie.Prelude.{
  ◌/◌, ℕ, zero, suc, ◌+◌, ◌-◌, ◌<◌, ◌≤◌, ◌^◌, ◌≡◌, refl, ◌∙◌, ap, sym, List, [], ◌∷◌, ◌++◌, none,
  some, Bool, true, false, ltb, leb, ◌==◌, ◌&&◌, if◌then◌else◌, bit_and, length, length-append,
  length-replicate, append-nil, append_assoc, le→ltb, arith, Bool-cases, inl, inr,
}
use mqttie.Mqtt.{mqtt_v311}
use mqttie.Go.Outcome.{Outcome, ok}
use mqttie.Go.Slice.{make, be16, uvarint}
use mqttie.Go.Stream.{Reader, Io, pure, counted, lift, ◌>>=◌}
use mqttie.Go.Stream.Reads.{
  Buffered, Reads, Reads-pure, Reads->>=, Reads-read_raw, Reads-eq, Reads-counted,
}
use mqttie.Util.Varint.Decode.{Reads-read_varint}
use mqttie.Util.Utf8.RoundTrip.{utf8, uint16-be16}
use mqttie.Util.Value.{
  read_bytes_value, read_tail, read_number_value, read_uint8_value, read_uint16_value, read_string,
  checked,
}
use mqttie.Packets.Connect.{Connect, flag_username, flag_will, mask_will_qos}
use mqttie.Packets.Connect.Length.{nonempty, flags_and_len}
use mqttie.Packets.Connect.Marshal.{is_v5, has_will}
use mqttie.Packets.Connect.Bytes.{opt, will_bytes, credentials, secret, content, body, Fits}
use mqttie.Packets.Connect.Flags.{
  flags_byte, FlagBits, flags_byte-FlagBits, flags_and_len-flags_byte,
}
use mqttie.Packets.Connect.Read.Properties.{bytes_eq}
use mqttie.Packets.Connect.Read.{
  flag_set, apply_flags, read_var_properties, parse_var_header, read_will_section, read_will,
  read_optional_will, read_username, read_password, read_payload, read_body, drain, verdict, finish,
  read_from,
}

-- A packet of version 3.1.1 has a password only with a username.
secret-v311 :
    (c : Connect) → c.version ≡ mqtt_v311 → secret c ≡ (nonempty c.username && nonempty c.password)
secret-v311 c v = elim (Bool-cases (nonempty c.username)) [
  | inl user ↦ elim (Bool-cases (nonempty c.password)) [
    | inl pass ↦ rw (user, pass) refl
    | inr bare ↦ rw (user, bare) refl
  ]
  | inr nobody ↦ elim (Bool-cases (nonempty c.password)) [
    | inl pass ↦ rw (nobody, pass, v) refl
    | inr bare ↦ rw (nobody, bare) refl
  ]
]

-- The flags of a packet of version 3.1.1.
pub flags_lem :
    (c : Connect)
    → c.version ≡ mqtt_v311
    → (flags_and_len c).0
      ≡ flags_byte c.will_topic.qos c.clean_session
          (nonempty c.username)
          (nonempty c.username && nonempty c.password)
          (has_will c)
          c.will_retain
flags_lem c v = flags_and_len-flags_byte c ∙ rw (secret-v311 c v) refl

module _ {R : Reader} (B : Buffered R) where
  pub Reads-checked :
      {A : Type 0} {m : Io R.Stream (A × _)} {bs : List ℕ} {a : A}
      → Reads B m bs (a, none)
      → Reads B (checked m) bs a
  unfolding checked
  Reads-checked {bs = bs} r =
      Reads-eq B (append-nil bs) refl (Reads->>= B _ r (record { at = λ rest. refl }))

  pub Reads-string :
      (v old : List ℕ) (max : ℕ)
      → length v < 2 ^ 16
      → length v + 2 ≤ max
      → Reads B (checked (read_string R old max)) (utf8 v) v
  unfolding read_bytes_value read_tail
  Reads-string v old max small room = Reads-checked (
      rw (le→ltb max 2 (omega arith)) (
        Reads->>= B _ (Reads-read_raw B (make 2) (be16 (length v)) refl) (
          rw (uint16-be16 (length v) small, le→ltb max (length v + 2) room)
            (Reads-eq B (append-nil v) refl (
              Reads->>= B _
                (Reads-read_raw B (make (length v)) v (length-replicate {A = ℕ} (length v) 0))
                (Reads-pure B _))))))

  pub Reads-number :
      (size : ℕ) (decode : List ℕ → ℕ) (old max : ℕ) (bs : List ℕ)
      → length bs ≡ size
      → size ≤ max
      → Reads B (checked (read_number_value R size decode old max)) bs (decode bs)
  unfolding read_number_value
  Reads-number size decode old max bs e room = Reads-checked (
      rw (le→ltb max size room) (
        Reads-eq B (append-nil bs) refl (
          Reads->>= B _
            (Reads-read_raw B (make size) bs (length-replicate {A = ℕ} size 0 ∙ omega arith))
            (Reads-pure B _))))

-- The receiver `q` with what the variable header of `c` says.
abbrev pub headed : Connect → Connect → Connect
headed q c = record q {
  version = mqtt_v311;
  clean_session = if c.clean_session then true else q.clean_session;
  will_retain = if has_will c && c.will_retain then true else q.will_retain;
  keep_alive = c.keep_alive;
}

-- The flags of `c` in a byte.
abbrev pub BitsOf : ℕ → Connect → Type 0
BitsOf byte c =
    FlagBits byte c.will_topic.qos c.clean_session (nonempty c.username)
      (nonempty c.username && nonempty c.password) (has_will c) c.will_retain

and-left : (a b : Bool) → (a && b) ≡ true → a ≡ true
and-left true b e = refl
and-left false b e = e

pub flag_zero : (byte mask : ℕ) → flag_set byte mask ≡ true → (bit_and byte mask == 0) ≡ false
flag_zero byte mask h = ground arith

apply_flags_lem :
    (byte : ℕ) (q c : Connect)
    → BitsOf byte c
    → apply_flags byte q
      ≡ ok (record q {
        clean_session = if c.clean_session then true else q.clean_session;
        will_retain = if has_will c && c.will_retain then true else q.will_retain;
      })
apply_flags_lem byte q c h = elim (Bool-cases (has_will c && c.will_retain)) [
  | inl kept ↦
      let will = flag_zero byte flag_will (h.will_bit ∙ and-left (has_will c) c.will_retain kept) in
      elim (Bool-cases c.clean_session) [
        | inl clean ↦ rw (h.clean_bit, h.retain_bit, clean, kept, will) refl
        | inr not_clean ↦ rw (h.clean_bit, h.retain_bit, not_clean, kept, will) refl
      ]
  | inr not_kept ↦ elim (Bool-cases c.clean_session) [
    | inl clean ↦ rw (h.clean_bit, h.retain_bit, clean, not_kept) refl
    | inr not_clean ↦ rw (h.clean_bit, h.retain_bit, not_clean, not_kept) refl
  ]
]

module _ {R : Reader} (B : Buffered R) where
  Reads-apply_flags :
      (byte : ℕ) (q c : Connect)
      → BitsOf byte c
      → Reads B
          (λ (s : R.Stream). (0, apply_flags byte q, s))
          []
          (record q {
            clean_session = if c.clean_session then true else q.clean_session;
            will_retain = if has_will c && c.will_retain then true else q.will_retain;
          })
  Reads-apply_flags byte q c h = record { at = λ rest. rw (apply_flags_lem byte q c h) refl }

  pub Reads-parse_var_header :
      (byte rem : ℕ) (q c : Connect)
      → c.keep_alive < 2 ^ 16
      → 10 ≤ rem
      → BitsOf byte c
      → Reads B
          (parse_var_header R rem q)
          ((0 ∷ 4 ∷ b'M' ∷ b'Q' ∷ b'T' ∷ b'T' ∷ mqtt_v311 ∷ byte ∷ []) ++ be16 c.keep_alive)
          (byte, headed q c)
  unfolding parse_var_header bytes_eq read_var_properties
  Reads-parse_var_header byte rem q c small room h =
      Reads->>= B _
        (Reads-counted B
          (Reads-string B (b'M' ∷ b'Q' ∷ b'T' ∷ b'T' ∷ []) [] rem (omega arith) (omega arith)))
        (Reads->>= B _
          (Reads-counted B (Reads-number B 1 _ 0 (rem - 6) (mqtt_v311 ∷ []) refl (omega arith)))
          (Reads->>= B _
            (Reads-counted B
              (Reads-number B 1 _ mqtt_v311 (rem - 7) (byte ∷ []) refl (omega arith)))
            (Reads->>= B _ (Reads-apply_flags byte (record q { version = mqtt_v311 }) c h) (
              Reads-eq B (append-nil (be16 c.keep_alive)) refl (
                Reads->>= B _
                  (Reads-number B 2 _ _ (rem - 8) (be16 c.keep_alive) refl (omega arith))
                  (Reads-eq B refl (rw (uint16-be16 c.keep_alive small) refl)
                    (Reads->>= B _ (Reads-pure B _) (Reads-pure B _))))))))
