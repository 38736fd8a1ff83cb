-- ===== src/Packets/Connect/Sizes.antt =====
-- The lengths that MarshalBinary of Connect computes are those of the bytes.
use mqttie.Prelude.{
  bit_or, ℕ, suc, ◌+◌, ◌≡◌, refl, List, [], ◌∷◌, ◌++◌, Option, none, some, Bool, true, false, ltb,
  if◌then◌else◌, ◌&&◌, length, length-append, Bool-cases, inl, inr, All, arith,
}
use mqttie.Go.Slice.{be16}
use mqttie.Util.Utf8.RoundTrip.{utf8}
use mqttie.Packets.Connect.{Connect, Properties, flag_clean_session}
use mqttie.Packets.Connect.Length.{
  nonempty, value_len, data_len, user_props_len, connect_prop_len, will_prop_len, flags_and_len,
  add_credentials, add_will,
}
use mqttie.Packets.Connect.Marshal.{is_v5, has_will}
use mqttie.Packets.Connect.Bytes.{
  opt, data_bytes, user_bytes, conn_section, will_section, prefixed, credentials, flags, content,
  Short, ShortData, ShortPair, Fits,
}

-- The bytes have that length.
record Sized (bs : List ℕ) (n : ℕ) : Type 0 where
  pub at : length bs ≡ n

Sized-opt : (b : Bool) {bs : List ℕ} {n : ℕ} → Sized bs n → Sized (opt b bs) (if b then n else 0)
Sized-opt true e = e
Sized-opt false e = record { at = refl }

Sized-append : {xs ys : List ℕ} {m n : ℕ} → Sized xs m → Sized ys n → Sized (xs ++ ys) (m + n)
Sized-append {xs} {ys} e f = record { at = omega (arith, length-append xs ys, e.at, f.at) }

Sized-value : (id : ℕ) (s : List ℕ) → Short s → Sized (id ∷ utf8 s) (value_len s)
Sized-value id s h = record { at = omega arith }

Sized-data : (id : ℕ) (d : Option (List ℕ)) → ShortData d → Sized (data_bytes id d) (data_len d)
Sized-data id none h = record { at = refl }
Sized-data id (some d) h = Sized-value id d h

Sized-users :
    (id : ℕ) (props : Properties)
    → All ShortPair props
    → Sized (user_bytes id props) (user_props_len props)
unfolding user_props_len
Sized-users id [] h = record { at = refl }
Sized-users id ((key, value) ∷ props) h = record {
  at = omega (
    arith,
    (Sized-users id props h.1).at,
    length-append key (utf8 value ++ user_bytes id props),
    length-append value (user_bytes id props),
    h.0.0,
    h.0.1,
  );
}

is_long : (bs : List ℕ) → Sized bs (length bs)
is_long bs = record { at = refl }

pub length-conn_section : (c : Connect) → Fits c → length (conn_section c) ≡ connect_prop_len c
unfolding connect_prop_len
length-conn_section c f =
    let e : Sized (conn_section c) _ =
      Sized-append (Sized-opt (ltb 0 c.session_expiry_interval) (is_long _)) (
        Sized-append (Sized-opt (ltb 0 c.receive_max) (is_long _)) (
          Sized-append (Sized-opt (ltb 0 c.max_packet_size) (is_long _)) (
            Sized-append (Sized-opt (ltb 0 c.topic_alias_max) (is_long _)) (
              Sized-append (Sized-opt c.request_response_info (is_long _)) (
                Sized-append (Sized-opt c.disable_problem_info (is_long _)) (
                  Sized-append (Sized-users _ c.conn_user_properties f.users_fit) (
                    Sized-append
                      (Sized-opt (nonempty c.auth_method)
                        (Sized-value _ c.auth_method f.method_fits))
                      (Sized-data _ c.auth_data f.data_fits)))))))) in
    omega (arith, e.at)

pub length-will_section :
    (c : Connect) → Fits c → has_will c ≡ true → length (will_section c) ≡ will_prop_len c
unfolding will_prop_len
length-will_section c f will =
    let e : Sized (will_section c) _ =
      Sized-append (Sized-opt (ltb 0 c.will_delay_interval) (is_long _)) (
        Sized-append (Sized-opt c.will_format_utf8 (is_long _)) (
          Sized-append (Sized-opt (ltb 0 c.will_message_expiry) (is_long _)) (
            Sized-append
              (Sized-opt (nonempty c.will_content_type)
                (Sized-value _ c.will_content_type f.type_fits))
              (Sized-append
                (Sized-opt (nonempty c.will_response_topic) (
                  Sized-append (Sized-value _ c.will_response_topic f.response_fits)
                    (Sized-data _ c.will_correlation_data f.correlation_fits)))
                (Sized-users _ c.will_user_properties f.will_users_fit))))) in
    rw will (omega (arith, e.at))

-- The variable header without its properties, and the payload without those of the will.
length-credentials :
    (c : Connect) (flags len : ℕ)
    → Fits c
    → (add_credentials c (flags, len)).1 ≡ len + length (credentials c)
length-credentials c flags len f = elim (Bool-cases (nonempty c.username)) [
  | inl user ↦ elim (Bool-cases (nonempty c.password)) [
    | inl pass ↦
        rw (user, pass)
          (omega
            (arith, f.username_fits, f.password_fits, length-append c.username (utf8 c.password)))
    | inr without ↦ rw (user, without) (omega (arith, f.username_fits, length-append c.username []))
  ]
  | inr nobody ↦ elim (Bool-cases (is_v5 c)) [
    | inl five ↦ elim (Bool-cases (nonempty c.password)) [
      | inl pass ↦ rw (nobody, five, pass) (omega (arith, f.password_fits))
      | inr without ↦ rw (nobody, five, without) (omega arith)
    ]
    | inr old ↦ rw (nobody, old) (omega arith)
  ]
]

length-will :
    (c : Connect) (p : ℕ × ℕ)
    → Fits c
    → (add_will c p).1
      ≡ p.1 + (if has_will c then length c.will_topic.name + length c.will_message + 4 else 0)
length-will c p f = elim (Bool-cases (has_will c)) [
  | inl will ↦ rw will (omega (arith, f.name_fits, f.message_fits))
  | inr without ↦ rw without (omega arith)
]

part_of_part :
    (b w : Bool) (x y : ℕ)
    → (if w then (if b then x else 0) + y else 0) ≡ (if b && w then x else 0) + (if w then y else 0)
part_of_part true true x y = refl
part_of_part false true x y = refl
part_of_part true false x y = refl
part_of_part false false x y = refl

part_of_length :
    (w : Bool) (x y : ℕ)
    → (if w then suc (suc x) + suc (suc y) else 0) ≡ (if w then x + y + 4 else 0)
part_of_length true x y = omega arith
part_of_length false x y = refl

pub length-content :
    (c : Connect)
    → Fits c
    → length (content c)
      ≡ (flags_and_len c).1
        + (if is_v5 c then length (prefixed (conn_section c)) else 0)
        + (if is_v5 c && has_will c then length (prefixed (will_section c)) else 0)
unfolding flags_and_len
length-content c f =
    let e : Sized (content c) _ =
      Sized-append (is_long (0 ∷ 4 ∷ b'M' ∷ b'Q' ∷ b'T' ∷ b'T' ∷ c.version ∷ flags c ∷ [])) (
        Sized-append (is_long (be16 c.keep_alive)) (
          Sized-append (Sized-opt (is_v5 c) (is_long _)) (
            Sized-append (is_long (utf8 c.client_id)) (
              Sized-append
                (Sized-opt (has_will c) (
                  Sized-append (Sized-opt (is_v5 c) (is_long _)) (
                    Sized-append (is_long (utf8 c.will_topic.name))
                      (is_long (utf8 c.will_message)))))
                (is_long _))))) in
    let start = if c.clean_session then bit_or 0 flag_clean_session else 0 in
    omega (
      arith,
      e.at,
      length-credentials c start 10 f,
      length-will c (add_credentials c (start, 10)) f,
      f.id_fits,
      part_of_part (is_v5 c) (has_will c) (length (prefixed (will_section c)))
          (length (utf8 c.will_topic.name) + length (utf8 c.will_message)),
      part_of_length (has_will c) (length c.will_topic.name) (length c.will_message),
    )
