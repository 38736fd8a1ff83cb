-- ===== src/Packets/Connect/Fills.antt =====
-- The writers of Connect, each with the bytes that it writes.
use Prim.Native.Nat.{min}
use mqttie.Prelude.{
  suc, ◌==◌, ◌%◌, ℕ, ◌+◌, ◌<◌, ◌≤◌, ◌^◌, ◌≡◌, refl, List, [], ◌∷◌, Option, none, some, Bool, true,
  false, ltb, ◌&&◌, length, drop, take-all, length-drop, drop-drop, All, arith, Bool-cases, inl,
  inr,
}
use mqttie.Go.Slice.{put_uvarint}
use mqttie.Go.Slice.Fills.{Fills, Fills-copy, Fills-put_uint16, Fills-put_uint32, Fills-put_uvarint}
use mqttie.Go.Encoder.{Enc, emit, ◌>>◌}
use mqttie.Go.Encoder.Writes.{Writes, Writes-emit, Writes-store, Writes-skip, Writes->>}
use mqttie.Util.Value.{encode_bytes}
use mqttie.Util.Utf8.RoundTrip.{utf8}
use mqttie.Packets.Frame.{cmd_connect}
use mqttie.Packets.Connect.{Connect, Properties}
use mqttie.Packets.Connect.Length.{nonempty, connect_prop_len, will_prop_len}
use mqttie.Packets.Connect.Marshal.{
  when, fill_value, fill_data, fill_user_props, marshal_conn_properties, marshal_will_properties,
  is_v5, has_will, fill_credentials, fill,
}
use mqttie.Packets.Connect.Bytes.{
  opt, data_bytes, user_bytes, conn_section, will_section, prefixed, will_bytes, credentials,
  content, body, Short, ShortData, ShortPair, Fits,
}
use mqttie.Packets.Connect.Flags.{flags_and_len-flags}
use mqttie.Packets.Connect.Sizes.{length-conn_section, length-will_section}

Fills-encode_bytes : (v : List ℕ) → length v < 2 ^ 16 → Fills (encode_bytes v) (utf8 v)
unfolding encode_bytes
Fills-encode_bytes v h = record {
  at = λ t room.
      let q : length v % 2 ^ 16 ≡ length v = omega arith in
      let fits : length v ≤ length (drop 2 t) = omega (arith, length-drop 2 t) in
      let j : 2 + length v ≡ suc (suc (length v)) = omega arith in
      let k : 2 + min (length (drop 2 t)) (length v) ≡ suc (suc (length v)) = omega arith in
      rw (q, (Fills-put_uint16 (length v)).at t (omega arith))
        (rw (take-all (length v) v (omega arith))
          (rw (take-all (length (drop 2 t)) v fits, drop-drop 2 (length v) t) (rw (k, j) refl)));
}

Writes-when : (b : Bool) {m : Enc} {bs : List ℕ} → Writes m bs → Writes (when b m) (opt b bs)
Writes-when true w = w
Writes-when false w = Writes-skip

Writes-value : (id : ℕ) (v : List ℕ) → Short v → Writes (fill_value id v) (id ∷ utf8 v)
Writes-value id v h = Writes->> (Writes-store id) (Writes-emit (Fills-encode_bytes v (omega arith)))

Writes-data :
    (id : ℕ) (d : Option (List ℕ)) → ShortData d → Writes (fill_data id d) (data_bytes id d)
Writes-data id none h = Writes-skip
Writes-data id (some d) h = Writes-value id d h

Writes-users :
    (id : ℕ) (props : Properties)
    → All ShortPair props
    → Writes (fill_user_props id props) (user_bytes id props)
unfolding fill_user_props
Writes-users id [] h = Writes-skip
Writes-users id ((key, value) ∷ props) h = Writes->> (Writes-store id) (
    Writes->> (Writes-emit (Fills-encode_bytes key (omega (arith, h.0.0)))) (
      Writes->> (Writes-emit (Fills-encode_bytes value (omega (arith, h.0.1))))
        (Writes-users id props h.1)))

Writes-conn : (c : Connect) → Fits c → Writes (marshal_conn_properties c) (conn_section c)
unfolding marshal_conn_properties
Writes-conn c f =
    Writes->>
      (Writes-when (ltb 0 c.session_expiry_interval)
        (Writes->> (Writes-store _) (Writes-emit (Fills-put_uint32 _))))
      (Writes->>
        (Writes-when (ltb 0 c.receive_max)
          (Writes->> (Writes-store _) (Writes-emit (Fills-put_uint16 _))))
        (Writes->>
          (Writes-when (ltb 0 c.max_packet_size)
            (Writes->> (Writes-store _) (Writes-emit (Fills-put_uint32 _))))
          (Writes->>
            (Writes-when (ltb 0 c.topic_alias_max)
              (Writes->> (Writes-store _) (Writes-emit (Fills-put_uint16 _))))
            (Writes->> (Writes-when c.request_response_info (Writes-emit (Fills-copy _))) (
              Writes->> (Writes-when c.disable_problem_info (Writes-emit (Fills-copy _))) (
                Writes->> (Writes-users _ c.conn_user_properties f.users_fit) (
                  Writes->>
                    (Writes-when (nonempty c.auth_method)
                      (Writes-value _ c.auth_method f.method_fits))
                    (Writes-data _ c.auth_data f.data_fits))))))))

Writes-will : (c : Connect) → Fits c → Writes (marshal_will_properties c) (will_section c)
unfolding marshal_will_properties
Writes-will c f =
    Writes->>
      (Writes-when (ltb 0 c.will_delay_interval)
        (Writes->> (Writes-store _) (Writes-emit (Fills-put_uint32 _))))
      (Writes->> (Writes-when c.will_format_utf8 (Writes-emit (Fills-copy _))) (
        Writes->>
          (Writes-when (ltb 0 c.will_message_expiry)
            (Writes->> (Writes-store _) (Writes-emit (Fills-put_uint32 _))))
          (Writes->>
            (Writes-when (nonempty c.will_content_type)
              (Writes-value _ c.will_content_type f.type_fits))
            (Writes->>
              (Writes-when (nonempty c.will_response_topic) (
                Writes->> (Writes-value _ c.will_response_topic f.response_fits)
                  (Writes-data _ c.will_correlation_data f.correlation_fits)))
              (Writes-users _ c.will_user_properties f.will_users_fit)))))

Writes-both :
    (b d : Bool) {m : Enc} {bs : List ℕ}
    → Writes m bs
    → Writes (when b (when d m)) (opt (b && d) bs)
Writes-both true d w = Writes-when d w
Writes-both false d w = Writes-skip

Writes-credentials : (c : Connect) → Fits c → Writes (fill_credentials c) (credentials c)
Writes-credentials c f =
    let five : (c.version == 5) ≡ is_v5 c = ground (arith, f.known) in
    elim (Bool-cases (nonempty c.username)) [
      | inl user ↦ rw user (
          Writes->> (Writes-emit (Fills-encode_bytes c.username f.username_fits)) (
            Writes-when (nonempty c.password)
              (Writes-emit (Fills-encode_bytes c.password f.password_fits))))
      | inr nobody ↦
          rw (nobody, five)
            (Writes-both (is_v5 c) (nonempty c.password)
              (Writes-emit (Fills-encode_bytes c.password f.password_fits)))
    ]

Writes-prefixed :
    {m : Enc} (bs : List ℕ) (n : ℕ)
    → length bs ≡ n
    → Writes m bs
    → Writes (emit (put_uvarint n) >> m) (prefixed bs)
Writes-prefixed bs n e w = rw (← e) (Writes->> (Writes-emit (Fills-put_uvarint (length bs))) w)

Writes-will_bytes :
    (c : Connect)
    → Fits c
    → Writes
        (when (has_will c) (
          when (is_v5 c) (emit (put_uvarint (will_prop_len c)) >> marshal_will_properties c)
          >> emit (encode_bytes c.will_topic.name)
          >> emit (encode_bytes c.will_message)))
        (opt (has_will c) (will_bytes c))
Writes-will_bytes c f = elim (Bool-cases (has_will c)) [
  | inl will ↦ rw will (
      Writes->>
        (Writes-when (is_v5 c) (
          Writes-prefixed (will_section c) (will_prop_len c) (length-will_section c f will)
            (Writes-will c f)))
        (Writes->> (Writes-emit (Fills-encode_bytes c.will_topic.name f.name_fits))
          (Writes-emit (Fills-encode_bytes c.will_message f.message_fits))))
  | inr without ↦ rw without Writes-skip
]

pub Writes-fill :
    (c : Connect)
    → c.will_topic.qos ≤ 2
    → Fits c
    → Writes (fill c (length (content c))) (cmd_connect ∷ body c)
unfolding fill
Writes-fill c q f = rw (flags_and_len-flags c q) (
    Writes->> (Writes-store cmd_connect) (
      Writes->> (Writes-emit (Fills-put_uvarint (length (content c)))) (
        Writes->> (Writes-emit (Fills-copy _)) (
          Writes->> (Writes-emit (Fills-put_uint16 c.keep_alive)) (
            Writes->>
              (Writes-when (is_v5 c) (
                Writes-prefixed (conn_section c) (connect_prop_len c) (length-conn_section c f)
                  (Writes-conn c f)))
              (Writes->> (Writes-emit (Fills-encode_bytes c.client_id f.id_fits))
                (Writes->> (Writes-will_bytes c f) (Writes-credentials c f))))))))
