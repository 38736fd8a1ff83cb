-- ===== src/Packets/Connect/Exact.antt =====
-- MarshalBinary of Connect fills its buffer with the bytes of the packet.
use mqttie.Prelude.{
  Bool-cases, inl, inr, ap, le→ltb, ℕ, ◌+◌, ◌<◌, ◌≤◌, ◌^◌, ◌≡◌, refl, List, ◌∷◌, Bool, true, false,
  if◌then◌else◌, ◌&&◌, length, length-append, arith,
}
use mqttie.Go.Outcome.{ok}
use mqttie.Go.Slice.{uvarint}
use mqttie.Go.Encoder.Writes.{marshal_lem}
use mqttie.Util.Varint.Encode.{length-uvarint-le, get_uvarint_len-uvarint}
use mqttie.Packets.Frame.{cmd_connect}
use mqttie.Packets.Connect.{Connect}
use mqttie.Packets.Connect.Length.{nonempty, with_client_id, connect_prop_len, will_prop_len}
use mqttie.Packets.Connect.Marshal.{
  is_v5, has_will, section_len, uvarint_len, rem_length, marshal_filled, marshal_binary,
}
use mqttie.Packets.Connect.Bytes.{conn_section, will_section, prefixed, content, body, Fits}
use mqttie.Packets.Connect.Sizes.{length-conn_section, length-will_section, length-content}
use mqttie.Packets.Connect.Fills.{Writes-fill}

uvarint_len_lem : (n : ℕ) → n < 2 ^ 64 → uvarint_len n ≡ ok (length (uvarint n))
uvarint_len_lem n h = rw (uvarint_len, get_uvarint_len-uvarint n h) refl

and-right : (b d : Bool) → (b && d) ≡ true → d ≡ true
and-right true d e = e
and-right false d e = cc

when_true : (b : Bool) (x : ℕ) → b ≡ true → (if b then x else 0) ≡ x
when_true b x e = rw e refl

-- A section is no longer than the packet.
conn_section_small : (c : Connect) → Fits c → is_v5 c ≡ true → connect_prop_len c < 2 ^ 64
conn_section_small c f e = omega (
  arith,
  length-content c f,
  when_true (is_v5 c) (length (prefixed (conn_section c))) e,
  length-conn_section c f,
  length-append (uvarint (length (conn_section c))) (conn_section c),
  f.content_fits,
)

will_section_small :
    (c : Connect) → Fits c → (is_v5 c && has_will c) ≡ true → will_prop_len c < 2 ^ 64
will_section_small c f e = omega (
  arith,
  length-content c f,
  when_true (is_v5 c && has_will c) (length (prefixed (will_section c))) e,
  length-will_section c f (and-right (is_v5 c) (has_will c) e),
  length-append (uvarint (length (will_section c))) (will_section c),
  f.content_fits,
)

section_len_lem :
    (b : Bool) (bs : List ℕ) (n : ℕ)
    → (b ≡ true → length bs ≡ n)
    → (b ≡ true → n < 2 ^ 64)
    → section_len b n ≡ ok (if b then length (prefixed bs) else 0)
section_len_lem true bs n e small =
    rw (uvarint_len_lem n (small refl))
      (ap ok (rw (← (e refl)) (omega (arith, length-append (uvarint (length bs)) bs))))
section_len_lem false bs n e small = refl

rem_length_lem : (c : Connect) → Fits c → rem_length c ≡ ok (length (content c))
unfolding rem_length
rem_length_lem c f =
    rw
      (
        section_len_lem (is_v5 c) (conn_section c) (connect_prop_len c)
            (λ e. length-conn_section c f) (λ e. conn_section_small c f e),
        section_len_lem (is_v5 c && has_will c) (will_section c) (will_prop_len c)
            (λ e. length-will_section c f (and-right (is_v5 c) (has_will c) e))
            (λ e. will_section_small c f e),
      )
      (ap ok (omega (arith, length-content c f)))

with_client_id-topic :
    (uuid : List ℕ) (c : Connect) → (with_client_id uuid c).will_topic ≡ c.will_topic
unfolding with_client_id
with_client_id-topic uuid c = elim (Bool-cases (nonempty c.client_id)) [
  | inl named ↦ rw named refl
  | inr unnamed ↦ rw unnamed refl
]

-- MarshalBinary of Connect returns the bytes of the packet, whose client identifier is a new UUID where
-- it had none: for a QoS up to 2, strings that have room for their lengths, a version up to 5 and a
-- remaining length of four bytes. The flags byte is the sum of the bits of its flags, the lengths before
-- the two property sections are their sizes, and AuthData is written without an AuthMethod too.
pub connect_marshal_binary :
    (uuid : List ℕ) (c : Connect)
    → c.will_topic.qos ≤ 2
    → Fits (with_client_id uuid c)
    → marshal_binary uuid c ≡ ok (cmd_connect ∷ body (with_client_id uuid c))
unfolding marshal_binary marshal_filled
connect_marshal_binary uuid c q f =
    let w = with_client_id uuid c in
    let r : w.will_topic.qos ≤ 2 = rw (with_client_id-topic uuid c) q in
    rw
      (
        le→ltb 2 c.will_topic.qos q,
        rem_length_lem w f,
        uvarint_len_lem (length (content w)) (omega (arith, f.content_fits)),
      )
      (rw
        (le→ltb 4 (length (uvarint (length (content w))))
          (length-uvarint-le (length (content w)) f.content_fits).1)
        (marshal_lem (length (content w) + length (uvarint (length (content w))) + 1)
          (Writes-fill w r f)
          (omega (arith, length-append (uvarint (length (content w))) (content w)))))
