-- ===== src/Packets/Connect/Flags.antt =====
-- The flags byte of a connect packet: what computeFlagsAndLen puts into it, and what ReadFrom takes out.
use mqttie.Prelude.{
  ◌+◌, ◌∙◌, Bool-cases, inl, inr, ℕ, zero, suc, ◌*◌, ◌/◌, ◌%◌, ◌^◌, ◌≤◌, ◌≡◌, refl, Bool, true,
  false, ◌==◌, ◌&&◌, if◌then◌else◌, bit_and, bit_or, arith,
}
use mqttie.Packets.Connect.Length.{nonempty, flags_and_len}
use mqttie.Packets.Connect.Marshal.{is_v5, has_will}
use mqttie.Packets.Connect.Bytes.{bit, secret, flags}
use mqttie.Packets.Connect.{
  Connect, flag_username, flag_password, flag_will_retain, flag_will, flag_clean_session,
  mask_will_qos,
}
use mqttie.Packets.Connect.Read.{flag_set}

-- The byte for a QoS and for the flags of the session, the username, the password, the will, and its
-- retention.
abbrev pub flags_byte : ℕ → Bool → Bool → Bool → Bool → Bool → ℕ
flags_byte qos clean user secret will retain =
    let f0 = if clean then bit_or 0 flag_clean_session else 0 in
    let f1 =
      if user
      then (if secret
          then bit_or (bit_or f0 flag_username) flag_password
          else bit_or f0 flag_username)
      else (if secret then bit_or f0 flag_password else f0) in
    let f2 = bit_or f1 (bit_or (qos * 8 % 2 ^ 8) flag_will) in
    if will then (if retain then bit_or f2 flag_will_retain else f2) else f1

abbrev Test : Type 0
Test = ℕ → Bool → Bool → Bool → Bool → Bool → Bool

abbrev both : (Bool → Bool) → Bool
both f = f true && f false

abbrev passes : Test → ℕ → Bool
passes t q = both λ a. both λ b. both λ c. both λ d. both λ e. t q a b c d e

both-at : (f : Bool → Bool) → both f ≡ true → (b : Bool) → f b ≡ true
both-at f h true = ground arith
both-at f h false = ground arith

passes-at : (t : Test) (q : ℕ) → passes t q ≡ true → (a b c d e : Bool) → t q a b c d e ≡ true
passes-at t q h a b c d e =
    let ha = both-at (λ a. both λ b. both λ c. both λ d. both λ e. t q a b c d e) h a in
    let hb = both-at (λ b. both λ c. both λ d. both λ e. t q a b c d e) ha b in
    let hc = both-at (λ c. both λ d. both λ e. t q a b c d e) hb c in
    let hd = both-at (λ d. both λ e. t q a b c d e) hc d in both-at (λ e. t q a b c d e) hd e

-- A test that holds of each QoS with all flags.
always :
    (t : Test)
    → passes t 0 ≡ true
    → passes t 1 ≡ true
    → passes t 2 ≡ true
    → (q : ℕ) → q ≤ 2
    → (a b c d e : Bool) → t q a b c d e ≡ true
always t h i j zero l = passes-at t 0 h
always t h i j (suc zero) l = passes-at t 1 i
always t h i j (suc (suc zero)) l = passes-at t 2 j
always t h i j (suc (suc (suc q))) l = absurd (omega arith)

abbrev same : Bool → Bool → Bool
same true b = b
same false b = if b then false else true

same→eq : (a b : Bool) → same a b ≡ true → a ≡ b
same→eq true true h = refl
same→eq false false h = refl
same→eq true false h = cc
same→eq false true h = cc

eq_of : (m n : ℕ) → (m == n) ≡ true → m ≡ n
eq_of m n h = ground arith

-- The byte as the sum of its bits.
flags_byte-sum :
    (qos : ℕ) (clean user secret will retain : Bool)
    → qos ≤ 2
    → flags_byte qos clean user secret will retain
      ≡ bit clean 2
        + (if will then 4 + qos * 8 + bit retain 32 else 0)
        + bit secret 64
        + bit user 128
flags_byte-sum q a b c d e h = eq_of _ _ (
    always
      (λ q a b c d e.
        flags_byte q a b c d e
        == bit a 2 + (if d then 4 + q * 8 + bit e 32 else 0) + bit c 64 + bit b 128)
      refl refl refl q h a b c d e)

pub flags_and_len-flags_byte :
    (c : Connect)
    → (flags_and_len c).0
      ≡ flags_byte c.will_topic.qos c.clean_session
          (nonempty c.username)
          (secret c)
          (has_will c)
          c.will_retain
unfolding flags_and_len
flags_and_len-flags_byte c = elim (Bool-cases (nonempty c.username)) [
  | inl user ↦ elim (Bool-cases (nonempty c.password)) [
    | inl pass ↦ elim (Bool-cases (has_will c)) [
      | inl will ↦ rw (user, pass, will) refl
      | inr without ↦ rw (user, pass, without) refl
    ]
    | inr bare ↦ elim (Bool-cases (has_will c)) [
      | inl will ↦ rw (user, bare, will) refl
      | inr without ↦ rw (user, bare, without) refl
    ]
  ]
  | inr nobody ↦ elim (Bool-cases (is_v5 c)) [
    | inl five ↦ elim (Bool-cases (nonempty c.password)) [
      | inl pass ↦ elim (Bool-cases (has_will c)) [
        | inl will ↦ rw (nobody, five, pass, will) refl
        | inr without ↦ rw (nobody, five, pass, without) refl
      ]
      | inr bare ↦ elim (Bool-cases (has_will c)) [
        | inl will ↦ rw (nobody, five, bare, will) refl
        | inr without ↦ rw (nobody, five, bare, without) refl
      ]
    ]
    | inr old ↦ elim (Bool-cases (nonempty c.password)) [
      | inl pass ↦ elim (Bool-cases (has_will c)) [
        | inl will ↦ rw (nobody, old, pass, will) refl
        | inr without ↦ rw (nobody, old, pass, without) refl
      ]
      | inr bare ↦ elim (Bool-cases (has_will c)) [
        | inl will ↦ rw (nobody, old, bare, will) refl
        | inr without ↦ rw (nobody, old, bare, without) refl
      ]
    ]
  ]
]

-- The flags that computeFlagsAndLen collects are the flags byte of the packet.
pub flags_and_len-flags : (c : Connect) → c.will_topic.qos ≤ 2 → (flags_and_len c).0 ≡ flags c
flags_and_len-flags c h =
    flags_and_len-flags_byte c
    ∙ flags_byte-sum c.will_topic.qos c.clean_session (nonempty c.username) (secret c) (has_will c)
        c.will_retain h

-- The flags and the QoS that are taken from the byte.
pub record FlagBits (byte qos : ℕ) (clean user secret will retain : Bool) : Type 0 where
  pub clean_bit : flag_set byte flag_clean_session ≡ clean
  pub user_bit : flag_set byte flag_username ≡ user
  pub secret_bit : flag_set byte flag_password ≡ secret
  pub will_bit : flag_set byte flag_will ≡ will
  pub retain_bit : flag_set byte flag_will_retain ≡ (will && retain)
  pub qos_bits : bit_and byte mask_will_qos / 8 ≡ (if will then qos else 0)

pub flags_byte-FlagBits :
    (qos : ℕ) (clean user secret will retain : Bool)
    → qos ≤ 2
    → FlagBits (flags_byte qos clean user secret will retain) qos clean user secret will retain
flags_byte-FlagBits q a b c d e h = record {
  clean_bit = same→eq _ _ (
      always (λ q a b c d e. same (flag_set (flags_byte q a b c d e) flag_clean_session) a) refl
        refl refl q h a b c d e);
  user_bit = same→eq _ _ (
      always (λ q a b c d e. same (flag_set (flags_byte q a b c d e) flag_username) b) refl refl
        refl q h a b c d e);
  secret_bit = same→eq _ _ (
      always (λ q a b c d e. same (flag_set (flags_byte q a b c d e) flag_password) c) refl refl
        refl q h a b c d e);
  will_bit = same→eq _ _ (
      always (λ q a b c d e. same (flag_set (flags_byte q a b c d e) flag_will) d) refl refl refl q
        h a b c d e);
  retain_bit = same→eq _ _ (
      always (λ q a b c d e. same (flag_set (flags_byte q a b c d e) flag_will_retain) (d && e))
        refl refl refl q h a b c d e);
  qos_bits = eq_of _ _ (
      always
        (λ q a b c d e. bit_and (flags_byte q a b c d e) mask_will_qos / 8 == (if d then q else 0))
        refl refl refl q h a b c d e);
}
