-- ===== src/Packets/PacketIo/Commands.antt =====
-- The command byte of a publish packet: its flags are read back from it.
use mqttie.Prelude.{
  ℕ, zero, suc, ◌*◌, ◌%◌, ◌^◌, ◌<◌, ◌/◌, ◌≡◌, refl, Bool, true, false, arith, bit_and, bit_or, ltb,
  if◌then◌else◌,
}
use mqttie.Packets.Frame.{cmd_publish}
use mqttie.Packets.Publish.{Publish, flag_duplicate, flag_retain, fixed_header}

-- The flags that Recv takes from the command byte.
pub record Flags (byte qos : ℕ) (duplicate retain : Bool) : Type 0 where
  pub command : bit_and byte 0xF0 ≡ cmd_publish
  pub qos_bits : bit_and byte 0x06 / 2 ≡ qos
  pub duplicate_bit : ltb 0 (bit_and byte flag_duplicate) ≡ duplicate
  pub retain_bit : ltb 0 (bit_and byte flag_retain) ≡ retain

Flags-of :
    {byte : ℕ}
    → bit_and byte 0xF0 ≡ cmd_publish
    → Flags byte
        (bit_and byte 0x06 / 2)
        (ltb 0 (bit_and byte flag_duplicate))
        (ltb 0 (bit_and byte flag_retain))
Flags-of e = record { command = e; qos_bits = refl; duplicate_bit = refl; retain_bit = refl }

abbrev header : ℕ → Bool → Bool → ℕ
header qos duplicate retain =
    let h0 = if duplicate then bit_or cmd_publish flag_duplicate else cmd_publish in
    let h1 = if ltb 0 qos then bit_or h0 (qos * 2 % 2 ^ 8) else h0 in
    if retain then bit_or h1 flag_retain else h1

header-Flags :
    (qos : ℕ) (duplicate retain : Bool)
    → qos < 4
    → Flags (header qos duplicate retain) qos duplicate retain
header-Flags zero false false h = Flags-of refl
header-Flags zero false true h = Flags-of refl
header-Flags zero true false h = Flags-of refl
header-Flags zero true true h = Flags-of refl
header-Flags (suc zero) false false h = Flags-of refl
header-Flags (suc zero) false true h = Flags-of refl
header-Flags (suc zero) true false h = Flags-of refl
header-Flags (suc zero) true true h = Flags-of refl
header-Flags (suc (suc zero)) false false h = Flags-of refl
header-Flags (suc (suc zero)) false true h = Flags-of refl
header-Flags (suc (suc zero)) true false h = Flags-of refl
header-Flags (suc (suc zero)) true true h = Flags-of refl
header-Flags (suc (suc (suc zero))) false false h = Flags-of refl
header-Flags (suc (suc (suc zero))) false true h = Flags-of refl
header-Flags (suc (suc (suc zero))) true false h = Flags-of refl
header-Flags (suc (suc (suc zero))) true true h = Flags-of refl
header-Flags (suc (suc (suc (suc q)))) d r h = absurd (omega arith)

-- The command byte of a packet whose QoS fits its two bits holds exactly the packet's flags.
pub fixed_header-Flags :
    (p : Publish) → p.topic.qos < 4 → Flags (fixed_header p) p.topic.qos p.duplicate p.retain
unfolding fixed_header
fixed_header-Flags p h = header-Flags p.topic.qos p.duplicate p.retain h
