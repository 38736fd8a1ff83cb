-- ===== src/Client/PacketId.antt =====
-- aquirePacketID of client/client_internal.go. Nothing else changes the two maps while it runs: the
-- model has one caller at a time.
pub mod Fresh
pub mod Total
pub mod Refines
use mqttie.Prelude.{ℕ, zero, suc, ◌+◌, ◌-◌, ◌%◌, ◌^◌, Bool, ◌||◌, if◌then◌else◌}
use mqttie.Go.Outcome.{Outcome, ok, panic}
use mqttie.Client.IdMap.{is_some}
use mqttie.Client.PacketMap
use mqttie.Client.PacketMap.{PacketMap}
use mqttie.Client.PacketChanMap
use mqttie.Client.PacketChanMap.{PacketChanMap}

-- The identifier is taken by a pending packet or by a caller who waits for an answer.
unfoldable pub in_use : PacketMap → PacketChanMap → ℕ → Bool
in_use pending acks id = is_some (PacketMap.get id pending) || is_some (PacketChanMap.get id acks)

-- The rounds left of the loop, with the counter, a uint32 that wraps.
unfoldable pub attempts : (ℕ → Bool) → ℕ → ℕ → Outcome ℕ × ℕ
attempts used zero counter = (panic, counter)
attempts used (suc rounds) counter =
    let counter' = (counter + 1) % 2 ^ 32 in
    let rest = attempts used rounds counter' in
    if used (counter' % 2 ^ 16) then rest else (ok (counter' % 2 ^ 16), counter')

-- The identifier, or the panic, and the counter afterwards; the loop has 65535 rounds.
unfoldable pub aquire_packet_id : PacketMap → PacketChanMap → ℕ → Outcome ℕ × ℕ
aquire_packet_id pending acks counter = attempts (in_use pending acks) (2 ^ 16 - 1) counter
