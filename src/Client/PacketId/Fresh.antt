-- ===== src/Client/PacketId/Fresh.antt =====
-- An identifier that aquirePacketID returns is free.
use mqttie.Prelude.{
  ℕ, zero, suc, ◌+◌, ◌-◌, ◌%◌, ◌^◌, ◌<◌, ◌≡◌, Bool, false, none, arith, Bool-cases, inl, inr,
}
use mqttie.Go.Outcome.{ok}
use mqttie.Client.PacketMap
use mqttie.Client.PacketMap.{PacketMap}
use mqttie.Client.PacketChanMap
use mqttie.Client.PacketChanMap.{PacketChanMap}
use mqttie.Client.PacketId.{in_use, attempts, aquire_packet_id}

attempts-unused :
    (used : ℕ → Bool) (rounds counter id : ℕ)
    → (attempts used rounds counter).0 ≡ ok id
    → (used id ≡ false) × (id < 2 ^ 16) × ((attempts used rounds counter).1 % 2 ^ 16 ≡ id)
unfolding attempts
attempts-unused used zero counter id h = cc
attempts-unused used (suc rounds) counter id h =
    elim (Bool-cases (used ((counter + 1) % 2 ^ 32 % 2 ^ 16))) [
      | inl taken ↦
          rw taken (attempts-unused used rounds ((counter + 1) % 2 ^ 32) id (rw taken at h))
      | inr unused ↦ ground arith
    ]

in_use-false :
    (pending : PacketMap) (acks : PacketChanMap) (id : ℕ)
    → in_use pending acks id ≡ false
    → (PacketMap.get id pending ≡ none) × (PacketChanMap.get id acks ≡ none)
unfolding in_use
in_use-false pending acks id h = ground arith

-- An identifier that is returned is a uint16, belongs to no pending packet and to no caller who waits
-- for an answer, and is what the counter shows afterwards.
pub aquire_packet_id-fresh :
    (pending : PacketMap) (acks : PacketChanMap) (counter id : ℕ)
    → (aquire_packet_id pending acks counter).0 ≡ ok id
    → (PacketMap.get id pending ≡ none)
      × (PacketChanMap.get id acks ≡ none)
      × (id < 2 ^ 16)
      × ((aquire_packet_id pending acks counter).1 % 2 ^ 16 ≡ id)
unfolding aquire_packet_id
aquire_packet_id-fresh pending acks counter id h =
    let (unused, small, shown) = attempts-unused (in_use pending acks) (2 ^ 16 - 1) counter id h in
    let (no_packet, no_chan) = in_use-false pending acks id unused in
    (no_packet, no_chan, small, shown)
