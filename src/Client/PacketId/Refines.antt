-- ===== src/Client/PacketId/Refines.antt =====
-- A goroutine that runs aquirePacketID with no other in between does what the sequential definition says.
use mqttie.Prelude.{ℕ, zero, suc, ◌+◌, ◌-◌, ◌%◌, ◌^◌, ◌≡◌, refl, Bool-cases, inl, inr, ◌∙◌}
use mqttie.Go.Conn.{Conn}
use mqttie.Client.IdMap.{is_some}
use mqttie.Client.PacketMap
use mqttie.Client.PacketChanMap
use mqttie.Client.State.{Client}
use mqttie.Client.Actions.{Env, exec}
use mqttie.Client.Prog.{alone, alone-then, alone-else}
use mqttie.Client.Calls
use mqttie.Client.PacketId.{in_use, attempts, aquire_packet_id}

module _ (C : Conn) (fuel : ℕ) where
  attempts-alone :
      (rounds : ℕ) (envs : ℕ → Env) (c : Client C)
      → let r = attempts (in_use c.pending_packets c.ack_chan) rounds c.packet_id_counter in
        alone C fuel envs (Calls.attempts rounds) c ≡ (r.0, record c { packet_id_counter = r.1 })
  unfolding alone Calls.attempts attempts exec in_use
  attempts-alone zero envs c = refl
  attempts-alone (suc rounds) envs c =
      let counter = (c.packet_id_counter + 1) % 2 ^ 32 in
      elim (Bool-cases (is_some (PacketMap.get (counter % 2 ^ 16) c.pending_packets))) [
        | inl taken ↦
            alone-then C fuel _ _ _ _ _ taken
            ∙ rw taken (attempts-alone rounds _ (record c { packet_id_counter = counter }))
        | inr unused ↦
            alone-else C fuel _ _ _ _ _ unused
            ∙ elim (Bool-cases (is_some (PacketChanMap.get (counter % 2 ^ 16) c.ack_chan))) [
              | inl waits ↦
                  alone-then C fuel _ _ _ _ _ waits
                  ∙ rw (unused, waits)
                      (attempts-alone rounds _ (record c { packet_id_counter = counter }))
              | inr free ↦ alone-else C fuel _ _ _ _ _ free ∙ rw (unused, free) refl
            ]
      ]

  -- aquirePacketID, run by one goroutine with no other in between, returns the identifier or panics as
  -- the sequential definition does, leaves its counter, and changes nothing else.
  pub aquire_packet_id-alone :
      (envs : ℕ → Env) (c : Client C)
      → let r = aquire_packet_id c.pending_packets c.ack_chan c.packet_id_counter in
        alone C fuel envs Calls.aquire_packet_id c ≡ (r.0, record c { packet_id_counter = r.1 })
  unfolding aquire_packet_id Calls.aquire_packet_id
  aquire_packet_id-alone envs c = attempts-alone (2 ^ 16 - 1) envs c
