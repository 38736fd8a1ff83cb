-- ===== src/Packets/PacketIo/Ends.antt =====
-- Recv on any connection: every packet but Connect is read to its end.
use mqttie.Prelude.{◌+◌, ◌<◌, ◌^◌}
use mqttie.Go.Stream.{Io}
use mqttie.Go.Stream.Ensures.{Ensures}
use mqttie.Packets

-- An action that returns a packet of less than 2 ^ 28 + 4 bytes, or an error.
abbrev Bounded : {S A : Type 0} → Io S A → Type 0
Bounded m = Ensures m (λ n a. n < 2 ^ 28 + 4)
