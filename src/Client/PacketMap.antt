-- ===== src/Client/PacketMap.antt =====
-- packetMap of client/utils.go: the pending packets by identifier. The mutex makes each method one step.
pub mod Laws
use mqttie.Prelude.{ℕ, List, [], Option, Bool, true, false, if◌then◌else◌}
use mqttie.Packets.PacketIo.{Packet}
use mqttie.Client.IdMap.{lookup, insert, delete, is_some}

pub record PacketMap : Type 0 where
  pub packets : List (ℕ × Packet)

abbrev pub new_packet_map : PacketMap
new_packet_map = record { packets = [] }

unfoldable pub add : ℕ → Packet → PacketMap → PacketMap × Bool
add id packet p =
    if is_some (lookup id p.packets)
    then (p, false)
    else (record { packets = insert id packet p.packets }, true)

unfoldable pub set : ℕ → Packet → PacketMap → PacketMap
set id packet p = record { packets = insert id packet p.packets }

unfoldable pub get : ℕ → PacketMap → Option Packet
get id p = lookup id p.packets

unfoldable pub del : ℕ → PacketMap → PacketMap
del id p = record { packets = delete id p.packets }
