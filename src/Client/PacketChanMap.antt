-- ===== src/Client/PacketChanMap.antt =====
-- packetChanMap of client/utils.go: the channel on which a caller waits, by the identifier of its packet.
-- The mutex makes each method one step.
pub mod Laws
use mqttie.Prelude.{ℕ, List, [], Option, Bool, true, false, if◌then◌else◌}
use mqttie.Client.IdMap.{lookup, insert, delete, is_some}

-- A reference to a channel: the identifier that it was made for, and a number that tells it from the
-- other channels made for that identifier.
pub record Chan : Type 0 where
  pub made_for : ℕ
  pub serial : ℕ

pub record PacketChanMap : Type 0 where
  pub chans : List (ℕ × Chan)

abbrev pub new_packet_chan_map : PacketChanMap
new_packet_chan_map = record { chans = [] }

-- New; `made` is what make returns.
unfoldable pub new : ℕ → Chan → PacketChanMap → PacketChanMap × Bool
new id made p =
    if is_some (lookup id p.chans)
    then (p, false)
    else (record { chans = insert id made p.chans }, true)

unfoldable pub get : ℕ → PacketChanMap → Option Chan
get id p = lookup id p.chans

unfoldable pub del : ℕ → PacketChanMap → PacketChanMap
del id p = record { chans = delete id p.chans }
