-- ===== src/Client/PacketChanMap/Laws.antt =====
-- What Get returns after New and Del.
use mqttie.Prelude.{ℕ, ◌≡◌, none, some, true, false, arith, ◌==◌, if◌then◌else◌}
use mqttie.Client.IdMap.{lookup-insert, lookup-delete, is_some}
use mqttie.Client.PacketChanMap.{Chan, PacketChanMap, new, get, del}

pub get-del : (k j : ℕ) (p : PacketChanMap) → get j (del k p) ≡ (if k == j then none else get j p)
unfolding get del
get-del k j p = lookup-delete k j p.chans

-- New keeps the channel that it is given and answers true exactly where there is none, and else changes
-- nothing.
pub get-new :
    (k j : ℕ) (made : Chan) (p : PacketChanMap)
    → (get j (new k made p).0
        ≡ (if is_some (get k p) then get j p else if k == j then some made else get j p))
      × ((new k made p).1 ≡ (if is_some (get k p) then false else true))
unfolding get new
get-new k j made p = (ground (arith, lookup-insert k j made p.chans), ground arith)
