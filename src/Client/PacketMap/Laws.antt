-- ===== src/Client/PacketMap/Laws.antt =====
-- What Get returns after each of the other methods.
use mqttie.Prelude.{ℕ, ◌≡◌, ◌∙◌, none, some, arith, ◌==◌, if◌then◌else◌}
use mqttie.Packets.PacketIo.{Packet}
use mqttie.Client.IdMap.{lookup-insert, lookup-delete}
use mqttie.Client.PacketMap.{PacketMap, set, get, del}

pub get-set :
    (k j : ℕ) (packet : Packet) (p : PacketMap)
    → get j (set k packet p) ≡ (if k == j then some packet else get j p)
unfolding get set
get-set k j packet p = lookup-insert k j packet p.packets

pub get-del : (k j : ℕ) (p : PacketMap) → get j (del k p) ≡ (if k == j then none else get j p)
unfolding get del
get-del k j p = lookup-delete k j p.packets

pub get-del_same : (k : ℕ) (p : PacketMap) → get k (del k p) ≡ none
get-del_same k p = get-del k k p ∙ ground arith

pub get-set_same : (k : ℕ) (packet : Packet) (p : PacketMap) → get k (set k packet p) ≡ some packet
get-set_same k packet p = get-set k k packet p ∙ ground arith
