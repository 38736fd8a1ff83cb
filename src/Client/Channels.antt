-- ===== src/Client/Channels.antt =====
-- The buffers of the channels on which callers wait. Each has room for one packet, as
-- `make(chan packets.Packet, 1)` in packetChanMap.New.
use mqttie.Prelude.{
  List, [], ◌∷◌, Option, none, some, Bool, true, false, ◌&&◌, ◌==◌, if◌then◌else◌, All, Bool-cases,
  inl, inr,
}
use mqttie.Packets.PacketIo.{Packet}
use mqttie.Client.PacketChanMap.{Chan}

-- The same channel.
abbrev pub chan_eq : Chan → Chan → Bool
chan_eq a b = a.made_for == b.made_for && a.serial == b.serial

-- The packets that wait in the channels; a channel without one is empty.
abbrev pub Buffers : Type 0
Buffers = List (Chan × Packet)

unfoldable pub held : Chan → Buffers → Option Packet
held c [] = none
held c ((d, p) ∷ bs) = if chan_eq d c then some p else held c bs

-- The channel is emptied, by a receive or because it is new.
unfoldable pub clear : Chan → Buffers → Buffers
clear c [] = []
clear c ((d, p) ∷ bs) = let rest = clear c bs in if chan_eq d c then rest else (d, p) ∷ rest

-- `select { case c <- packet: default: }`: the packet is lost where the channel is full.
unfoldable pub offer : Chan → Packet → Buffers → Buffers × Bool
offer c p bs = elim (held c bs) [ some q ↦ (bs, false) | none ↦ ((c, p) ∷ bs, true) ]

module _ (P : Chan × Packet → Type 0) where
  pub All-clear : (c : Chan) (bs : Buffers) → All P bs → All P (clear c bs)
  unfolding clear
  All-clear c [] h = tt
  All-clear c ((d, p) ∷ bs) h = elim (Bool-cases (chan_eq d c)) [
    | inl same ↦ rw same (All-clear c bs h.1)
    | inr other ↦ rw other (h.0, All-clear c bs h.1)
  ]
