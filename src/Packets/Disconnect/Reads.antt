-- ===== src/Packets/Disconnect/Reads.antt =====
-- ReadFrom of Disconnect reads back what MarshalBinary wrote behind the command byte.
use mqttie.Prelude.{◌≡◌, refl, [], ◌∷◌}
use mqttie.Go.Slice.{make}
use mqttie.Go.Stream.{Reader}
use mqttie.Go.Stream.Reads.{Buffered, Reads, Reads-pure, Reads->>=, Reads-read_raw}
use mqttie.Packets.Disconnect.{Disconnect, read_from}

pub Reads-read_from :
    {R : Reader} (B : Buffered R) (d e : Disconnect)
    → e.version ≡ d.version
    → Reads B (read_from R e) (0 ∷ []) d
unfolding read_from
Reads-read_from B d e h =
    Reads->>= B _ (Reads-read_raw B (make 1) (0 ∷ []) refl) (rw h (Reads-pure B d))
