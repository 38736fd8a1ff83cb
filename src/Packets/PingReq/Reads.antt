-- ===== src/Packets/PingReq/Reads.antt =====
-- ReadFrom of PingReq reads back what MarshalBinary wrote behind the command byte.
use mqttie.Prelude.{◌≡◌, refl, [], ◌∷◌}
use mqttie.Go.Slice.{make}
use mqttie.Go.Stream.{Reader}
use mqttie.Go.Stream.Reads.{Buffered, Reads, Reads-pure, Reads->>=, Reads-read}
use mqttie.Packets.PingReq.{PingReq, read_from}

pub Reads-read_from :
    {R : Reader} (B : Buffered R) (p q : PingReq)
    → q.version ≡ p.version
    → Reads B (read_from R q) (0 ∷ []) p
unfolding read_from
Reads-read_from B p q e =
    Reads->>= B _ (Reads-read B (make 1) (0 ∷ []) refl) (rw e (Reads-pure B p))
