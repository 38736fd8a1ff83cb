-- ===== src/Packets/ConnAck/Reads.antt =====
-- ReadFrom of ConnAck reads back what MarshalBinary wrote behind the command byte.
use mqttie.Prelude.{ℕ, ◌≡◌, refl, List, [], ◌∷◌, false, if◌then◌else◌, Bool-cases, inl, inr}
use mqttie.Go.Outcome.{ok}
use mqttie.Go.Slice.{make}
use mqttie.Go.Stream.{Reader}
use mqttie.Go.Stream.Reads.{Buffered, Reads, Reads-pure, Reads->>=, Reads-read}
use mqttie.Packets.Frame.{cmd_conn_ack}
use mqttie.Packets.ConnAck.{ConnAck, marshal_binary, read_from}

abbrev pub body : ConnAck → List ℕ
body c = 2 ∷ (if c.session_present then 1 else 0) ∷ c.return_code ∷ []

pub marshal_binary_lem : (c : ConnAck) → marshal_binary c ≡ ok (cmd_conn_ack ∷ body c)
unfolding marshal_binary
marshal_binary_lem c = refl

-- The receiver starts with the flag cleared, as PacketIO's does.
pub Reads-read_from :
    {R : Reader} (B : Buffered R) (c d : ConnAck)
    → d.version ≡ c.version
    → d.session_present ≡ false
    → Reads B (read_from R d) (body c) c
unfolding read_from
Reads-read_from B c d e f =
    Reads->>= B _ (Reads-read B (make 3) (body c) refl) (elim (Bool-cases c.session_present) [
      | inl set ↦ rw set (rw e (Reads-pure B _))
      | inr unset ↦ rw unset (rw (e, f) (Reads-pure B _))
    ])
