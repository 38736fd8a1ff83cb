-- ===== src/Packets/Frame/Reads.antt =====
-- The shared parts of the packets: what is written, and what is read back.
use mqttie.Prelude.{ℕ, ◌<◌, ◌^◌, ◌≡◌, refl, [], ◌∷◌}
use mqttie.Go.Outcome.{ok}
use mqttie.Go.Slice.{make, be16}
use mqttie.Go.Slice.Fills.{Fills-put_uint16}
use mqttie.Go.Encoder.Writes.{Writes-emit, Writes-store, Writes->>, marshal_lem}
use mqttie.Go.Stream.{Reader}
use mqttie.Go.Stream.Reads.{Buffered, Reads, Reads-pure, Reads->>=, Reads-read, Reads-eq}
use mqttie.Util.Utf8.RoundTrip.{uint16-be16}
use mqttie.Packets.Frame.{marshal_id, read_id}

pub marshal_id_lem : (command id : ℕ) → marshal_id command id ≡ ok (command ∷ 2 ∷ be16 id)
unfolding marshal_id
marshal_id_lem command id =
    marshal_lem 4
      (Writes->> (Writes-store command)
        (Writes->> (Writes-store 2) (Writes-emit (Fills-put_uint16 id))))
      refl

pub Reads-read_id :
    {R : Reader} (B : Buffered R) (id : ℕ) → id < 2 ^ 16 → Reads B (read_id R) (2 ∷ be16 id) id
unfolding read_id
Reads-read_id B id h = Reads->>= B _ (Reads-read B (make 1) (2 ∷ []) refl) (
    Reads->>= B _ (Reads-read B (2 ∷ 0 ∷ []) (be16 id) refl)
      (Reads-eq B refl (uint16-be16 id h) (Reads-pure B _)))
