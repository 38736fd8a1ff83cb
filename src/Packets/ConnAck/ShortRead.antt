-- ===== src/Packets/ConnAck/ShortRead.antt =====
-- ReadFrom of ConnAck when the three bytes arrive in parts.
use mqttie.Prelude.{◌≡◌, [], ◌∷◌, none}
use mqttie.Go.Outcome.{ok}
use mqttie.Go.Slice.{overlay}
use mqttie.Go.Stream.{Reader, ◌>>=◌, read}
use mqttie.Packets.ConnAck.{ConnAck, accepted, read_from}

-- Where Read delivers only the length byte, ReadFrom returns no error and the code of an accepted
-- connection, whatever code the server has sent; that code is still on the connection.
pub read_from_short_read :
    (R : Reader) (s s' : R.Stream) (c : ConnAck)
    → R.read s 3 ≡ record { bytes = 2 ∷ []; error = none; next = s' }
    → read_from R c s ≡ (1, ok (record c { return_code = accepted }), s')
unfolding read_from read ◌>>=◌ overlay
read_from_short_read R s s' c e = rw e
