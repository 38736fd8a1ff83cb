-- ===== src/Client/Options/Will.antt =====
-- What Connect of client/client.go takes from its options.
use mqttie.Prelude.{ℕ, ◌≡◌, refl, List, [], ◌∷◌, Option, none, some, false}
use mqttie.Packets.Connect.{Connect}
use mqttie.Client.Options.{ConnectOptions}
use mqttie.Client.Calls.{connect_options, connect_request}

options-will :
    (options : List (Option ConnectOptions)) (conn : Connect)
    → let p = connect_options options conn in
      (p.will_topic ≡ conn.will_topic)
      × (p.will_message ≡ conn.will_message)
      × (p.will_retain ≡ conn.will_retain)
unfolding connect_options
options-will [] conn = (refl, refl, refl)
options-will (none ∷ options) conn = options-will options conn
options-will (some opt ∷ options) conn = options-will options _

-- The packet of Connect has no will, whatever options it is given, those with a will topic and a will
-- message included.
pub connect_request-will :
    (v : ℕ) (id : List ℕ) (options : List (Option ConnectOptions))
    → let p = connect_request v id options in
      (p.will_topic ≡ record { name = []; qos = 0 })
      × (p.will_message ≡ [])
      × (p.will_retain ≡ false)
unfolding connect_request
connect_request-will v id options = options-will options _
