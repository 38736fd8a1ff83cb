-- ===== src/Client/State.antt =====
-- The struct Client of client/client.go, and NewClient.
use mqttie.Prelude.{ℕ, ◌+◌, ◌*◌, List, [], ◌∷◌, Option, none, some}
use mqttie.Prelude.Int.{ℤ, pos}
use mqttie.Mqtt.{Error, mqtt_v311}
use mqttie.Go.Conn.{Conn}
use mqttie.Packets.PingResp.{PingResp}
use mqttie.Packets.ConnAck.{ConnAck}
use mqttie.Packets.PacketIo.Link.{PacketIo, new_packet_io}
use mqttie.Client.Options.{ClientOptions}
use mqttie.Client.PacketMap.{PacketMap, new_packet_map}
use mqttie.Client.PacketChanMap.{PacketChanMap, new_packet_chan_map}
use mqttie.Client.Channels.{Buffers}
use mqttie.Client.SubMap.{SubMap, empty}

-- The channels errChan, pingResp and connAck have room for one value. `serial` numbers the channels
-- made for callers, whose contents `buffers` holds; `delivered` lists the payloads sent to subscribers,
-- last to first. A time is a number of seconds, and `none` the zero time.
pub record Client (C : Conn) : Type 0 where
  pub client_id : List ℕ
  pub version : ℕ
  pub pending_packets : PacketMap
  pub packet_id_counter : ℕ
  pub expires_at : Option ℕ
  pub io : PacketIo C
  pub err_chan : Option Error
  pub subs : SubMap
  pub ping_resp : Option PingResp
  pub ack_chan : PacketChanMap
  pub serial : ℕ
  pub buffers : Buffers
  pub conn_ack : Option ConnAck
  pub delivered : List (ℕ × List ℕ)

-- The loop over the options of NewClient, which keeps version, identity and timeout.
abbrev pub or_old {ℓ} : {A : Type ℓ} → Option A → A → A
or_old none old = old
or_old (some new) old = new

unfoldable pub apply_options : List (Option ClientOptions) → ℕ × List ℕ × ℤ → ℕ × List ℕ × ℤ
apply_options [] kept = kept
apply_options (none ∷ options) kept = apply_options options kept
apply_options (some opt ∷ options) (version, id, timeout) =
    apply_options options
      (or_old opt.version version, or_old opt.client_id id, or_old opt.timeout timeout)

-- The counter from the two random bytes of rand.Read, or 0 where it fails.
abbrev pub initial_counter : Option (ℕ × ℕ) → ℕ
initial_counter none = 0
initial_counter (some (low, high)) = low + high * 256

module _ (C : Conn) where
  -- NewClient, without the start of the receive routine. `uuid` is what uuid.NewV4 returns.
  unfoldable pub new_client :
      List ℕ
      → Option (ℕ × ℕ)
      → C.reader.Stream
      → C.writer.Sink
      → List (Option ClientOptions)
      → Client C
  new_client uuid random stream sink options =
      let (version, id, timeout) = apply_options options (mqtt_v311, uuid, pos 0) in
      record {
        client_id = id;
        version = version;
        pending_packets = new_packet_map;
        packet_id_counter = initial_counter random;
        expires_at = none;
        io = new_packet_io C stream sink version timeout;
        err_chan = none;
        subs = empty;
        ping_resp = none;
        ack_chan = new_packet_chan_map;
        serial = 0;
        buffers = [];
        conn_ack = none;
        delivered = [];
      }
