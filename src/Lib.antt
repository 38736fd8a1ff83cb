-- ===== src/Lib.antt =====
-- mqttie is an MQTT client in Go: the packages mqtt (constants and errors), x/util (the
-- encodings of the MQTT data types), packets (one struct for each control packet, with
-- MarshalBinary, WriteTo and ReadFrom, and PacketIO, which sends and receives them on a
-- connection) and client (the client itself). A packet is marshalled into one buffer and
-- written by Send; Recv reads the command byte, picks the struct, and its ReadFrom takes the
-- rest from the connection. The client keeps packets that wait for an acknowledgement and
-- channels of the callers that wait for an answer, both by packet identifier, and its
-- subscriptions in a map of maps.
--
-- Files:
-- - Prelude: Boolean tests, lists and bits over the native numbers. Go: what the code uses of
--   the Go language and its library. Go/Outcome has a value, an error, a panic, or `stuck` for
--   a loop that needs more rounds than the model gives it; Go/Slice has the buffers, with the
--   index panics of encoding/binary and the slices that copy and the Put functions write to;
--   Go/Encoder has the code that fills a buffer from an index on; Go/Stream has io.Reader and
--   io.Writer as parameters, with actions that count the bytes they move.
-- - Mqtt: mqtt/mqtt.go.
-- - Util/Varint, Util/Utf8, Util/Value: x/util/utils.go. EncodeValue and ReadValue switch on
--   the type of their argument, and have one definition for each type here.
-- - Packets/Publish, PubAck, PubRec, PubRel, PubComp: packets/publish.go. Packets/Subscribe,
--   SubAck, Unsubscribe, UnsubAck: packets/subscribe.go. Packets/PingReq, PingResp:
--   packets/ping.go. Packets/Connect, ConnAck, Disconnect: packets/connect.go. Each has the
--   struct as a record and marshal_binary, write_to and read_from for its methods;
--   Packets/Connect/Length has computeFlagsAndLen and what it calls, Packets/Connect/Marshal
--   the writers, Packets/Connect/Read the readers. Packets/Connect/Bytes has the bytes that
--   MQTT wants for such a packet. Packets/Frame has what the packets share.
-- - Packets/PacketIo: packets/io.go, with the Packet interface as a data type.
-- - Packets/PacketIo/Link: the struct PacketIO of packets/io.go, on a Go/Conn, which is
--   net.Conn as a parameter.
-- - Client/PacketMap, Client/PacketChanMap, Client/SubMap: client/utils.go. Client/PacketId:
--   aquirePacketID of client/client_internal.go as a function of the two maps. Client/Options:
--   client/options.go.
-- - Client/State: the struct Client and NewClient of client/client.go. Client/Actions: what the
--   code does to that state, one operation at a time: `exec` calls the definition of a method
--   of a map, of Send, Recv or Close, and gives the meaning of the operations of Go on a
--   channel, a select or the counter; it stands for no lines of its own. Client/Channels has
--   the channels made for callers. Client/Prog: the code of a goroutine as a sequence of such
--   operations. Client/Receive: recvRoutine of client/client_internal.go. Client/Calls: the
--   methods of client/client.go and aquirePacketID. Client/System: the goroutine of recvRoutine
--   and those of the user together; a step is one operation of one of them or a new call, and
--   Client/System/Run has the runs of a schedule.
-- - Client/Logic: invariants of that system, by a contract for each operation that all code
--   meets. Client/Tables: the contract and the invariant of the client. Client/Answered: calls
--   that are answered. Client/Delivery: QoS 2 packets from the server. Client/Stranded,
--   Client/Faults: what the client does not handle.
-- - Tests: connections in memory and concrete inputs.
--
-- Conventions: a byte, a uint16 and a uint32 are natural numbers, and wrap where the code
-- converts or adds them; int and int64 do not wrap, since no length comes near 2 ^ 63. A string
-- is the list of its bytes. A Go map is an association list; the order in which `range` visits
-- it is the order of the list. A method that changes its receiver takes it and returns it;
-- where the code returns an error the receiver is dropped, as Recv drops it.
--
-- Interleaving: each operation on a map, a channel, the counter or the connection is one step.
-- A Go select and the sends and receives on channels are steps that are possible or not; which
-- of two ready cases is taken, whether a subscriber's channel has room, the time and what
-- uuid.NewV4 returns is decided in each step by its environment, `Env`. A channel that Publish,
-- Subscribe or Unsubscribe waits on holds one packet, and is known by the identifier it was
-- made for and a serial number.
--
-- Parameters: the connection (io.Reader: a read delivers at most as many bytes as it is asked
-- for, perhaps fewer or none, perhaps with an error), the writer, the deadline of the
-- connection, and the identifier that uuid.NewV4 returns. `Buffered` says that a reader
-- delivers what has arrived as far as it is asked for; `ByteReader` that what it delivers is
-- bytes.
--
-- Fuel: a topic takes two bytes of the remaining length, so ReadFrom of Subscribe and
-- Unsubscribe gives its loop as many rounds as the length has bytes; a property takes one byte;
-- GetUvarintLen has ten rounds, which a uint64 needs at most; Get of the subscriptions has the
-- depth of the map. The loop in which ReadFrom of Connect drains the connection has no bound in
-- the code, and its fuel is an argument, of Recv and of the system too.
--
-- Not modelled: what is logged; the mutexes, since each method of a map and each Send and Recv
-- is one step, and the memory model of Go, under which Subscribe and recvRoutine access the
-- subscriptions without a lock; how a deadline comes to pass, which is the connection's own; a
-- subscriber's channel that is nil; the texts of errors.
pub mod Prelude
pub mod Mqtt
pub mod Go
pub mod Util
pub mod Packets
pub mod Client
pub mod Tests
