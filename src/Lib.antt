-- ===== src/Lib.antt =====
-- An MQTT 3.1.1 broker in Go: the framing of packets, the packet formats, the allocator of packet
-- IDs, the stores of sessions and will messages, the tree of topic filters, the connections, and the
-- handlers of the packets over all of these.
--
-- The parts and how they interact. A connection is read by internal/mqtt, which cuts it into packets
-- (`ReadPacket`). internal/server hands each packet to the parser of its type in internal/packet,
-- whose handlers call internal/database: sessions, subscriptions, packet IDs. What a handler returns
-- is written to the connection, and a PUBLISH for another client goes out by internal/connection.
--
-- Which file models what:
--   Errors          the error messages of all packages, one constructor each
--   Mqtt/PacketType internal/mqtt/mqtt_types.go: PacketType, its tables; ValidateFlags
--   Mqtt/Conn       ReadBytes, ReadByte of internal/mqtt/mqtt_utils.go, and Go's io.ReadFull
--   Mqtt/Length     DecodeRemainingLength, EncodeRemainingLength
--   Mqtt/Frame      FixedHeader, Payload, Packet; ReadPacket, UInt16ToByte, CheckRemainingLength
--   Packet/Reader   internal/packet/packet_utils.go: the reads of a packet body
--   Packet/Publish  internal/packet/publish.go: NewPublishPacket, ParsePublishPacket, the answers
--   Packet/Connect  internal/packet/connect.go: NewConnectAckPacket, ParseConnectPacket
--   Packet/Subscribe  internal/packet/subscribe.go and unsubscribe.go: parsers and answers
--   Database/Types, Database/Session  database_types.go and session_data.go of internal/database
--   Database/PacketId  internal/database/packet_id.go
--   Database/Store  internal/database/database_store.go: GetSession, SaveSession, DeleteSession
--   Database/Wills  database_store.go: GetWillMessage, SaveWillMessage, DeleteWillMessage
--   Database/Tree   internal/database/subscription_tree.go: nodes, insertion, deletion, matching
--   Handlers        the methods of SessionData that touch the store and the tree
--   Handlers/Subscribe  HandleSubscribePacket, HandleUnSubscribePacket, HandleDisconnectPacket
--   Handlers/Connect    HandlerConnectPacket
--   Handlers/Publish    HandlePublishPacket and the handlers for each QoS
--   Connection      internal/connection: ConnectionManager, SendMessage, Send
--   Server          internal/server/connection_handler.go: handleFirstPacket; internal/packet/ping.go
--   Server/Loop     connection_handler.go: handlePacket, handleConnection
--   Server/Accept   internal/server/server.go: StartServer and its semaphore, as events in any order
--   Database/AllSessions  database_store.go: GetAllSession
--   Grpc            internal/grpc/grpc_service.go: GetAllDevices, SetDevicesState
--   Event           internal/event/cleaner.go: Cleaner, with Add, Clean and Init
--   Utils           internal/utils/time_utils.go: ParseStringTime
--   Database/Connect  internal/database/database.go: ConnectDatabase
--   Logger          internal/logger/logger.go: levels, lines, the file of the day
--   Logger/Queue    logger.go: the channel and its worker, Write, Handle, Close
--   Config          internal/config/config.go: ReadConfig, GetConfig
--   Database/Services  what the store calls outside the repository, with its laws
-- A function keeps its Go name, in snake case. The modules below a file hold what is proved of it;
-- those named Spec hold a second description, on the unread bytes alone, of what the parsers return.
-- The modules named Tests run the code on concrete input.
--
-- How Go is written here. A byte is a number below 256 (`AllBytes`), a string is the list of its
-- bytes, and a conversion `byte(n)` or `uint16(n)` is a remainder. A result `(value, error)` is `ok`
-- or `err`; a run-time panic is `panic`. A connection is the list of the
-- bytes that still come and the error that ends it; a read blocks until a byte or the end is there.
-- `ReadBytes` is only ever called for one byte. A value that comes with an error is dropped where no
-- caller looks at it. `len` and `int` are unbounded: no value of the code nears 2 ^ 63.
-- A negative remaining length, which no caller passes, is not distinguished from 0.
--
-- Bounds and fuel. `DecodeRemainingLength` and `EncodeRemainingLength` run at most four rounds, as
-- the source does. The loops of ParseSubscribePacket and ParseUnSubscribePacket have as fuel the
-- length of the body; each round reads a byte or more, and a loop that ran out of it would be `stuck`.
--
-- Sessions are shared by pointer: `Store` holds a heap of session objects, the map of temporary
-- sessions and the cache hold references, and the collection holds copies. The collection and the
-- cache are parameters (`Services`): an entry of the cache may vanish at any call and any call of
-- the collection may fail. The key that `range` meets first in a map is an argument of `next_id`.
--
-- The tree of topic filters has its collection, its cache and the making of document IDs as a
-- parameter too (`TopicServices`); a query that fails is a node that is not there, and a node is a
-- value. A nil node that `MatchTopic` would look at is a `panic`. Where insertion and matching follow
-- each other, the collection returns under a path the node that was last put there, and what was
-- removed from the cache is not in it (`TopicLaws`).
--
-- The network is a parameter with the contract of `Write` (`NetServices`). `Send` has as fuel the
-- number of its bytes: a write that does not fail takes all it is given. The handlers for QoS 1 and 2
-- share the loop `deliver` with the one for QoS 0, which takes no packet IDs; the choice that each
-- call of `next_id` makes is an argument.
--
-- A connection is handled as one function of the bytes that arrive, with their number as its fuel: a
-- packet takes two at least. What other connections do meanwhile is not interleaved with it; only the
-- goroutines of StartServer are events in any order. A read deadline is the time it was given; that
-- it passes is one of the errors which may end the bytes. A panic has no state, since nothing
-- recovers from it and it ends the program.
--
-- The callbacks of the cleaner are parameters, with the world that they change; the calls of Add and
-- Clean are events in the order in which they take the lock. A duration is a number below 2 ^ 64
-- with the bits of its int64. A cursor over a collection is the list of what it decodes.
--
-- The logger's goroutines are events in any order on one channel (`LogQueue`), and what a write to
-- stdout or to the log file results in is part of the event. The file system, encoding/json and the
-- driver of MongoDB are parameters (`LogServices`, `ConfigServices`, `Driver`), which may fail at
-- every call; `ConfigLaws` is what the configuration file of the first start relies on.
--
-- Not modelled: which calls of the other packages log what, the generated gRPC code, the pool monitor
-- of the driver and the main program, which only calls the other parts in turn.
pub mod Prelude
pub mod Errors
pub mod Mqtt
pub mod Database
pub mod Packet
pub mod Connection
pub mod Handlers
pub mod Server
pub mod Utils
pub mod Event
pub mod Grpc
pub mod Logger
pub mod Config
