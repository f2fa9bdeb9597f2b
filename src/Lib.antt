-- ===== src/Lib.antt =====
-- The game server: models of its network, timer and logic code, with the theorems about them.
--
-- Parts, and the files that model them (paths from the repository's root):
--   Wire          network/unpack.h: PackInt, UnpackInt, PackProtobufStruct
--   Memory        network/packet_pool.h: ST_PacketMemory, CPacketMemoryPool
--   Packet        network/packet.h: NetPacketBuffer; PacketBufferSend of both client contexts
--   Queue         network/queue.h: NetPacketQueue
--   Network       network/context.h: ST_ClientContextBuffer (Network/Buffer), the look at the front of
--                 the bytes (Network/Framing), NetworkContext and UnpackPacketToRecvQueue
--   Clients       network/context.h: ClientContextPool, with the contexts of
--                 network/libevent/libevent_ctx.h and network/socket/socket_ctx.h
--   Timer         common/timer.cpp: the timing wheel (Timer/Wheel), its lists as lists of nodes;
--                 TimerUpdate (Timer/Wheel/Clock); GameTimer and TimerQueue (Timer/Service),
--                 _GenerateHandleID (Timer/Handles)
--   Server        network/context.h: ExecuteCmdSendAllPacket of ServerContext and ConnectorContext
--   Handlers      ServerContext with ExecuteCmdRecvAllPacket; network/socket/server_logic.cpp and
--                 PacketBufferRead of network/socket/socket_ctx.h (Handlers/Socket)
--   Handlers/Libevent   network/libevent/libevent_handle.cpp and PacketBufferRead of
--                 network/libevent/libevent_ctx.h
--   Connector     network/connector.h and network/connector.cpp: the life of a connector and its libevent
--                 objects, its commands (Connector/Commands) and the pool (Connector/Pool)
--   Address       network/defines.h: ST_ServerIPInfo
--   Signal        common/signal.cpp: ST_GameSingnal
--   Logic         service/gamesvr/gamelogic.cpp and service/gamesvr/net/handle.cpp: the rounds of the logic
--                 thread for the main and the proxy server, their interleaving with the network thread
--                 (Logic/Wakeup), and a client's bytes through all three parts (Logic/Replies)
--   Config        common/conf/config.cpp: GameConf and its LineScanner; the lines that fgets reads
--                 (Config/Lines)
--   Uuid          common/utils/uuid.h: SnowFlakeUUID
-- Prelude holds the shared types and lemmas.
--
-- A packet's way: a client's bytes are appended to its buffer; UnpackPacketToRecvQueue makes packets of
-- the whole frames, each with a memory from the pool, and moves them to the receive queue; the logic
-- thread takes that queue over, and its replies go through the send queues back to the client.
--
-- Conventions. A C++ object is a record and a method returns the new record. int32_t sizes that are
-- never negative are numbers, int16_t values read from the wire are signed. Each section under a
-- spinlock is one step. Clock readings, sequence numbers from the clock and serialised messages are
-- arguments. A failed assertion is none. Loops of unknown length take fuel, of which
-- there is enough where each round consumes bytes, packets or readings of the clock. The timing
-- wheel's uint32_t times wrap at 2 ^ 32; a callback that is dispatched adds no node to the list being
-- dispatched. A round of the logic thread runs without a step of the network thread in it; Logic/Wakeup
-- interleaves the steps on the receive queue, where a frame is not bad.
--
-- bufferevent_read of libevent, fgets of the C library and the classes that protobuf generates are
-- parameters, the first two with their documented behaviour as hypotheses. Their argument
-- `input` gives the bytes that are left of a connection or a file.
--
-- Not modelled: the logic thread's loop with the callbacks of timers and connectors in it, a connector's
-- StartMainLoop, which calls HeartBeat and libevent's loop in turn, the start of the servers, the
-- conversions strtol and strtod of the configuration's numbers, logging, sockets and event loops
-- themselves, protobuf, and the copies of other projects' libraries (the socket server, kfifo).
pub mod Prelude
pub mod Wire
pub mod Memory
pub mod Packet
pub mod Queue
pub mod Network
pub mod Clients
pub mod Timer
pub mod Server
pub mod Handlers
pub mod Uuid
pub mod Connector
pub mod Address
pub mod Signal
pub mod Logic
pub mod Config
