-- ===== src/Logic.antt =====
-- service/gamesvr/gamelogic.cpp and service/gamesvr/net/handle.cpp: the logic thread takes the packets that
-- the network thread has received, answers them one by one, and hands the answers to the network thread.
-- The classes that protobuf generates are a parameter. The clock is read twice for each packet at most.
pub mod Answers
pub mod Packets
pub mod Loop
pub mod Servers
pub mod Wakeup
pub mod Replies
mod Examples
use game_server.Prelude.{
  ℕ, zero, suc, ◌+◌, ◌*◌, ◌%◌, List, [], ◌∷◌, ◌++◌, Option, none, some, ◌>>=◌, Bool, true, false,
  ◌&&◌, ltb, ◌==◌, if◌then◌else◌, get_elem?,
}
use game_server.Prelude.Int.{ℤ, pos, negsuc}
use game_server.Memory.{MemoryPool}
use game_server.Packet.{NetPacket, packet_body}
use game_server.Queue.{NetPacketQueue, release_all_packets}
use game_server.Network.{
  NetworkContext, packet_send_prepare, packet_produce_protobuf_packet,
  copy_packets_from_net_to_logic,
}
use game_server.Signal.{check_and_set_signal_actived}
use game_server.Connector.Commands.{send_all}

-- The generated classes: `ParseFromArray`, the fields that are read, and the bytes to which a reply is
-- serialised once its fields are set.
pub record Messages : Type 1 where
  pub CsHello : Type 0
  pub parse_cs_hello : List ℕ → CsHello
  pub id : CsHello → ℤ
  pub content : CsHello → List ℕ
  pub cs_hello_rsp : ℤ → List ℕ → ℕ → ℕ → List ℕ
  pub ss_hello_rsp : ℕ → List ℕ

-- `CS_PROTOCOL_MESSAGE_ID_HELLO`, `SS_PROTOCOL_MESSAGE_ID_HELLO` and `SS_PROTOCOL_MESSAGE_ID_HELLO_RSP`
abbrev pub cs_hello : ℕ
cs_hello = 1

abbrev pub ss_hello : ℕ
ss_hello = 20001

abbrev pub ss_hello_response : ℕ
ss_hello_response = 20002

-- What a handler does with the packet of an index; `none` is a failed assertion.
abbrev pub Handler : Type 0
Handler = ℕ → NetPacket → MemoryPool → NetworkContext → Option (MemoryPool × NetworkContext)

-- The bytes of the reply to a hello: the clock's reading number 2 i is its time of handling.
unfoldable pub cs_hello_reply : Messages → (ℕ → ℕ) → ℕ → NetPacket → List ℕ → List ℕ
cs_hello_reply m clock i k body =
    let hello = m.parse_cs_hello body in
    m.cs_hello_rsp (m.id hello) (m.content hello) k.create_time (clock (2 * i))

-- `HandleCSProtoHello`
unfoldable pub handle_cs_proto_hello : Messages → (ℕ → ℕ) → Handler
handle_cs_proto_hello m clock i k p c =
    let rsp = cs_hello_reply m clock i k (packet_body p k) in
    packet_produce_protobuf_packet p c k.client_seq k.sock_fd (pos cs_hello) rsp (clock (2 * i + 1))

-- `HandleSSProtoHello`: the hello's own fields are not used.
unfoldable pub handle_ss_proto_hello : Messages → (ℕ → ℕ) → Handler
handle_ss_proto_hello m clock i k p c =
    packet_produce_protobuf_packet p c k.client_seq k.sock_fd (pos ss_hello_response)
      (m.ss_hello_rsp (clock (2 * i))) (clock (2 * i + 1))

-- A `case` of the `switch` on a packet's number
abbrev pub is_proto : ℕ → ℤ → Bool
is_proto proto (pos n) = n == proto
is_proto proto (negsuc n) = false

-- `HandleCSProto`
unfoldable pub handle_cs_proto : Messages → (ℕ → ℕ) → Handler
handle_cs_proto m clock i k p c =
    if is_proto cs_hello k.proto_no then handle_cs_proto_hello m clock i k p c else some (p, c)

-- `HandleSSProto`; the response to a hello is only logged.
unfoldable pub handle_ss_proto : Messages → (ℕ → ℕ) → Handler
handle_ss_proto m clock i k p c =
    if is_proto ss_hello k.proto_no then handle_ss_proto_hello m clock i k p c else some (p, c)

-- A server's context as its logic thread sees it, with whether the server has started (`m_pstServer`) and
-- the commands it has sent to the network thread.
pub record LogicState : Type 0 where
  pub has_server : Bool
  pub pool : MemoryPool
  pub network : NetworkContext
  pub commands : List ℕ

-- `PacketSendPrepare` and `SendNetworkCmd` in `Server::SendNetworkPackets`
unfoldable pub packets_sent : LogicState → LogicState
packets_sent s = record s {
  network = (packet_send_prepare s.network).1;
  commands = s.commands ++ send_all ∷ [];
}

-- `Server::SendNetworkPackets`; `none` is the failed assertion of a server that has not started.
unfoldable pub send_network_packets : LogicState → Option LogicState
send_network_packets s = if s.has_server then some (packets_sent s) else none

-- The test behind a packet: a thousandth packet is sent with those before it.
unfoldable pub is_thousandth : ℕ → Bool
is_thousandth i = ltb 0 i && (i % 1000 == 0)

-- `_ProcessSSNetworkPacketHandle` has no such test.
abbrev pub never : ℕ → Bool
never i = false

-- The `for` loop from index i on, with `left` packets to go; an index out of range is undefined.
unfoldable pub process_packets : Handler → (ℕ → Bool) → ℕ → ℕ → LogicState → Option LogicState
process_packets handle flush zero i s = some s
process_packets handle flush (suc left) i s = do
  k ← get_elem? s.network.logic.packets i
  (p, c) ← handle i k s.pool s.network
  let s' = record s { pool = p; network = c }
  s'' ← if flush i then send_network_packets s' else some s'
  process_packets handle flush left (i + 1) s''

-- `ReleaseAllPackets` of the logic queue
unfoldable pub release_logic : LogicState → LogicState
release_logic s =
    let (p, q) = release_all_packets s.pool s.network.logic in
    record s { pool = p; network = record s.network { logic = q } }

-- `_ProcessCSNetworkPacketHandle`, and `_ProcessSSNetworkPacketHandle` of a server; the assertion
-- compares the count with the queue's.
unfoldable pub process_network_packet_handle :
    Handler → (ℕ → Bool) → ℕ → LogicState → Option LogicState
process_network_packet_handle handle flush packet_num s =
    if packet_num == s.network.logic.packet_num
    then (process_packets handle flush packet_num 0 s >>= send_network_packets >>= λ s'.
        some (release_logic s'))
    else none

-- What is done once the signal was seen.
unfoldable pub process_signalled : Handler → (ℕ → Bool) → LogicState → Option (ℕ × LogicState)
process_signalled handle flush s =
    let (packet_num, c) = copy_packets_from_net_to_logic s.network in
    process_network_packet_handle handle flush packet_num (record s { network = c }) >>= λ s'.
    some (packet_num, s')

-- The test of the signal, and what follows it.
unfoldable pub process_network_packet : Handler → (ℕ → Bool) → LogicState → Option (ℕ × LogicState)
process_network_packet handle flush s =
    let (active, signal) = check_and_set_signal_actived s.network.signal in
    let s' : LogicState = record s { network = record s.network { signal = signal } } in
    if active then process_signalled handle flush s' else some (0, s')

-- `_ProcessCSNetworkPacket`: the count that it returns, and the main server after it.
unfoldable pub process_cs_network_packet : Messages → (ℕ → ℕ) → LogicState → Option (ℕ × LogicState)
process_cs_network_packet m clock = process_network_packet (handle_cs_proto m clock) is_thousandth

-- The part of `_ProcessSSNetworkPacket` for the proxy server
unfoldable pub process_proxy_network_packet :
    Messages → (ℕ → ℕ) → LogicState → Option (ℕ × LogicState)
process_proxy_network_packet m clock = process_network_packet (handle_ss_proto m clock) never
