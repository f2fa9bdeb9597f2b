-- ===== src/Connector/Commands.antt =====
-- network/connector.cpp, `ProcessSendNetworkPackets`, `SendNetworkPackets` and `HeartBeat`: the commands
-- that reach the connector's thread through its pipe.
pub mod Served
use game_server.Prelude.{
  ℕ, zero, suc, ◌+◌, ◌/◌, ◌%◌, ◌≡◌, refl, ◌≢◌, sym, ap, ap₂, ◌∙◌, List, [], ◌∷◌, ◌++◌, Option, none,
  some, ◌>>=◌, Bool, true, false, Bool-cases, inl, inr, ◌==◌, if◌then◌else◌, length, arith,
  Option-cases,
}
use game_server.Prelude.Int.{ℤ, pos}
use game_server.Memory.{MemoryPool}
use game_server.Packet.{NetPacket}
use game_server.Network.{NetworkContext, packet_send_prepare, packet_produce_protobuf_packet}
use game_server.Server.{Sender, SendState, execute_cmd_send_all_packet}
use game_server.Connector.{Status, alive, dead, Connector, set_status, is_alive}

-- What a round of the loop finds: `select` fails or times out, `read` is interrupted or fails, or there
-- is a command, its byte and what the logic thread does while it is executed.
pub data Poll : Type 0 where
  select_failed timed_out interrupted read_failed : Poll
  command : ℕ → List (List NetPacket) → Poll

-- `NETWORK_CMD_REQUEST_SEND_ALL_PACKET` and `NETWORK_CMD_REQUEST_CLOSE_SERVER`
abbrev pub send_all : ℕ
send_all = 83

abbrev pub close_server : ℕ
close_server = 67

-- The `switch`
unfoldable pub execute_command :
    Sender → ℕ → List (List NetPacket) → Connector → SendState → Option (Connector × SendState)
execute_command send cmd schedule c s =
    if cmd == send_all
    then (execute_cmd_send_all_packet send schedule s >>= λ (total, s'). some (c, s'))
    else if cmd == close_server
    then some (set_status dead c, s)
    else some (c, s)

-- The loop; after the last round `select` times out.
unfoldable pub process_polls :
    Sender → List Poll → Connector → SendState → Option (Connector × SendState)
process_polls send [] c s = some (c, s)
process_polls send (select_failed ∷ later) c s = some (set_status dead c, s)
process_polls send (timed_out ∷ later) c s = some (c, s)
process_polls send (interrupted ∷ later) c s = process_polls send later c s
process_polls send (read_failed ∷ later) c s = some (set_status dead c, s)
process_polls send (command cmd schedule ∷ later) c s =
    if is_alive c
    then (execute_command send cmd schedule c s >>= λ (c', s'). process_polls send later c' s')
    else some (c, s)

-- `ProcessSendNetworkPackets`; `none` is a failed assertion.
unfoldable pub process_send_network_packets :
    Sender → List Poll → Connector → SendState → Option (Connector × SendState)
process_send_network_packets send polls c s =
    if c.has_connector_ctx
    then (if is_alive c then process_polls send polls c s else some (c, s))
    else none

-- The loop of `SendNetworkPackets`: each round asks whether the connector is still alive and then writes,
-- which may fail. It gives whether `event_active` is called.
unfoldable pub write_command : List (Bool × Bool) → Option Bool
write_command [] = none
write_command ((false, written) ∷ later) = some false
write_command ((true, true) ∷ later) = some true
write_command ((true, false) ∷ later) = write_command later

-- `SendNetworkPackets`
unfoldable pub send_network_packets :
    Connector → NetworkContext → List (Bool × Bool) → Option (Bool × NetworkContext)
send_network_packets c net writes =
    if is_alive c
    then (write_command writes >>= λ active. some (active, (packet_send_prepare net).1))
    else some (false, net)

-- `m_iHeartBeatCnt`, and whether this beat sends
unfoldable pub count_beat : ℕ → Bool × ℕ
count_beat count = if (count + 1) % 10000 == 0 then (true, 0) else (false, count + 1)

hello :
    Connector
    → MemoryPool
    → NetworkContext
    → List ℕ
    → ℕ
    → List (Bool × Bool)
    → ℤ
    → Option (MemoryPool × NetworkContext)
hello c p net body now writes (pos fd) =
    packet_produce_protobuf_packet p net c.client_seq fd (pos 20001) body now >>= λ (p', net').
    send_network_packets c net' writes >>= λ (active, net''). some (p', net'')
hello c p net body now writes sock_fd = none

-- A connector without a socket has no thread, so that `sock_fd` is not negative in `HeartBeat`;
-- `body` is the serialised `SSHello`.
unfoldable pub heart_beat :
    ℕ
    → Connector
    → MemoryPool
    → NetworkContext
    → List ℕ
    → ℕ
    → List (Bool × Bool)
    → Option (ℕ × MemoryPool × NetworkContext)
unfolding hello
heart_beat count c p net body now writes =
    let (sends, count') = count_beat count in
    if sends
    then (hello c p net body now writes c.sock_fd >>= λ (p', net'). some (count', p', net'))
    else some (count', p, net)
