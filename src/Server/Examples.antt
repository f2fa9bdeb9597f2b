-- ===== src/Server/Examples.antt =====
-- One client, and one packet that waits for it.
use game_server.Prelude.{◌≡◌, refl, none, some, ◌-◌, ◌^◌, [], ◌∷◌, arith}
use game_server.Prelude.Int.{pos}
use game_server.Prelude.Map.{find}
use game_server.Memory.{new_pool, get_free_packet_memory}
use game_server.Memory.Ownership.{Owned-new_pool, get_free_packet_memory-Owned}
use game_server.Packet.{NetPacket, net_packet}
use game_server.Network.{new_context}
use game_server.Clients.{
  Client, Clients, no_clients, new_libevent_client, get_client, get_client_by_fd, get_client_seq,
}
use game_server.Clients.Consistency.{
  IsConsistent, no_clients-IsConsistent, connect, connect-IsConsistent,
}
use game_server.Server.{
  SendState, send_to_clients, connector_execute_cmd_send_all_packet, execute_cmd_send_all_packet,
}
use game_server.Server.Sending.{AllSent, taken}
use game_server.Server.Contexts.{
  client_output, server_output, server-execute_cmd_send_all_packet,
  connector-execute_cmd_send_all_packet,
}

abbrev bob : Client
bob = new_libevent_client 3 70 (49 ∷ [])

abbrev connected : Clients
connected = connect no_clients bob

nobody :
    (get_client no_clients (get_client_seq bob) ≡ none) × (get_client_by_fd no_clients 3 ≡ none)
unfolding get_client get_client_by_fd find
nobody = (refl, refl)

connected-IsConsistent : IsConsistent connected
unfolding new_libevent_client
connected-IsConsistent =
    connect-IsConsistent no_clients bob no_clients-IsConsistent nobody.0 nobody.1

-- The packet holds the first memory of a pool of two.
abbrev waiting : NetPacket
waiting = net_packet 70 3 (pos 1) 2 0 (get_free_packet_memory (new_pool 2)).0

abbrev busy : SendState
busy = record {
  pool = (get_free_packet_memory (new_pool 2)).1;
  network = record new_context { send = record { packet_num = 1; packets = waiting ∷ [] } };
  sent = [];
}

server-execute_cmd_send_all_packet_example :
    AllSent 2
      (client_output connected (λ i. i))
      busy
      (waiting ∷ [])
      []
      (execute_cmd_send_all_packet (send_to_clients connected (λ i. i)) ([] ∷ []) busy)
unfolding taken
server-execute_cmd_send_all_packet_example =
    server-execute_cmd_send_all_packet 2 connected (λ i. i) ([] ∷ []) busy [] connected-IsConsistent
      (omega arith) (get_free_packet_memory-Owned 2 (new_pool 2) [] (Owned-new_pool 2))

connector-execute_cmd_send_all_packet_example :
    (AllSent 2
      (server_output bob 0 (λ i. i))
      busy
      (waiting ∷ [])
      []
      (connector_execute_cmd_send_all_packet (some (bob, 0)) (λ i. i) ([] ∷ []) busy))
    × (connector_execute_cmd_send_all_packet none (λ i. i) ([] ∷ []) busy ≡ some (2 ^ 64 - 1, busy))
unfolding taken
connector-execute_cmd_send_all_packet_example =
    connector-execute_cmd_send_all_packet 2 bob 0 (λ i. i) ([] ∷ []) busy [] (omega arith)
      (get_free_packet_memory-Owned 2 (new_pool 2) [] (Owned-new_pool 2))
