-- ===== src/Connector/Examples.antt =====
-- A connector that connects at the third try, its commands, and connectors in the pool.
use game_server.Prelude.{ℕ, ◌≡◌, refl, ◌==◌, ◌>>=◌, none, some, List, [], ◌∷◌, true, false, arith}
use game_server.Prelude.Int.{pos}
use game_server.Prelude.Map.{find}
use game_server.Memory.{new_pool}
use game_server.Network.{new_context}
use game_server.Server.{SendState, Sender, send_to_server}
use game_server.Clients.{new_libevent_client}
use game_server.Connector.{
  Connector, alive, dead, new_connector, create, close, try_connect, set_status, is_alive,
}
use game_server.Connector.Life.{close_with, at_end, gone, close-try_connect}
use game_server.Connector.Commands.{Poll, interrupted, command, process_send_network_packets}
use game_server.Connector.Commands.Served.{send_rounds, process_send_network_packets_lem}
use game_server.Connector.Pool.{
  key_of, add_connector, close_connector, close_connector-add_connector, close_connector-lost,
  process_closed_connectors, process_closed_connectors_lem,
}

close-try_connect_example :
    let (ok, o, c) = create (record { next = 0; freed = [] }) new_connector (pos 9) 77 true in
    (ok ≡ true)
    × ((try_connect 30 (λ i. i == 2) 0 o c >>= λ r. some (close_with dead r))
        ≡ some (at_end 30 (λ i. i == 2), gone 77 9))
    × (close (at_end 30 (λ i. i == 2)) (gone 77 9) ≡ (at_end 30 (λ i. i == 2), gone 77 9))
close-try_connect_example = close-try_connect (λ i. i == 2) 77 9 dead

-- Three write events, 2 to 4, were made.
twice_freed : at_end 30 (λ i. i == 2) ≡ record { next = 5; freed = 1 ∷ 4 ∷ 0 ∷ 1 ∷ [] }
twice_freed = refl

abbrev connected : Connector
connected = record {
  event_base = some 0;
  buffer_evt = some 1;
  write_event = some 2;
  client_ctx = some 1;
  has_connector_ctx = true;
  client_seq = 77;
  sock_fd = pos 9;
  status = alive;
}

-- A send command, a close command and a send command that comes too late
abbrev polls : List Poll
polls = interrupted ∷ command 83 ([] ∷ []) ∷ command 67 [] ∷ command 83 [] ∷ []

abbrev idle : SendState
idle = record { pool = new_pool 2; network = new_context; sent = [] }

abbrev to_server : Sender
to_server = send_to_server (new_libevent_client 9 77 []) 0 (λ i. i)

process_send_network_packets_lem_example :
    process_send_network_packets to_server polls connected idle
    ≡ (send_rounds to_server (([] ∷ []) ∷ []) idle >>= λ s'. some (set_status dead connected, s'))
process_send_network_packets_lem_example =
    process_send_network_packets_lem to_server polls connected idle refl alive_now
  where
    alive_now : is_alive connected ≡ true
    alive_now = unfold is_alive in refl

close_connector-add_connector_example :
    let (ok, pool') = add_connector [] 70 4 in
    let (found, pool'', deleted) = close_connector pool' 70 in
    (ok ≡ true) × (found ≡ true) × (deleted ≡ 4 ∷ []) × (find 71 pool'' ≡ find {V = ℕ} 71 [])
close_connector-add_connector_example =
    close_connector-add_connector [] 70 4 71 (omega arith) (unfold find in refl)

close_connector-lost_example :
    let (ok, pool') = add_connector [] 5000000000 4 in
    (ok ≡ true)
    × (find (key_of 5000000000) pool' ≡ some 4)
    × (close_connector pool' 5000000000 ≡ (false, pool', []))
close_connector-lost_example =
    close_connector-lost [] 5000000000 4 (omega arith) (omega arith) (unfold find in refl)
      (unfold find in refl)

erased_while_iterating : process_closed_connectors (λ r. r == 5) ((70, 4) ∷ (71, 5) ∷ []) ≡ none
erased_while_iterating = process_closed_connectors_lem (λ r. r == 5) ((70, 4) ∷ (71, 5) ∷ [])
