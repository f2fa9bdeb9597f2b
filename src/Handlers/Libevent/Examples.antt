-- ===== src/Handlers/Libevent/Examples.antt =====
-- A client that has sent the start of a frame, and a `bufferevent` that holds its end: a list of bytes, of
-- which a read takes the first.
use game_server.Prelude.{
  ℕ, ◌≡◌, refl, true, ◌-◌, none, some, List, [], ◌∷◌, ◌++◌, take, drop, arith,
}
use game_server.Prelude.Map.{find}
use game_server.Memory.{new_pool}
use game_server.Memory.Ownership.{Owned-new_pool}
use game_server.Network.{new_context}
use game_server.Network.Buffer.{ClientBuffer, IsSized, capacity, zeroed, length-zeroed}
use game_server.Network.Framing.{finished, parse, parse_all, read_head}
use game_server.Wire.{unpack_int}
use game_server.Clients.{
  Client, no_clients, new_client, add_client, get_client, get_client_by_fd, get_client_seq,
  new_libevent_client,
}
use game_server.Clients.Consistency.{
  IsConsistent, no_clients-IsConsistent, connect, connect_lem, connect-IsConsistent,
}
use game_server.Handlers.{ServerState}
use game_server.Handlers.Libevent.{on_buffer_event_read, on_listener_accept_connect}
use game_server.Handlers.Libevent.Draining.{IsReader}
use game_server.Handlers.Libevent.Accept.{Accepted, on_listener_accept_connect-Accepted}
use game_server.Handlers.Libevent.Loop.{Drained, on_buffer_event_read-Drained}

abbrev read_list : List ℕ → ℕ → List ℕ × List ℕ
read_list bytes n = (take n bytes, drop n bytes)

read_list-IsReader : IsReader read_list (λ bytes. bytes)
read_list-IsReader = record { bytes = λ e n. refl; rest = λ e n. refl }

abbrev started : ClientBuffer
started = record {
  client_seq = 70;
  client_fd = 3;
  client_ip = [];
  buffer_size = 3;
  buffer = 0 ∷ 6 ∷ 0 ∷ zeroed (capacity - 3);
}

started-IsSized : IsSized started
started-IsSized = record {
  whole = omega (arith, length-zeroed (capacity - 3));
  within = omega arith;
}

abbrev erin : Client
erin = record (new_libevent_client 3 70 []) { context = started }

abbrev state : ServerState
state = record { pool = new_pool 2; network = new_context; clients = connect no_clients erin }

erin_found : get_client_by_fd state.clients 3 ≡ some 0
unfolding get_client get_client_by_fd find
erin_found = (connect_lem no_clients erin 0 3 refl refl).1

erin_alive : state.clients.store 0 ≡ some erin
unfolding new_client add_client
erin_alive = refl

abbrev the_end : List ℕ
the_end = 1 ∷ 10 ∷ 20 ∷ 0 ∷ []

good : (parse_all ((0 ∷ 6 ∷ 0 ∷ []) ++ the_end)).status ≡ finished
unfolding parse_all parse read_head unpack_int
good = refl

on_buffer_event_read-Drained_example :
    Drained
      (λ bytes. bytes)
      2
      state
      0
      erin
      []
      the_end
      (on_buffer_event_read read_list 5 (λ i j. i) state 3 the_end)
on_buffer_event_read-Drained_example =
    on_buffer_event_read-Drained read_list (λ bytes. bytes) read_list-IsReader 2 (λ i j. i) 0 5 3
      state erin [] the_end erin_found erin_alive started-IsSized (omega arith) (Owned-new_pool 2)
      good (omega arith)

erin-IsConsistent : IsConsistent state.clients
unfolding get_client get_client_by_fd find
erin-IsConsistent = connect-IsConsistent no_clients erin no_clients-IsConsistent refl refl

free_number : get_client state.clients 71 ≡ none
unfolding get_client get_client_by_fd find get_client_seq new_libevent_client
free_number = (connect_lem no_clients erin 71 0 refl refl).0

-- The descriptor 3 comes again.
on_listener_accept_connect-Accepted_example :
    Accepted state (on_listener_accept_connect state 3 71 [] true true) 3 71 []
on_listener_accept_connect-Accepted_example =
    on_listener_accept_connect-Accepted state 3 71 [] erin-IsConsistent free_number
