-- ===== src/Handlers/Socket/Examples.antt =====
-- A client that has sent the start of a frame: a message with its end, a bad message, and one that is
-- larger than the buffer.
use game_server.Prelude.{ℕ, ◌≡◌, refl, ap, ◌-◌, Option, none, some, List, [], ◌∷◌, ◌++◌, arith}
use game_server.Prelude.Int.{pos}
use game_server.Prelude.Map.{find}
use game_server.Memory.{new_pool}
use game_server.Memory.Ownership.{Owned-new_pool}
use game_server.Network.{new_context}
use game_server.Network.Buffer.{ClientBuffer, IsSized, capacity, zeroed, length-zeroed}
use game_server.Network.Framing.{finished, bad_body, Parsed, parse, parse_all, read_head}
use game_server.Wire.{unpack_int}
use game_server.Clients.{
  Client, no_clients, new_client, add_client, get_client, new_socket_client, get_client_by_fd,
}
use game_server.Clients.Consistency.{connect, connect_lem}
use game_server.Handlers.{ServerState}
use game_server.Handlers.Socket.{process_message_data, message_rounds, message_loop}
use game_server.Handlers.Socket.Receive.{
  Received, Refusing, process_message_data-receives, process_message_data-refuses,
}
use game_server.Handlers.Socket.Stalls.{process_message_data-stalls}

abbrev started : ClientBuffer
started = record {
  client_seq = 0;
  client_fd = 3;
  client_ip = [];
  buffer_size = 3;
  buffer = 0 ∷ 6 ∷ 0 ∷ zeroed (capacity - 3);
}

started-IsSized : IsSized started
started-IsSized = record {
  whole = omega (arith, length-zeroed (capacity - 3));
  within = omega arith;
}

abbrev carol : Client
carol = record (new_socket_client 3 70) { context = started }

abbrev state : ServerState
state = record { pool = new_pool 2; network = new_context; clients = connect no_clients carol }

carol_found : get_client_by_fd state.clients 3 ≡ some 0
unfolding get_client get_client_by_fd find
carol_found = (connect_lem no_clients carol 0 3 refl refl).1

carol_alive : state.clients.store 0 ≡ some carol
unfolding new_client add_client
carol_alive = refl

-- The end of the frame and the start of another
abbrev the_end : List ℕ
the_end = 1 ∷ 10 ∷ 20 ∷ 0 ∷ []

good : (parse_all ((0 ∷ 6 ∷ 0 ∷ []) ++ the_end)).status ≡ finished
unfolding parse_all parse read_head unpack_int
good = refl

process_message_data-receives_example :
    Received 2 state 0 carol the_end []
      (process_message_data 1 (λ i j. i) state 3 (some the_end) (pos 4))
process_message_data-receives_example =
    process_message_data-receives 2 0 (λ i j. i) state 3 0 3 carol the_end [] carol_found
      carol_alive started-IsSized (Owned-new_pool 2) (omega arith) (omega arith) (omega arith) good

-- A frame of four bytes
abbrev bad_end : List ℕ
bad_end = 1 ∷ 10 ∷ []

abbrev bad_start : ClientBuffer
bad_start = record started { buffer = 0 ∷ 4 ∷ 0 ∷ zeroed (capacity - 3) }

bad_start-IsSized : IsSized bad_start
bad_start-IsSized = record {
  whole = omega (arith, length-zeroed (capacity - 3));
  within = omega arith;
}

abbrev dave : Client
dave = record (new_socket_client 3 70) { context = bad_start }

abbrev bad_state : ServerState
bad_state = record state { clients = connect no_clients dave }

dave_found : get_client_by_fd bad_state.clients 3 ≡ some 0
unfolding get_client get_client_by_fd find
dave_found = (connect_lem no_clients dave 0 3 refl refl).1

dave_alive : bad_state.clients.store 0 ≡ some dave
unfolding new_client add_client
dave_alive = refl

bad : (parse_all ((0 ∷ 4 ∷ 0 ∷ []) ++ bad_end)).status ≡ bad_body
unfolding parse_all parse read_head unpack_int
bad = refl

process_message_data-refuses_example :
    Refusing 2 bad_state 0 dave bad_end []
      (process_message_data 1 (λ i j. i) bad_state 3 (some bad_end) (pos 2))
process_message_data-refuses_example =
    process_message_data-refuses 2 0 (λ i j. i) bad_state 3 0 1 dave bad_end [] dave_found
      dave_alive bad_start-IsSized (Owned-new_pool 2) (omega arith) (omega arith)
      (λ e. absurd (ground (arith, bad, e)))

no_frame :
    parse_all (0 ∷ 6 ∷ 0 ∷ []) ≡ record { status = finished; frames = []; rest = 0 ∷ 6 ∷ 0 ∷ [] }
unfolding parse_all parse read_head unpack_int
no_frame = refl

process_message_data-stalls_example :
    ((rounds : ℕ) (next : ServerState → List ℕ → ℕ → Option ServerState)
      → (s' : ServerState) × (message_rounds rounds next
            (λ i j. i)
            state
            0
            3
            (zeroed capacity)
            102400
          ≡ next s' (zeroed capacity) 102400))
    × ((fuel : ℕ)
        → (process_message_data fuel (λ i j. i) state 3 (some (zeroed capacity)) (pos 102400)
            ≡ message_loop fuel (λ i j. i) state 0 3 (zeroed capacity) 102400)
          × (process_message_data fuel (λ i j. i) state 3 (some (zeroed capacity)) (pos 102400)
              ≡ none))
process_message_data-stalls_example =
    process_message_data-stalls 2 (λ i j. i) 3 0 102399 (zeroed capacity) state carol [] carol_found
      carol_alive started-IsSized (omega arith) (Owned-new_pool 2) (omega arith)
      (ap (λ (q : Parsed). q.status) no_frame) (ap (λ (q : Parsed). q.frames) no_frame)
