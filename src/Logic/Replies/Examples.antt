-- ===== src/Logic/Replies/Examples.antt =====
-- A client that sends a hello and the start of another frame, with messages that are their content.
use game_server.Prelude.{ℕ, ◌≡◌, refl, List, [], ◌∷◌, ◌++◌, take, drop, some, arith}
use game_server.Prelude.Int.{pos}
use game_server.Prelude.Map.{find}
use game_server.Wire.{unpack_int}
use game_server.Memory.{new_pool}
use game_server.Memory.Ownership.{Owned-new_pool}
use game_server.Network.{new_context}
use game_server.Network.Buffer.{ClientBuffer, IsSized, capacity, zeroed, length-zeroed}
use game_server.Network.Framing.{finished, parse, parse_all, read_head}
use game_server.Clients.{
  Client, no_clients, new_client, add_client, get_client, get_client_by_fd, libevent_client,
  get_client_seq,
}
use game_server.Clients.Consistency.{
  IsConsistent, no_clients-IsConsistent, connect, connect_lem, connect-IsConsistent,
}
use game_server.Handlers.{ServerState}
use game_server.Handlers.Libevent.Draining.{IsReader}
use game_server.Logic.{Messages}
use game_server.Logic.Replies.{answer_client, AllFit, no_frame, one_more, IsIdle}
use game_server.Logic.Replies.Whole.{Served, answer_client-Served}

abbrev brief : Messages
brief = record {
  CsHello = List ℕ;
  parse_cs_hello = λ bytes. bytes;
  id = λ hello. pos 5;
  content = λ hello. take 2 hello;
  cs_hello_rsp = λ i content unpacked handled. content ++ unpacked ∷ handled ∷ [];
  ss_hello_rsp = λ now. now ∷ [];
}

abbrev read_list : List ℕ → ℕ → List ℕ × List ℕ
read_list bytes n = (take n bytes, drop n bytes)

read_list-IsReader : IsReader read_list (λ bytes. bytes)
read_list-IsReader = record { bytes = λ e n. refl; rest = λ e n. refl }

abbrev fresh : ClientBuffer
fresh = record {
  client_seq = 70;
  client_fd = 3;
  client_ip = [];
  buffer_size = 0;
  buffer = zeroed capacity;
}

fresh-IsSized : IsSized fresh
fresh-IsSized = record { whole = length-zeroed capacity; within = omega arith }

abbrev frank : Client
frank = record { kind = libevent_client; uniq_seq = 0; context = fresh }

abbrev state : ServerState
state = record { pool = new_pool 2; network = new_context; clients = connect no_clients frank }

frank_found : get_client_by_fd state.clients 3 ≡ some 0
unfolding get_client get_client_by_fd find get_client_seq
frank_found = (connect_lem no_clients frank 0 3 refl refl).1

frank_alive : state.clients.store 0 ≡ some frank
unfolding new_client add_client
frank_alive = refl

frank-IsConsistent : IsConsistent state.clients
unfolding get_client get_client_by_fd find get_client_seq
frank-IsConsistent = connect-IsConsistent no_clients frank no_clients-IsConsistent refl refl

abbrev hello_bytes : List ℕ
hello_bytes = 0 ∷ 6 ∷ 0 ∷ 1 ∷ 10 ∷ 20 ∷ 0 ∷ []

good : (parse_all hello_bytes).status ≡ finished
unfolding parse_all parse read_head unpack_int
good = refl

idle : IsIdle new_context
idle = record {
  recv = refl;
  recv_prepare = refl;
  send = refl;
  send_prepare = refl;
  send_cache = refl;
}

hello-AllFit : AllFit brief (parse_all hello_bytes).frames
unfolding parse_all parse read_head unpack_int
hello-AllFit = one_more (λ e t t'. omega arith) no_frame

answer_client-Served_example :
    Served
      (λ bytes. bytes)
      2
      brief
      (λ i. i)
      (λ i. i)
      state
      0
      frank
      []
      hello_bytes
      (answer_client read_list 8 (λ i j. i) brief (λ i. i) (λ i. i) state 3 hello_bytes)
answer_client-Served_example =
    answer_client-Served read_list (λ bytes. bytes) read_list-IsReader 2 (λ i j. i) brief (λ i. i)
      (λ i. i) 0 8 3 state frank [] hello_bytes frank_found frank_alive refl frank-IsConsistent
      fresh-IsSized idle (Owned-new_pool 2) good hello-AllFit (omega arith)
