-- ===== src/Handlers/Socket.antt =====
-- network/socket/server_logic.cpp, the handlers of the socket server's messages, and `PacketBufferRead`
-- of network/socket/socket_ctx.h. What `socket_server_poll` returns is an argument.
pub mod Receive
pub mod Stalls
mod Examples
use game_server.Prelude.{
  ℕ, zero, suc, ◌+◌, ◌-◌, List, [], ◌∷◌, ◌++◌, Option, none, some, ◌>>=◌, Bool, true, false, ltb,
  ◌==◌, if◌then◌else◌, length, take, drop,
}
use game_server.Prelude.Int.{ℤ, pos, negsuc, pos_part}
use game_server.Network.Buffer.{ClientBuffer, capacity, append_bytes}
use game_server.Clients.{
  Client, Clients, new_socket_client, set_client_ip, get_client_seq, get_client_by_fd, new_client,
  add_client, close_client, store_set,
}
use game_server.Handlers.{ServerState, set_context, execute_cmd_recv_all_packet}

-- `PacketBufferRead`: all the bytes, or none if they do not fit.
unfoldable pub packet_buffer_read : ClientBuffer → List ℕ → ℕ → ℤ × ClientBuffer
packet_buffer_read c buffer need =
    if ltb (capacity - c.buffer_size) need
    then (negsuc 0, c)
    else (pos need, append_bytes c (take need buffer))

-- The printed address goes to the context at r; `none` is a dangling pointer.
set_ip_at : ServerState → ℕ → List ℕ → Option ServerState
set_ip_at s r ip = s.clients.store r >>= λ c. some (record s {
  clients = record s.clients {
    store = store_set s.clients.store r (some (set_client_ip c ip (length ip)));
  };
})

-- `new`, `SetClientIP` and `AddClient`
accept : ServerState → ℕ → ℕ → List ℕ → ℕ × ServerState
accept s client_fd seq_id ip =
    let c = set_client_ip (new_socket_client client_fd seq_id) ip (length ip) in
    let (r, cs) = new_client s.clients c in
    (r, record s { clients = add_client cs (get_client_seq c) r c })

accept_or_keep : ServerState → ℕ → ℕ → List ℕ → Option ℕ → Option ServerState
unfolding set_ip_at accept
accept_or_keep s client_fd seq_id ip (some r) = set_ip_at s r ip
accept_or_keep s client_fd seq_id ip none =
    let (r, s') = accept s client_fd seq_id ip in set_ip_at s' r ip

-- `_ProcessNewClient`; `seq_id` is what `GenerateSeqID()` gives, `ip` the message's text.
unfoldable pub process_new_client : ServerState → ℕ → ℕ → List ℕ → Option ServerState
unfolding accept_or_keep
process_new_client s client_fd seq_id ip =
    accept_or_keep s client_fd seq_id ip (get_client_by_fd s.clients client_fd)

close_found : ServerState → Option ℕ → Bool × ServerState
close_found s none = (false, s)
close_found s (some r) = (true, record s { clients = close_client s.clients r })

-- `_ProcessCloseClient`, which removes and deletes as `CloseClient` does.
unfoldable pub process_close_client : ServerState → ℕ → Bool × ServerState
unfolding close_found
process_close_client s client_fd = close_found s (get_client_by_fd s.clients client_fd)

-- The end of a round: an error closes the client, and the loop goes on while bytes are left.
unfoldable pub after_recv :
    ℕ → ℕ → (ServerState → Option ServerState) → ℤ × ServerState → Option ServerState
after_recv client_fd left again (pos zero, s) = elim left [ zero ↦ some s | suc n ↦ again s ]
after_recv client_fd left again (pos (suc n), s) = some (process_close_client s client_fd).1
after_recv client_fd left again (negsuc n, s) = some (process_close_client s client_fd).1

-- A round for the context c at r: `again` is the loop at the pointer and the count behind what was read.
unfoldable pub message_round :
    (ℕ → ℕ)
    → ServerState
    → ℕ
    → ℕ
    → List ℕ
    → ℕ
    → (ServerState → List ℕ → ℕ → Option ServerState)
    → Client
    → Option ServerState
unfolding after_recv
message_round clock s r client_fd buffer need again c =
    let (read, b) = packet_buffer_read c.context buffer need in
    let n = pos_part read in
    execute_cmd_recv_all_packet clock s r c b
    >>= after_recv client_fd (need - n) (λ s'. again s' (drop n buffer) (need - n))

-- That many rounds of the loop of `_ProcessMessageData`, for the context at r with the bytes from the pointer
-- on and how many are left, and then what comes next. The clock is one for each round. `none` is a
-- dangling pointer or a failed assertion.
unfoldable pub message_rounds :
    ℕ
    → (ServerState → List ℕ → ℕ → Option ServerState)
    → (ℕ → ℕ → ℕ)
    → ServerState
    → ℕ
    → ℕ
    → List ℕ
    → ℕ
    → Option ServerState
unfolding message_round
message_rounds zero next clock s r client_fd buffer need = next s buffer need
message_rounds (suc n) next clock s r client_fd buffer need =
    s.clients.store r
    >>= message_round (clock n) s r client_fd buffer need
        (λ s' rest left. message_rounds n next clock s' r client_fd rest left)

-- The loop on fuel: `none` is also a loop that goes on.
abbrev pub message_loop : ℕ → (ℕ → ℕ → ℕ) → ServerState → ℕ → ℕ → List ℕ → ℕ → Option ServerState
message_loop fuel = message_rounds fuel (λ s rest left. none)

message_found :
    ℕ → (ℕ → ℕ → ℕ) → ServerState → ℕ → Option (List ℕ) → ℤ → Option ℕ → Option ServerState
message_found fuel clock s client_fd buffer ud none = some s
message_found fuel clock s client_fd none ud (some r) = some s
message_found fuel clock s client_fd (some buffer) (negsuc n) (some r) = some s
message_found fuel clock s client_fd (some buffer) (pos zero) (some r) = some s
message_found fuel clock s client_fd (some buffer) (pos (suc n)) (some r) =
    message_loop fuel clock s r client_fd buffer (suc n)

-- `_ProcessMessageData`; `buffer` is `rstMessage.data`, with NULL for `none`.
unfoldable pub process_message_data :
    ℕ → (ℕ → ℕ → ℕ) → ServerState → ℕ → Option (List ℕ) → ℤ → Option ServerState
unfolding message_found
process_message_data fuel clock s client_fd buffer ud =
    message_found fuel clock s client_fd buffer ud (get_client_by_fd s.clients client_fd)

-- The messages that `_ProcessOneLoop` tells apart, with the fields that it reads.
pub data Message : Type 0 where
  exit opened udp unknown : Message
  accepted : ℕ → List ℕ → Message
  closed failed : ℕ → Message
  received : ℕ → Option (List ℕ) → ℤ → Message

-- `_ProcessOneLoop`. `socket_server_start` after an accept only tells the socket server to go on.
unfoldable pub process_one_loop : ℕ → (ℕ → ℕ → ℕ) → ℕ → ServerState → Message → Option ServerState
process_one_loop fuel clock seq_id s exit = some s
process_one_loop fuel clock seq_id s opened = some s
process_one_loop fuel clock seq_id s (accepted client_fd ip) =
    process_new_client s client_fd seq_id ip
process_one_loop fuel clock seq_id s (closed client_fd) = some (process_close_client s client_fd).1
process_one_loop fuel clock seq_id s (failed client_fd) = some (process_close_client s client_fd).1
process_one_loop fuel clock seq_id s (received client_fd buffer ud) =
    process_message_data fuel clock s client_fd buffer ud
process_one_loop fuel clock seq_id s udp = some s
process_one_loop fuel clock seq_id s unknown = some s
