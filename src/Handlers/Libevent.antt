-- ===== src/Handlers/Libevent.antt =====
-- network/libevent/libevent_handle.cpp, the callbacks of the libevent server, and `PacketBufferRead` of
-- network/libevent/libevent_ctx.h. A `bufferevent` is a value of a type E, with `bufferevent_read` as an
-- argument: at most n of the bytes that it has, and what is left of it.
pub mod Draining
pub mod Turn
pub mod Loop
pub mod Accept
mod Examples
use game_server.Prelude.{
  ℕ, zero, suc, ◌-◌, List, length, Option, none, some, ◌>>=◌, Bool, true, false, ◌||◌, ◌==◌,
  if◌then◌else◌,
}
use game_server.Prelude.Int.{ℤ, pos, negsuc}
use game_server.Network.Buffer.{ClientBuffer, capacity, append_bytes}
use game_server.Clients.{
  Client, Clients, new_libevent_client, get_client_seq, get_client_by_fd, new_client, add_client,
  close_client,
}
use game_server.Handlers.{ServerState, set_context, execute_cmd_recv_all_packet}

-- `OnListenerAcceptConnect` before it makes a new client: a context that still has the descriptor is closed.
closed_last : ServerState → Option ℕ → ServerState
closed_last s none = s
closed_last s (some r) = record s { clients = close_client s.clients r }

-- `OnListenerAcceptConnect`; `made` says whether `bufferevent_socket_new` gives an object and `set` whether
-- `_SetSocketOpt` returns 0.
unfoldable pub on_listener_accept_connect : ServerState → ℕ → ℕ → List ℕ → Bool → Bool → ServerState
unfolding closed_last
on_listener_accept_connect s client_fd seq_id ip false set =
    closed_last s (get_client_by_fd s.clients client_fd)
on_listener_accept_connect s client_fd seq_id ip true false =
    closed_last s (get_client_by_fd s.clients client_fd)
on_listener_accept_connect s client_fd seq_id ip true true =
    let s' = closed_last s (get_client_by_fd s.clients client_fd) in
    let c = new_libevent_client client_fd seq_id ip in
    let (r, cs) = new_client s'.clients c in
    record s' { clients = add_client cs (get_client_seq c) r c }

-- `OnBufferEventTrigger`, with the three bits of `wEvent` that it tests
unfoldable pub on_buffer_event_trigger : ServerState → ℕ → Bool → Bool → Bool → ServerState
unfolding closed_last
on_buffer_event_trigger s client_fd timeout eof error =
    if timeout || (eof || error) then closed_last s (get_client_by_fd s.clients client_fd) else s

module _ {E : Type 0} (read : E → ℕ → List ℕ × E) where
  -- `PacketBufferRead`
  unfoldable pub read_into : ClientBuffer → E → ℤ × ClientBuffer × E
  read_into c e =
      let space = capacity - c.buffer_size in
      let (bytes, e') = read e space in
      if space == 0 then (negsuc 0, c, e) else (pos (length bytes), append_bytes c bytes, e')

  -- `while(iReadLen > 0)`
  unfoldable pub while_read :
      (ServerState → E → Option (ServerState × E)) → ℤ → ServerState → E → Option (ServerState × E)
  while_read again (pos zero) s e = some (s, e)
  while_read again (pos (suc n)) s e = again s e
  while_read again (negsuc n) s e = some (s, e)

  -- The second `PacketBufferRead` of a round
  unfoldable pub read_again :
      (ServerState → E → Option (ServerState × E))
      → ℕ
      → E
      → ServerState
      → Client
      → Option (ServerState × E)
  unfolding while_read
  read_again again r e s c =
      let (n, b, e') = read_into c.context e in
      while_read again n (record s { clients = set_context s.clients r c b }) e'

  -- A round behind `ExecuteCmdRecvAllPacket`
  unfoldable pub received :
      (ServerState → E → Option (ServerState × E))
      → ℕ
      → E
      → ℤ × ServerState
      → Option (ServerState × E)
  unfolding read_again
  received again r e (pos zero, s) = s.clients.store r >>= read_again again r e s
  received again r e (pos (suc n), s) = some (record s { clients = close_client s.clients r }, e)
  received again r e (negsuc n, s) = some (record s { clients = close_client s.clients r }, e)

  unfoldable pub read_round :
      (ServerState → E → Option (ServerState × E))
      → (ℕ → ℕ)
      → ServerState
      → ℕ
      → E
      → Client
      → Option (ServerState × E)
  unfolding received
  read_round again clock s r e c =
      let (n, b, e') = read_into c.context e in
      execute_cmd_recv_all_packet clock s r c b >>= received again r e'

  -- The loop of `OnBufferEventRead` for the context at r; `none` is no fuel, a dangling pointer or a failed
  -- assertion.
  unfoldable pub read_loop : ℕ → (ℕ → ℕ → ℕ) → ℕ → ServerState → E → Option (ServerState × E)
  unfolding read_round
  read_loop zero clock r s e = none
  read_loop (suc fuel) clock r s e =
      s.clients.store r >>= read_round (read_loop fuel clock r) (clock fuel) s r e

  found : ℕ → (ℕ → ℕ → ℕ) → ServerState → E → Option ℕ → Option (ServerState × E)
  unfolding read_loop
  found fuel clock s e none = some (s, e)
  found fuel clock s e (some r) = read_loop fuel clock r s e

  -- `OnBufferEventRead` for the descriptor of the `bufferevent`
  unfoldable pub on_buffer_event_read :
      ℕ → (ℕ → ℕ → ℕ) → ServerState → ℕ → E → Option (ServerState × E)
  unfolding found
  on_buffer_event_read fuel clock s client_fd e =
      found fuel clock s e (get_client_by_fd s.clients client_fd)
