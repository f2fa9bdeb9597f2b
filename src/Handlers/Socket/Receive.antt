-- ===== src/Handlers/Socket/Receive.antt =====
-- network/socket/server_logic.cpp, `_ProcessMessageData`: bytes that fit into the client's buffer are
-- received in one round.
use game_server.Prelude.{
  ℕ, suc, ◌∙◌, ap, sym, subst, ◌≡◌, ◌≢◌, ◌≤◌, refl, ◌+◌, ◌-◌, List, ◌++◌, Option, some, ◌>>=◌,
  length, take, drop, length-take, arith,
}
use game_server.Prelude.Int.{pos}
use game_server.Memory.{MemoryRef}
use game_server.Memory.Ownership.{Owned}
use game_server.Packet.{NetPacket}
use game_server.Queue.Laws.{IsCounted}
use game_server.Network.Buffer.{
  ClientBuffer, capacity, pending, IsSized, append_bytes, append_bytes-IsSized,
  append_bytes-pending,
}
use game_server.Network.Framing.{Status, finished, bad_body, too_long, Parsed, parse_all, code}
use game_server.Network.Unpack.{
  Delivered, Refused, unpack_packet_to_recv_queue-delivers, unpack_packet_to_recv_queue-refuses,
}
use game_server.Clients.{Client, get_client_by_fd, close_client}
use game_server.Handlers.{ServerState, set_context, unpacked, execute_cmd_recv_all_packet}
use game_server.Handlers.Socket.{
  close_found, packet_buffer_read, process_close_client, after_recv, message_round, message_rounds,
  message_loop, process_message_data, message_found,
}

read_fits :
    (c : ClientBuffer) (buffer : List ℕ) (need : ℕ)
    → c.buffer_size + need ≤ capacity
    → packet_buffer_read c buffer need ≡ (pos need, append_bytes c (take need buffer))
unfolding packet_buffer_read
read_fits c buffer need h = ground arith

-- What the message with `bytes` for the client c at r leaves, if no frame is bad.
pub record Received (n : ℕ) (s : ServerState) (r : ℕ) (c : Client) (bytes : List ℕ)
    (held : List MemoryRef) (result : Option ServerState) : Type 0 where
  pub after : ServerState
  pub returned : result ≡ some after
  pub context : ClientBuffer
  pub new : List NetPacket
  pub clients : after.clients ≡ set_context s.clients r c context
  pub delivered :
      Delivered n s.pool s.network
        (append_bytes c.context bytes)
        held
        (parse_all (pending c.context ++ bytes))
        after.pool
        after.network
        context
        new

-- What it leaves if a frame is bad: the client is closed.
pub record Refusing (n : ℕ) (s : ServerState) (r : ℕ) (c : Client) (bytes : List ℕ)
    (held : List MemoryRef) (result : Option ServerState) : Type 0 where
  pub after : ServerState
  pub returned : result ≡ some after
  pub new : List NetPacket
  pub closed :
      after.clients ≡ close_client (set_context s.clients r c (append_bytes c.context bytes)) r
  pub refused :
      Refused n s.pool s.network
        (append_bytes c.context bytes)
        held
        (parse_all (pending c.context ++ bytes))
        after.pool
        after.network
        new

-- An error code closes the client.
after_recv-code :
    (client_fd : ℕ) (again : ServerState → Option ServerState) (st : Status) (s : ServerState)
    → st ≢ finished
    → after_recv client_fd 0 again (code st, s) ≡ some (process_close_client s client_fd).1
unfolding after_recv
after_recv-code client_fd again finished s ne = absurd (ne refl)
after_recv-code client_fd again bad_body s ne = refl
after_recv-code client_fd again too_long s ne = refl

module _ (n fuel : ℕ) (clock : ℕ → ℕ → ℕ) (s : ServerState) (client_fd r ud : ℕ) (c : Client)
    (buffer : List ℕ) (held : List MemoryRef) (f : get_client_by_fd s.clients client_fd ≡ some r)
    (live : s.clients.store r ≡ some c) (z : IsSized c.context) (o : Owned n s.pool held)
    (l : suc ud ≤ length buffer) (fits : c.context.buffer_size + suc ud ≤ capacity) where
  bytes : List ℕ
  bytes = take (suc ud) buffer

  length-bytes : length bytes ≡ suc ud
  unfolding bytes
  length-bytes = omega (arith, length-take (suc ud) buffer)

  -- The round at once reads all the bytes.
  round_reads :
      message_round
        (clock fuel)
        s
        r
        client_fd
        buffer
        (suc ud)
        (λ s' rest left. message_loop fuel clock s' r client_fd rest left)
        c
      ≡ (execute_cmd_recv_all_packet (clock fuel) s r c (append_bytes c.context bytes)
          >>= after_recv client_fd 0
              (λ s'. message_loop fuel clock s' r client_fd (drop (suc ud) buffer) 0))
  unfolding message_round bytes
  round_reads = rw (read_fits c.context buffer (suc ud) fits) (
      ap
        (λ (k : ℕ).
          execute_cmd_recv_all_packet (clock fuel) s r c (append_bytes c.context bytes)
          >>= after_recv client_fd k
              (λ s'. message_loop fuel clock s' r client_fd (drop (suc ud) buffer) k))
        all_read)
    where
      all_read : suc ud - suc ud ≡ 0
      all_read = omega arith

  -- The loop is one round, in which all is read.
  one_round : process_message_data (suc fuel) clock s client_fd (some buffer) (pos (suc ud)) ≡ (
      execute_cmd_recv_all_packet (clock fuel) s r c (append_bytes c.context bytes)
      >>= after_recv client_fd 0
          (λ s'. message_loop fuel clock s' r client_fd (drop (suc ud) buffer) 0))
  unfolding process_message_data message_rounds bytes
  one_round =
      ap (message_found (suc fuel) clock s client_fd (some buffer) (pos (suc ud))) f
      ∙ (ap
            (λ o.
              o
              >>= message_round (clock fuel) s r client_fd buffer (suc ud)
                  (λ s' rest left. message_loop fuel clock s' r client_fd rest left))
            live
          ∙ round_reads)

  behind : ServerState → Option ServerState
  behind s' = message_loop fuel clock s' r client_fd (drop (suc ud) buffer) 0

  sized : IsSized (append_bytes c.context bytes)
  sized = append_bytes-IsSized c.context bytes z (omega (arith, length-bytes))

  parsed :
      parse_all (pending (append_bytes c.context bytes)) ≡ parse_all (pending c.context ++ bytes)
  parsed = ap parse_all (append_bytes-pending c.context bytes z (omega (arith, length-bytes)))

  -- If the bytes fit and no frame is bad, `_ProcessMessageData` returns after one round, whatever fuel it has: the
  -- frames of the bytes that waited and of the new ones have become packets, and the rest waits.
  pub process_message_data-receives :
      IsCounted s.network.recv
      → (parse_all (pending c.context ++ take (suc ud) buffer)).status ≡ finished
      → Received n s r c
          (take (suc ud) buffer)
          held
          (process_message_data (suc fuel) clock s client_fd (some buffer) (pos (suc ud)))
  unfolding execute_cmd_recv_all_packet unpacked after_recv bytes
  process_message_data-receives counted e =
      let (p', net', c', new, run, d) =
        unpack_packet_to_recv_queue-delivers n s.pool s.network (append_bytes c.context bytes) held
          (clock fuel) sized counted o (ap (λ (q : Parsed). q.status) parsed ∙ e) in
      record {
        after = record { pool = p'; network = net'; clients = set_context s.clients r c c' };
        returned =
            one_round
            ∙ ap
                (λ q.
                  (q >>= λ result. some (unpacked s r c result)) >>= after_recv client_fd 0 behind)
                run;
        context = c';
        new = new;
        clients = refl;
        delivered =
            subst
              (λ q.
                Delivered n s.pool s.network (append_bytes c.context bytes) held q p' net' c' new)
              parsed d;
      }

  -- If the bytes fit and a frame is bad, `_ProcessMessageData` closes the client.
  pub process_message_data-refuses :
      (parse_all (pending c.context ++ take (suc ud) buffer)).status ≢ finished
      → Refusing n s r c
          (take (suc ud) buffer)
          held
          (process_message_data (suc fuel) clock s client_fd (some buffer) (pos (suc ud)))
  unfolding execute_cmd_recv_all_packet unpacked process_close_client close_found get_client_by_fd
      bytes behind set_context
  process_message_data-refuses ne =
      let st = (parse_all (pending c.context ++ bytes)).status in
      let (p', net', new, run, d) =
        unpack_packet_to_recv_queue-refuses n s.pool s.network (append_bytes c.context bytes) held
          (clock fuel) sized o (λ i. ne (sym (ap (λ (q : Parsed). q.status) parsed) ∙ i)) in
      let s' : ServerState = record {
        pool = p';
        network = net';
        clients = set_context s.clients r c (append_bytes c.context bytes);
      } in
      record {
        after = record s' { clients = close_client s'.clients r };
        returned =
            one_round
            ∙ ap
                (λ q.
                  (q >>= λ result. some (unpacked s r c result)) >>= after_recv client_fd 0 behind)
                run
            ∙ ap (λ (q : Parsed). after_recv client_fd 0 behind (code q.status, s')) parsed
            ∙ after_recv-code client_fd behind st s' ne
            ∙ ap (λ o'. some (close_found s' o').1) f;
        new = new;
        closed = refl;
        refused =
            subst
              (λ q. Refused n s.pool s.network (append_bytes c.context bytes) held q p' net' new)
              parsed d;
      }
