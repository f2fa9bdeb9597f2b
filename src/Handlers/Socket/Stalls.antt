-- ===== src/Handlers/Socket/Stalls.antt =====
-- network/socket/server_logic.cpp, `_ProcessMessageData`: bytes that do not fit into the client's
-- buffer while no frame can leave it.
use game_server.Prelude.{
  ℕ, zero, suc, ◌∙◌, ap, sym, ◌≡◌, ◌<◌, refl, ◌+◌, ◌-◌, List, [], ◌∷◌, ◌++◌, Option, none, some,
  ◌>>=◌, length, take, drop, length-take, arith,
}
use game_server.Prelude.Int.{pos, negsuc}
use game_server.Memory.{MemoryRef}
use game_server.Memory.Ownership.{Owned}
use game_server.Packet.{header_size}
use game_server.Queue.Laws.{IsCounted}
use game_server.Queue.Ownership.{memories_of}
use game_server.Network.Buffer.{ClientBuffer, capacity, pending, IsSized}
use game_server.Network.Framing.{
  Head, incomplete, empty_body, oversized, whole, finished, bad_body, too_long, Parsed, parse,
  parse_all, prepend, read_head,
}
use game_server.Network.Unpack.{unpack_packet_to_recv_queue-delivers}
use game_server.Clients.{Client, Clients, get_client_by_fd}
use game_server.Handlers.{ServerState, set_context, unpacked, execute_cmd_recv_all_packet}
use game_server.Handlers.Socket.{
  packet_buffer_read, after_recv, message_round, message_rounds, message_loop, process_message_data,
  message_found,
}

-- What one look at the front gives.
abbrev look_at : ℕ → List ℕ → Head → Parsed
look_at fuel bytes head = elim head [
  | incomplete ↦ record { status = finished; frames = []; rest = bytes }
  | empty_body ↦ record { status = bad_body; frames = []; rest = bytes }
  | oversized ↦ record { status = too_long; frames = []; rest = bytes }
  | whole proto size body ↦
      prepend ((proto, take (size - header_size) body) ∷ []) (parse fuel (drop size bytes))
]

-- Where no frame is read, no byte is.
look_at-rest :
    (fuel : ℕ) (bytes : List ℕ) (head : Head)
    → (look_at fuel bytes head).frames ≡ []
    → (look_at fuel bytes head).rest ≡ bytes
look_at-rest fuel bytes incomplete e = refl
look_at-rest fuel bytes empty_body e = refl
look_at-rest fuel bytes oversized e = refl
look_at-rest fuel bytes (whole proto size body) e = absurd (ground arith)

parse-rest :
    (fuel : ℕ) (bytes : List ℕ) → (parse fuel bytes).frames ≡ [] → (parse fuel bytes).rest ≡ bytes
unfolding parse
parse-rest zero bytes e = refl
parse-rest (suc fuel) bytes e = look_at-rest fuel bytes (read_head (length bytes) bytes) e

parse_all-rest : (bytes : List ℕ) → (parse_all bytes).frames ≡ [] → (parse_all bytes).rest ≡ bytes
unfolding parse_all
parse_all-rest bytes e = parse-rest (length bytes + 1) bytes e

read_stalls :
    (c : ClientBuffer) (buffer : List ℕ) (need : ℕ)
    → IsSized c
    → capacity < c.buffer_size + need
    → packet_buffer_read c buffer need ≡ (negsuc 0, c)
unfolding packet_buffer_read
read_stalls c buffer need z h = ground (arith, z.within)

length-pending : (c : ClientBuffer) → IsSized c → length (pending c) ≡ c.buffer_size
length-pending c z = omega (arith, length-take c.buffer_size c.buffer, z.whole, z.within)

set_context-store :
    (cs : Clients) (r : ℕ) (c : Client) (b : ClientBuffer)
    → (set_context cs r c b).store r ≡ some (record c { context = b })
unfolding set_context
set_context-store cs r c b = ground arith

module _ (n : ℕ) (clock : ℕ → ℕ → ℕ) (client_fd r ud : ℕ) (buffer : List ℕ) where
  none_taken : suc ud - 0 ≡ suc ud
  none_taken = omega arith

  -- After n rounds: the message is where it was, and the loop goes on with it.
  stalls :
      (fuel : ℕ) (next : ServerState → List ℕ → ℕ → Option ServerState) (s : ServerState)
      (c : Client) (held : List MemoryRef)
      → s.clients.store r ≡ some c
      → IsSized c.context
      → IsCounted s.network.recv
      → Owned n s.pool held
      → capacity < c.context.buffer_size + suc ud
      → (parse_all (pending c.context)).status ≡ finished
      → (parse_all (pending c.context)).frames ≡ []
      → (s' : ServerState) × (message_rounds fuel next clock s r client_fd buffer (suc ud)
          ≡ next s' buffer (suc ud))
  unfolding message_rounds message_round after_recv execute_cmd_recv_all_packet unpacked set_context
  stalls zero next s c held live z counted o full e none_read = (s, refl)
  stalls (suc fuel) next s c held live z counted o full e none_read =
      let (p', net', c', new, run, d) =
        unpack_packet_to_recv_queue-delivers n s.pool s.network c.context held (clock fuel) z
          counted o e in
      let s' : ServerState = record {
        pool = p';
        network = net';
        clients = set_context s.clients r c c';
      } in
      let same : pending c' ≡ pending c.context =
        d.bytes ∙ parse_all-rest (pending c.context) none_read in
      let as_full : c'.buffer_size ≡ c.context.buffer_size =
        sym (length-pending c' d.sized) ∙ ap length same ∙ length-pending c.context z in
      let (after, goes_on) =
        stalls fuel next s' (record c { context = c' }) (memories_of new ++ held)
          (set_context-store s.clients r c c') d.sized (omega (arith, d.counted)) d.owned
          (omega (arith, as_full, full)) (ap (λ q. (parse_all q).status) same ∙ e)
          (ap (λ q. (parse_all q).frames) same ∙ none_read) in
      (
        after,
        ap
              (λ o'.
                o'
                >>= message_round (clock fuel) s r client_fd buffer (suc ud)
                    (λ s'' rest left. message_rounds fuel next clock s'' r client_fd rest left))
              live
            ∙ (rw (read_stalls c.context buffer (suc ud) z full) (
                ap
                  (λ q.
                    (q >>= λ result. some (unpacked s r c result))
                    >>= after_recv client_fd (suc ud - 0)
                        (λ s''. message_rounds fuel next clock s'' r client_fd buffer (suc ud - 0)))
                  run
                ∙ ap
                    (λ (k : ℕ).
                      after_recv client_fd k
                        (λ s''. message_rounds fuel next clock s'' r client_fd buffer k)
                        (pos 0, s'))
                    none_taken
                ∙ goes_on)),
      )

  -- If the bytes do not fit behind those that wait, and no frame leaves those, `_ProcessMessageData`
  -- never returns: it enters its loop, and after any number of rounds, whatever comes next, none of
  -- the bytes has been taken, no assertion has failed, and the loop goes on with the message as it
  -- was. So it has no result on any fuel.
  pub process_message_data-stalls :
      (s : ServerState) (c : Client) (held : List MemoryRef)
      → get_client_by_fd s.clients client_fd ≡ some r
      → s.clients.store r ≡ some c
      → IsSized c.context
      → IsCounted s.network.recv
      → Owned n s.pool held
      → capacity < c.context.buffer_size + suc ud
      → (parse_all (pending c.context)).status ≡ finished
      → (parse_all (pending c.context)).frames ≡ []
      → ((rounds : ℕ) (next : ServerState → List ℕ → ℕ → Option ServerState)
          → (s' : ServerState) × (message_rounds rounds next clock s r client_fd buffer (suc ud)
              ≡ next s' buffer (suc ud)))
        × ((fuel : ℕ)
            → (process_message_data fuel clock s client_fd (some buffer) (pos (suc ud))
                ≡ message_loop fuel clock s r client_fd buffer (suc ud))
              × (process_message_data fuel clock s client_fd (some buffer) (pos (suc ud)) ≡ none))
  unfolding process_message_data
  process_message_data-stalls s c held f live z counted o full e none_read = (
    λ rounds next. stalls rounds next s c held live z counted o full e none_read,
    λ fuel.
        let entered = ap (message_found fuel clock s client_fd (some buffer) (pos (suc ud))) f in
        (
          entered,
          entered
              ∙ (stalls fuel (λ s' rest left. none) s c held live z counted o full e none_read).1,
        ),
  )
