-- ===== src/Server.antt =====
-- network/context.h, `ServerContext` and `ConnectorContext`: how the queued packets are sent. The logic
-- thread may call `PacketSendPrepare` while the network thread is in the loop; a schedule says what it
-- has prepared before each of the loop's later looks at the send queue.
pub mod Sending
pub mod Rounds
pub mod Contexts
mod Examples
use game_server.Prelude.{
  ℕ, zero, suc, ◌+◌, ◌-◌, ◌^◌, List, [], ◌∷◌, ◌++◌, Option, none, some, ◌>>=◌, Bool, true, false,
  ltb, length,
}
use game_server.Memory.{MemoryPool}
use game_server.Packet.{NetPacket, packet_buffer_send}
use game_server.Queue
use game_server.Queue.{NetPacketQueue, release_all_packets}
use game_server.Network.{NetworkContext, packet_send_prepare, packet_send_prepare_cache}
use game_server.Clients.{Client, Clients, Kind, libevent_client, socket_client, get_client}

-- Where `PacketBufferSend` writes: to the client's own `bufferevent`, or, through the socket server, to
-- the descriptor in the packet.
pub data Target : Type 0 where
  to_event : ℕ → Target
  to_socket : ℕ → Target

pub record Sent : Type 0 where
  pub target : Target
  pub bytes : List ℕ

unfoldable pub target_of : Kind → ℕ → NetPacket → Target
target_of libevent_client r k = to_event r
target_of socket_client r k = to_socket k.sock_fd

-- `PacketBufferSend` of the context at r
unfoldable pub send_to : Client → ℕ → MemoryPool → NetPacket → ℕ → Sent
unfolding target_of
send_to c r p k now = record {
  target = target_of c.kind r k;
  bytes = (packet_buffer_send p k now).0;
}

-- What the loop does with one packet, given what was sent before.
abbrev pub Sender : Type 0
Sender = MemoryPool → NetPacket → List Sent → Option (List Sent)

-- The loop's body in `ServerContext`: a packet whose client is gone is skipped. The clock's reading is
-- that of the packet's place among those sent. `none` is a dangling pointer in the client pool.
unfoldable pub send_found :
    Clients → (ℕ → ℕ) → MemoryPool → NetPacket → List Sent → Option ℕ → Option (List Sent)
send_found cs clock p k sent none = some sent
send_found cs clock p k sent (some r) =
    cs.store r >>= λ c. some (sent ++ send_to c r p k (clock (length sent)) ∷ [])

unfoldable pub send_to_clients : Clients → (ℕ → ℕ) → Sender
unfolding send_found
send_to_clients cs clock p k sent = send_found cs clock p k sent (get_client cs k.client_seq)

-- The loop's body in `ConnectorContext`, whose only client is at r.
unfoldable pub send_to_server : Client → ℕ → (ℕ → ℕ) → Sender
send_to_server c r clock p k sent = some (sent ++ send_to c r p k (clock (length sent)) ∷ [])

pub record SendState : Type 0 where
  pub pool : MemoryPool
  pub network : NetworkContext
  pub sent : List Sent

-- The `for` loop over the cache
unfoldable pub send_packets : Sender → MemoryPool → List NetPacket → List Sent → Option (List Sent)
send_packets send p [] sent = some sent
send_packets send p (k ∷ ks) sent = send p k sent >>= send_packets send p ks

-- The `do` loop's body, up to `ReleaseAllPackets`
unfoldable pub send_round : Sender → SendState → Option SendState
send_round send s = do
  sent ← send_packets send s.pool s.network.send_cache.packets s.sent
  let (pool, cache) = release_all_packets s.pool s.network.send_cache
  some (record { pool = pool; network = record s.network { send_cache = cache }; sent = sent })

-- The logic thread adds packets to `m_stNetPacketSendPrepareQueue` and calls `PacketSendPrepare`.
unfoldable pub arrive : List NetPacket → NetworkContext → NetworkContext
arrive ks c =
    (packet_send_prepare (record c {
      send_prepare = record {
        packet_num = c.send_prepare.packet_num + length ks;
        packets = c.send_prepare.packets ++ ks;
      };
    })).1

-- `PacketSendPrepareCache` of the context c: the count, and the state with the context after it.
unfoldable pub look : SendState → NetworkContext → ℕ × SendState
look s c = let (total, c') = packet_send_prepare_cache c in (total, record s { network = c' })

-- `while (iTotalPackets > 0)`
unfoldable pub loop_while :
    ℕ × SendState → (SendState → Option (ℕ × SendState)) → Option (ℕ × SendState)
loop_while (zero, s) again = some (0, s)
loop_while (suc total, s) again = again s

-- The loop, at what the logic thread does before each of the next calls of `PacketSendPrepareCache`.
-- After the schedule the thread does nothing; `none` would be a loop that goes on.
unfoldable pub send_loop : Sender → List (List NetPacket) → SendState → Option (ℕ × SendState)
unfolding loop_while
send_loop send [] s = send_round send s >>= λ s'. loop_while (look s' s'.network) (λ _. none)
send_loop send (ks ∷ later) s =
    send_round send s >>= λ s'. loop_while (look s' (arrive ks s'.network)) (send_loop send later)

-- `ExecuteCmdSendAllPacket` with either body; that of a connector without a client is below.
unfoldable pub execute_cmd_send_all_packet :
    Sender → List (List NetPacket) → SendState → Option (ℕ × SendState)
unfolding send_loop
execute_cmd_send_all_packet send schedule s =
    send_loop send schedule (record s { network = (packet_send_prepare_cache s.network).1 })

-- `ExecuteCmdSendAllPacket` of `ConnectorContext`, whose client is at r, or NULL; -1 as a size_t.
unfoldable pub connector_execute_cmd_send_all_packet :
    Option (Client × ℕ) → (ℕ → ℕ) → List (List NetPacket) → SendState → Option (ℕ × SendState)
connector_execute_cmd_send_all_packet none clock schedule s = some (2 ^ 64 - 1, s)
connector_execute_cmd_send_all_packet (some (c, r)) clock schedule s =
    execute_cmd_send_all_packet (send_to_server c r clock) schedule s
