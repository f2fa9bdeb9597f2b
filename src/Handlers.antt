-- ===== src/Handlers.antt =====
-- The servers' state, and the call that both kinds of servers make for a client's bytes:
-- network/context.h, `ServerContext::ExecuteCmdRecvAllPacket`. Its children model the handlers of
-- network/socket/server_logic.cpp and network/libevent/libevent_handle.cpp.
pub mod Socket
pub mod Libevent
use game_server.Prelude.{ℕ, List, Option, none, some, ◌>>=◌}
use game_server.Prelude.Int.{ℤ}
use game_server.Memory.{MemoryPool}
use game_server.Network.{NetworkContext, unpack_packet_to_recv_queue}
use game_server.Network.Buffer.{ClientBuffer}
use game_server.Clients.{Client, Clients, store_set}

-- `ServerContext`, with the memory pool that all share.
pub record ServerState : Type 0 where
  pub pool : MemoryPool
  pub network : NetworkContext
  pub clients : Clients

-- The context at r after a change of its buffer
unfoldable pub set_context : Clients → ℕ → Client → ClientBuffer → Clients
set_context cs r c b = record cs { store = store_set cs.store r (some (record c { context = b })) }

-- What a call of `UnpackPacketToRecvQueue` for the context at r leaves.
unfoldable pub unpacked :
    ServerState → ℕ → Client → ℤ × MemoryPool × NetworkContext × ClientBuffer → ℤ × ServerState
unpacked s r c (ret, pool, network, b) =
    (ret, record { pool = pool; network = network; clients = set_context s.clients r c b })

-- `ExecuteCmdRecvAllPacket` for the context c at r, whose buffer is b; the clock is read once for each
-- packet. `none` is a failed assertion.
unfoldable pub execute_cmd_recv_all_packet :
    (ℕ → ℕ) → ServerState → ℕ → Client → ClientBuffer → Option (ℤ × ServerState)
unfolding unpacked
execute_cmd_recv_all_packet clock s r c b =
    unpack_packet_to_recv_queue clock s.pool s.network b >>= λ result. some (unpacked s r c result)
