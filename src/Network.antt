-- ===== src/Network.antt =====
-- network/context.h: `NetworkContext`, the six queues between the network thread and the logic
-- thread, and the unpacking of a client's bytes. Each spinlock section is one step. The memory pool
-- is the singleton `CPacketMemoryPool::Instance()`, and is passed along.
pub mod Buffer
pub mod Framing
pub mod Receive
pub mod Unpack
pub mod RoundTrip
pub mod Views
mod Examples
use game_server.Prelude.{
  ℕ, zero, suc, ◌+◌, ◌-◌, List, [], ◌∷◌, ◌++◌, Option, none, some, Bool, true, false, ltb,
  if◌then◌else◌, length, take, drop,
}
use game_server.Prelude.Int.{ℤ}
use game_server.Memory.{MemoryPool}
use game_server.Packet.{NetPacket, header_size}
use game_server.Signal.{emit}
use game_server.Queue
use game_server.Queue.{NetPacketQueue, copy_from, add_packet}
use Buffer.{ClientBuffer, move_buffer_ptr}
use Framing.{
  Head, incomplete, empty_body, oversized, whole, read_head, Status, finished, bad_body, too_long,
  code,
}

pub record NetworkContext : Type 0 where
  pub recv_prepare : NetPacketQueue
  pub recv : NetPacketQueue
  pub logic : NetPacketQueue
  pub send_prepare : NetPacketQueue
  pub send : NetPacketQueue
  pub send_cache : NetPacketQueue
  pub signal : Bool

abbrev pub new_context : NetworkContext
new_context = record {
  recv_prepare = Queue.init;
  recv = Queue.init;
  logic = Queue.init;
  send_prepare = Queue.init;
  send = Queue.init;
  send_cache = Queue.init;
  signal = false;
}

-- `PacketRecvPrepare`
unfoldable pub packet_recv_prepare : NetworkContext → ℕ × NetworkContext
packet_recv_prepare c =
    let (n, recv, prepare) = copy_from c.recv c.recv_prepare in
    (n, record c { recv = recv; recv_prepare = prepare })

-- `CopyPacketsFromNetToLogic`
unfoldable pub copy_packets_from_net_to_logic : NetworkContext → ℕ × NetworkContext
copy_packets_from_net_to_logic c =
    let (n, logic, recv) = copy_from Queue.init c.recv in
    (n, record c { logic = logic; recv = recv })

-- `PackProtobufStruct`: `body` is what the library serialises.
unfoldable pub pack_protobuf_struct : ℕ → ℕ → List ℕ → List ℕ × ℕ
pack_protobuf_struct buffer_size proto_size body =
    let n = if ltb proto_size buffer_size then proto_size else buffer_size in (take n body, 2 + n)

-- Where `AddPacket` leaves the queue
unfoldable pub produced :
    NetworkContext → Option (MemoryPool × NetPacketQueue) → Option (MemoryPool × NetworkContext)
produced c none = none
produced c (some (p, q)) = some (p, record c { send_prepare = q })

-- `PacketProduceProtobufPacket`; the message is the bytes to which it is serialised.
unfoldable pub packet_produce_protobuf_packet :
    MemoryPool → NetworkContext → ℕ → ℕ → ℤ → List ℕ → ℕ → Option (MemoryPool × NetworkContext)
unfolding produced pack_protobuf_struct
packet_produce_protobuf_packet p c client_seq client_fd proto_no body now =
    let size = length body in
    let buffer = (pack_protobuf_struct size size body).0 in
    produced c (add_packet p c.send_prepare client_seq client_fd proto_no size buffer now)

-- `PacketSendPrepare`
unfoldable pub packet_send_prepare : NetworkContext → ℕ × NetworkContext
packet_send_prepare c =
    let (n, send, prepare) = copy_from c.send c.send_prepare in
    (n, record c { send = send; send_prepare = prepare })

-- `PacketSendPrepareCache`
unfoldable pub packet_send_prepare_cache : NetworkContext → ℕ × NetworkContext
packet_send_prepare_cache c =
    let (_, cache, send) = copy_from c.send_cache c.send in
    (cache.packet_num, record c { send_cache = cache; send = send })

-- The loop's variables, with the pool and `m_stNetPacketRecvPrepareQueue`.
pub record Loop : Type 0 where
  pub pool : MemoryPool
  pub queue : NetPacketQueue
  pub offset : ℕ
  pub left : ℕ
  pub total : ℕ

advanced : Loop → ℕ → Option (MemoryPool × NetPacketQueue) → Option Loop
advanced s size none = none
advanced s size (some (p, q)) = some (record {
  pool = p;
  queue = q;
  offset = s.offset + size;
  left = s.left - size;
  total = s.total + 1;
})

-- The end of the loop's body: `AddPacket`, and the pointer and the counts move on. The clock's
-- reading number `total` is the packet's creation time.
unfoldable pub take_packet : (ℕ → ℕ) → ClientBuffer → Loop → ℤ → ℕ → List ℕ → Option Loop
unfolding advanced
take_packet clock c s proto size body = advanced s size (
    add_packet s.pool s.queue c.client_seq c.client_fd proto (size - header_size) body
      (clock s.total))

and_then {ℓ κ} : {A : Type ℓ} {B : Type κ} → Option A → (A → Option B) → Option B
and_then none f = none
and_then (some a) f = f a

-- The `while` loop of `UnpackPacketToRecvQueue`; `none` is a failed assertion, or no fuel.
unfoldable pub unpack_loop : ℕ → (ℕ → ℕ) → ClientBuffer → Loop → Option (Status × Loop)
unfolding and_then
unpack_loop zero clock c s = none
unpack_loop (suc fuel) clock c s = elim (read_head s.left (drop s.offset c.buffer)) [
  | incomplete ↦ some (finished, s)
  | empty_body ↦ some (bad_body, s)
  | oversized ↦ some (too_long, s)
  | whole proto size body ↦
      and_then (take_packet clock c s proto size body) (λ s'. unpack_loop fuel clock c s')
]

-- What follows the loop: nothing after an early return; else the buffer is moved, the packets go to
-- the receive queue, and the signal is raised if there were any.
after_loop :
    NetworkContext → ClientBuffer → Status × Loop → ℤ × MemoryPool × NetworkContext × ClientBuffer
after_loop n c (finished, s) =
    let c' = move_buffer_ptr c s.offset s.left in
    let (_, n') = packet_recv_prepare (record n { recv_prepare = s.queue }) in
    let n'' = record n' { signal = if ltb 0 s.total then emit n'.signal else n'.signal } in
    (code finished, s.pool, n'', c')
after_loop n c (bad_body, s) = (code bad_body, s.pool, record n { recv_prepare = s.queue }, c)
after_loop n c (too_long, s) = (code too_long, s.pool, record n { recv_prepare = s.queue }, c)

finish :
    NetworkContext
    → ClientBuffer
    → Option (Status × Loop)
    → Option (ℤ × MemoryPool × NetworkContext × ClientBuffer)
unfolding after_loop
finish n c none = none
finish n c (some r) = some (after_loop n c r)

-- `UnpackPacketToRecvQueue`: its result, and the pool, the context and the client's buffer after it.
unfoldable pub unpack_packet_to_recv_queue :
    (ℕ → ℕ)
    → MemoryPool
    → NetworkContext
    → ClientBuffer
    → Option (ℤ × MemoryPool × NetworkContext × ClientBuffer)
unfolding finish
unpack_packet_to_recv_queue clock p n c =
    let start : Loop = record {
      pool = p;
      queue = n.recv_prepare;
      offset = 0;
      left = c.buffer_size;
      total = 0;
    } in
    finish n c (unpack_loop (c.buffer_size + 1) clock c start)
