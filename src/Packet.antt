-- ===== src/Packet.antt =====
-- network/packet.h: `NetPacketBuffer`, a packet in a queue, and the header and tail around its body
-- on the wire. `GetMilliSecond()` is an argument. The constructor without a memory and
-- `RequireMemory` are called by nobody and are left out.
use game_server.Prelude.{ℕ, ◌+◌, ◌-◌, ◌%◌, ◌^◌, List, ◌++◌, Option, none, some, take}
use game_server.Prelude.Int.{ℤ, pos, negsuc}
use game_server.Wire.{pack_int}
use game_server.Memory
use game_server.Memory.{
  MemoryRef, MemoryPool, memory_at, set_memory, get_buffer, release_packet_memory,
}

-- `NETWORK_PACKET_HEADER_SIZE` and `NETWORK_PACKET_TAIL_SIZE`
abbrev pub header_size : ℕ
header_size = 4

abbrev pub tail_size : ℕ
tail_size = 8

pub record NetPacket : Type 0 where
  pub client_seq : ℕ
  pub sock_fd : ℕ
  pub proto_no : ℤ
  pub buffer_size : ℕ
  pub create_time : ℕ
  pub memory : MemoryRef

-- `m_pstMemory->Init(iBufferSize, pchBuffer)`
init_result : MemoryPool → MemoryRef → Option Memory.PacketMemory → Option MemoryPool
init_result p r none = none
init_result p r (some m) = some (set_memory p r m)

unfoldable pub init_memory : MemoryPool → MemoryRef → ℕ → List ℕ → Option MemoryPool
unfolding init_result
init_memory p r size buffer = init_result p r (Memory.init (memory_at p r) size buffer)

-- The constructor's fields; the memory is filled by `init_memory`.
abbrev pub net_packet : ℕ → ℕ → ℤ → ℕ → ℕ → MemoryRef → NetPacket
net_packet client_seq sock_fd proto_no buffer_size now r = record {
  client_seq = client_seq;
  sock_fd = sock_fd;
  proto_no = proto_no;
  buffer_size = buffer_size;
  create_time = now;
  memory = r;
}

-- `GetPacketSize()`
pub get_packet_size : NetPacket → ℕ
get_packet_size k = k.buffer_size + header_size

-- The first `GetBufferSize()` bytes at `GetBuffer()`.
unfoldable pub packet_body : MemoryPool → NetPacket → List ℕ
packet_body p k = take k.buffer_size (get_buffer (memory_at p k.memory))

-- `ReleaseMemory()`
unfoldable pub release_memory : MemoryPool → NetPacket → MemoryPool
release_memory p k = release_packet_memory p k.memory

-- `(int16_t)`
unfoldable pub to_int16 : ℤ → ℕ
to_int16 (pos n) = n % 2 ^ 16
to_int16 (negsuc n) = 2 ^ 16 - 1 - n % 2 ^ 16

-- `PrepareHeader`
unfoldable pub prepare_header : NetPacket → List ℕ
prepare_header k =
    pack_int 2 ((k.buffer_size + header_size + tail_size) % 2 ^ 16)
    ++ pack_int 2 (to_int16 k.proto_no)

-- `PrepareTail`, with the clock's reading.
unfoldable pub prepare_tail : ℕ → List ℕ
prepare_tail now = pack_int tail_size (now % 2 ^ 64)

-- What `PacketBufferSend` writes to the peer, in both client contexts, and its result.
unfoldable pub packet_buffer_send : MemoryPool → NetPacket → ℕ → List ℕ × ℕ
packet_buffer_send p k now = (
  prepare_header k ++ (packet_body p k ++ prepare_tail now),
  header_size + k.buffer_size + tail_size,
)
