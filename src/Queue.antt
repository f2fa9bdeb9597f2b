-- ===== src/Queue.antt =====
-- network/queue.h: `NetPacketQueue`. The packet count is a field of its own, which
-- `ReleaseAllPackets` leaves as it was.
pub mod Ownership
pub mod Laws
mod Examples
use game_server.Prelude.{
  ℕ, zero, suc, ◌+◌, List, [], ◌∷◌, ◌++◌, Option, none, some, ltb, if◌then◌else◌, length,
}
use game_server.Prelude.Int.{ℤ}
use game_server.Memory.{MemoryPool, MemoryRef, get_free_packet_memory}
use game_server.Packet.{NetPacket, net_packet, init_memory, release_memory}

pub record NetPacketQueue : Type 0 where
  pub packet_num : ℕ
  pub packets : List NetPacket

-- `Init`, also the constructor.
abbrev pub init : NetPacketQueue
init = record { packet_num = 0; packets = [] }

-- `CopyFrom`: the result, this queue and the other one. With a positive count the other's packets are
-- inserted at the end; else the vectors are swapped. `Init` then empties the other queue.
unfoldable pub copy_from : NetPacketQueue → NetPacketQueue → ℕ × NetPacketQueue × NetPacketQueue
copy_from q other =
    if ltb 0 q.packet_num
    then (let all = q.packets ++ other.packets in
        (length all, record { packet_num = length all; packets = all }, init))
    else (
      length other.packets,
      record { packet_num = length other.packets; packets = other.packets },
      init,
    )

-- `emplace_back` and the count, once the memory is filled.
pushed : NetPacketQueue → NetPacket → Option MemoryPool → Option (MemoryPool × NetPacketQueue)
pushed q k none = none
pushed q k (some p) =
    some (p, record { packet_num = q.packet_num + 1; packets = q.packets ++ k ∷ [] })

-- `AddPacket`; `none` is the failed assertion on the size.
unfoldable pub add_packet :
    MemoryPool → NetPacketQueue → ℕ → ℕ → ℤ → ℕ → List ℕ → ℕ → Option (MemoryPool × NetPacketQueue)
unfolding pushed
add_packet p q client_seq sock_fd proto_no size buffer now =
    let (r, lent) = get_free_packet_memory p in
    pushed q (net_packet client_seq sock_fd proto_no size now r) (init_memory lent r size buffer)

release_each : MemoryPool → List NetPacket → MemoryPool
release_each p [] = p
release_each p (k ∷ ks) = release_each (release_memory p k) ks

-- `ReleaseAllPackets`: the vector is cleared, and `m_iPacketNum` keeps its value.
unfoldable pub release_all_packets : MemoryPool → NetPacketQueue → MemoryPool × NetPacketQueue
unfolding release_each
release_all_packets p q = (release_each p q.packets, record q { packets = [] })
