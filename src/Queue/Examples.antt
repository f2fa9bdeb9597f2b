-- ===== src/Queue/Examples.antt =====
-- Queues with a stale count, and the queue's theorems at them.
use game_server.Prelude.{◌≡◌, refl, [], ◌∷◌, arith, some}
use game_server.Prelude.Int.{pos}
use game_server.Memory.{MemoryPool, new_pool, pooled}
use game_server.Memory.Ownership.{Owned-new_pool}
use game_server.Packet.{NetPacket, net_packet}
use game_server.Queue
use game_server.Queue.{NetPacketQueue, copy_from, add_packet, release_all_packets}
use game_server.Queue.Laws.{copy_from_lem}
use game_server.Queue.Ownership.{Added, add_packet_lem, new_packet}

abbrev packet : NetPacket
packet = net_packet 7 3 (pos 1) 2 0 (pooled 0)

-- As `ReleaseAllPackets` leaves a queue.
abbrev stale : NetPacketQueue
stale = record { packet_num = 5; packets = [] }

abbrev one : NetPacketQueue
one = record { packet_num = 1; packets = packet ∷ [] }

copy_stale : copy_from stale one ≡ (1, one, Queue.init)
unfolding copy_from
copy_stale = refl

copy_from_lem_example :
    let (n, q', other') = copy_from stale one in
    (q'.packets ≡ packet ∷ []) × (n ≡ 1) × (q'.packet_num ≡ n) × (other' ≡ Queue.init)
copy_from_lem_example = copy_from_lem stale one (omega arith)

add_packet_lem_example :
    let k = new_packet (new_pool 2) 7 3 (pos 1) 2 0 in
    (p' : MemoryPool) × (add_packet (new_pool 2) one 7 3 (pos 1) 2 (10 ∷ 20 ∷ 30 ∷ []) 0
      ≡ some (p', record { packet_num = 2; packets = packet ∷ k ∷ [] }))
    × Added 2 (new_pool 2) [] 2 (10 ∷ 20 ∷ 30 ∷ []) k p'
add_packet_lem_example =
    add_packet_lem 2 (new_pool 2) [] one 7 3 (pos 1) 2 (10 ∷ 20 ∷ 30 ∷ []) 0 (Owned-new_pool 2)
      (omega arith) (omega arith)
