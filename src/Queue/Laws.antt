-- ===== src/Queue/Laws.antt =====
-- What the queue's operations do to the packets in it.
use game_server.Prelude.{◌+◌, ◌≤◌, ◌≡◌, ◌++◌, arith, length, length-append, nil_of_length-zero}
use game_server.Queue.{NetPacketQueue, copy_from, init}

-- The count may be stale, but is never below the number of packets.
abbrev pub IsCounted : NetPacketQueue → Type 0
IsCounted q = length q.packets ≤ q.packet_num

-- A queue whose count is right.
abbrev pub IsExact : NetPacketQueue → Type 0
IsExact q = q.packet_num ≡ length q.packets

-- On both branches `CopyFrom` moves all packets of the other queue behind this one's, in order,
-- returns and stores how many there are now, and leaves the other queue empty.
pub copy_from_lem :
    (q other : NetPacketQueue)
    → IsCounted q
    → let (n, q', other') = copy_from q other in
      (q'.packets ≡ q.packets ++ other.packets)
      × (n ≡ length q.packets + length other.packets)
      × (q'.packet_num ≡ n)
      × (other' ≡ init)
unfolding copy_from
copy_from_lem q other c =
    ground (arith, length-append q.packets other.packets, nil_of_length-zero q.packets)

-- The other queue is emptied, whatever the counts say.
pub copy_from-init : (q other : NetPacketQueue) → (copy_from q other).2 ≡ init
unfolding copy_from
copy_from-init q other = ground arith
