-- ===== src/Queue/Ownership.antt =====
-- The packets of a queue hold packet memories: `AddPacket` takes one from the pool and fills it, and
-- `ReleaseAllPackets` gives them all back.
use game_server.Prelude.{
  ℕ, ◌+◌, ◌<◌, ◌≤◌, ◌≡◌, refl, ap, ◌∙◌, List, [], ◌∷◌, ◌++◌, Option, none, some, arith, ltb, length,
  length-take, take, drop, take-append, take-all, inl, inr, Bool-cases, count, count-append,
  count-cons, count-cons_self,
}
use game_server.Prelude.Int.{ℤ}
use game_server.Memory
use game_server.Memory.{
  PacketMemory, MemoryPool, MemoryRef, memory_at, set_memory, get_buffer, get_free_packet_memory,
  max_size, default_size, pooled, allocated,
}
use game_server.Memory.Ownership.{
  Owned, pooled_indices, addresses, get_free_packet_memory-Owned, release_packet_memory-Owned,
  Owned-reorder,
}
use game_server.Memory.Contents.{
  IsHeld, set_memory-keeps, set_memory_self, set_memory-Owned, get_free_packet_memory-keeps,
  get_free_packet_memory-cleared, release_packet_memory-keeps,
}
use game_server.Packet.{NetPacket, net_packet, init_memory, packet_body, release_memory}
use game_server.Queue.{NetPacketQueue, add_packet, release_each, release_all_packets}

-- `Init` on a memory without extra space: the index stays, and the first `size` bytes at
-- `GetBuffer()` are those of the argument, in the array or in extra space.
record Filled (m : PacketMemory) (size : ℕ) (buffer : List ℕ) (out : Option PacketMemory)
    : Type 0 where
  after : PacketMemory
  filled : out ≡ some after
  index : after.index ≡ m.index
  bytes : take size (get_buffer after) ≡ take size buffer

init-Filled :
    (m : PacketMemory) (size : ℕ) (buffer : List ℕ)
    → m.extra ≡ none
    → size ≤ max_size
    → size ≤ length buffer
    → Filled m size buffer (Memory.init m size buffer)
unfolding Memory.init get_buffer
init-Filled m size buffer e h l = elim (Bool-cases (ltb size default_size)) [
  | inl small ↦ record {
    after = record m { bytes = take size buffer ++ drop size m.bytes };
    filled = rw small;
    index = refl;
    bytes = ground (
      arith,
      take-append size (take size buffer) (drop size m.bytes)
          (omega (arith, length-take size buffer)),
    );
  }
  | inr large ↦ record {
    after = record m { extra = some (take size buffer) };
    filled = ground arith;
    index = refl;
    bytes = take-all size (take size buffer) (omega (arith, length-take size buffer));
  }
]

-- The packet that `AddPacket` appends.
abbrev pub new_packet : MemoryPool → ℕ → ℕ → ℤ → ℕ → ℕ → NetPacket
new_packet p client_seq sock_fd proto_no size now =
    net_packet client_seq sock_fd proto_no size now (get_free_packet_memory p).0

-- What `AddPacket` has done when it returns the pool `p'` and the queue `q'`.
pub record Added (n : ℕ) (p : MemoryPool) (held : List MemoryRef) (size : ℕ) (buffer : List ℕ)
    (k : NetPacket) (p' : MemoryPool) : Type 0 where
  pub owned : Owned n p' (k.memory ∷ held)
  pub body : packet_body p' k ≡ take size buffer
  pub keeps : (s : MemoryRef) → IsHeld s held → memory_at p' s ≡ memory_at p s

-- For a size up to `max_size` that the buffer has, `AddPacket` succeeds: the queue grows by one
-- packet with the given fields, which holds the buffer's first `size` bytes in a memory that nobody
-- held, and no other packet's memory changes.
pub add_packet_lem :
    (n : ℕ) (p : MemoryPool) (held : List MemoryRef) (q : NetPacketQueue) (client_seq sock_fd : ℕ)
    (proto_no : ℤ) (size : ℕ) (buffer : List ℕ) (now : ℕ)
    → Owned n p held
    → size ≤ max_size
    → size ≤ length buffer
    → let k = new_packet p client_seq sock_fd proto_no size now in
      (p' : MemoryPool) × (add_packet p q client_seq sock_fd proto_no size buffer now
        ≡ some (p', record { packet_num = q.packet_num + 1; packets = q.packets ++ k ∷ [] }))
      × Added n p held size buffer k p'
unfolding add_packet init_memory packet_body
add_packet_lem n p held q client_seq sock_fd proto_no size buffer now o h l =
    let (r, lent) = get_free_packet_memory p in
    let f =
      init-Filled (memory_at lent r) size buffer (get_free_packet_memory-cleared n p held o) h l in
    let o' = get_free_packet_memory-Owned n p held o in
    (
      set_memory lent r f.after,
      rw (f.filled),
      record {
        owned = set_memory-Owned n lent held r f.after o' f.index;
        body = rw (set_memory_self n lent held r f.after o') f.bytes;
        keeps = λ s i.
            set_memory-keeps n lent held r f.after s o' i
            ∙ get_free_packet_memory-keeps n p held s o i;
      },
    )

-- A size above `max_size` fails the assertion.
pub add_packet-none :
    (p : MemoryPool) (q : NetPacketQueue) (client_seq sock_fd : ℕ) (proto_no : ℤ) (size : ℕ)
    (buffer : List ℕ) (now : ℕ)
    → max_size < size
    → add_packet p q client_seq sock_fd proto_no size buffer now ≡ none
unfolding add_packet init_memory Memory.init
add_packet-none p q client_seq sock_fd proto_no size buffer now h = ground arith

-- The pointers that packets hold.
abbrev pub memories_of : List NetPacket → List MemoryRef
memories_of [] = []
memories_of (k ∷ ks) = k.memory ∷ memories_of ks

pub pooled_indices-append :
    (rs ss : List MemoryRef) → pooled_indices (rs ++ ss) ≡ pooled_indices rs ++ pooled_indices ss
pooled_indices-append [] ss = refl
pooled_indices-append (pooled i ∷ rs) ss = ap (◌∷◌ i) (pooled_indices-append rs ss)
pooled_indices-append (allocated a ∷ rs) ss = pooled_indices-append rs ss

pub addresses-append :
    (rs ss : List MemoryRef) → addresses (rs ++ ss) ≡ addresses rs ++ addresses ss
addresses-append [] ss = refl
addresses-append (pooled i ∷ rs) ss = addresses-append rs ss
addresses-append (allocated a ∷ rs) ss = ap (◌∷◌ a) (addresses-append rs ss)

pub memories_of-append :
    (ks ls : List NetPacket) → memories_of (ks ++ ls) ≡ memories_of ks ++ memories_of ls
memories_of-append [] ls = refl
memories_of-append (k ∷ ks) ls = ap (◌∷◌ k.memory) (memories_of-append ks ls)

-- A pointer behind others is held too.
pub IsHeld-cons : (s r : MemoryRef) (held : List MemoryRef) → IsHeld s held → IsHeld s (r ∷ held)
IsHeld-cons (pooled j) (pooled i) held h = omega (arith, count-cons j i (pooled_indices held))
IsHeld-cons (pooled j) (allocated a) held h = h
IsHeld-cons (allocated b) (pooled i) held h = h
IsHeld-cons (allocated b) (allocated a) held h = omega (arith, count-cons b a (addresses held))

pub IsHeld-cons_self : (r : MemoryRef) (held : List MemoryRef) → IsHeld r (r ∷ held)
IsHeld-cons_self (pooled i) held = omega (arith, count-cons_self i (pooled_indices held))
IsHeld-cons_self (allocated a) held = omega (arith, count-cons_self a (addresses held))

-- A pointer counts the same in front of others and behind them.
pooled_indices-behind :
    (i : ℕ) (r : MemoryRef) (rs held : List MemoryRef)
    → count i (pooled_indices (rs ++ r ∷ held)) ≡ count i (pooled_indices (r ∷ (rs ++ held)))
pooled_indices-behind i (pooled j) rs held =
    rw (pooled_indices-append, pooled_indices-append)
      (omega (
        arith,
        count-append i (pooled_indices rs) (j ∷ pooled_indices held),
        count-append i (pooled_indices rs) (pooled_indices held),
        count-cons i j (pooled_indices held),
        count-cons i j (pooled_indices rs ++ pooled_indices held),
      ))
pooled_indices-behind i (allocated a) rs held = rw (pooled_indices-append, pooled_indices-append)

addresses-behind :
    (a : ℕ) (r : MemoryRef) (rs held : List MemoryRef)
    → count a (addresses (rs ++ r ∷ held)) ≡ count a (addresses (r ∷ (rs ++ held)))
addresses-behind a (pooled j) rs held = rw (addresses-append, addresses-append)
addresses-behind a (allocated b) rs held =
    rw (addresses-append, addresses-append)
      (omega (
        arith,
        count-append a (addresses rs) (b ∷ addresses held),
        count-append a (addresses rs) (addresses held),
        count-cons a b (addresses held),
        count-cons a b (addresses rs ++ addresses held),
      ))

pub Owned-behind :
    (n : ℕ) (p : MemoryPool) (r : MemoryRef) (rs held : List MemoryRef)
    → Owned n p (rs ++ r ∷ held)
    → Owned n p (r ∷ (rs ++ held))
Owned-behind n p r rs held =
    Owned-reorder n p (rs ++ r ∷ held) (r ∷ (rs ++ held)) (λ i. pooled_indices-behind i r rs held)
      (λ a. addresses-behind a r rs held)

pub IsHeld-append :
    (s : MemoryRef) (rs held : List MemoryRef) → IsHeld s held → IsHeld s (rs ++ held)
IsHeld-append s [] held h = h
IsHeld-append s (r ∷ rs) held h = IsHeld-cons s r (rs ++ held) (IsHeld-append s rs held h)

pub IsHeld-append_left :
    (s : MemoryRef) (rs held : List MemoryRef) → IsHeld s rs → IsHeld s (rs ++ held)
IsHeld-append_left (pooled i) rs held h =
    rw pooled_indices-append
      (omega (arith, count-append i (pooled_indices rs) (pooled_indices held)))
IsHeld-append_left (allocated a) rs held h =
    rw addresses-append (omega (arith, count-append a (addresses rs) (addresses held)))

release_each-Owned :
    (n : ℕ) (p : MemoryPool) (ks : List NetPacket) (held : List MemoryRef)
    → Owned n p (memories_of ks ++ held)
    → Owned n (release_each p ks) held
      × ((s : MemoryRef) → IsHeld s held → memory_at (release_each p ks) s ≡ memory_at p s)
unfolding release_each release_memory
release_each-Owned n p [] held o = (o, λ s i. refl)
release_each-Owned n p (k ∷ ks) held o =
    let o' = release_packet_memory-Owned n p k.memory (memories_of ks ++ held) o in
    let rest = release_each-Owned n (release_memory p k) ks held o' in
    (
      rest.0,
      λ s i.
          rest.1 s i
          ∙ release_packet_memory-keeps n p k.memory (memories_of ks ++ held) s o
              (IsHeld-append s (memories_of ks) held i),
    )

-- `ReleaseAllPackets` gives back the memories of its packets and empties the queue; what others hold
-- stays theirs, with its bytes.
pub release_all_packets-Owned :
    (n : ℕ) (p : MemoryPool) (q : NetPacketQueue) (held : List MemoryRef)
    → Owned n p (memories_of q.packets ++ held)
    → let (p', q') = release_all_packets p q in
      Owned n p' held
      × (q'.packets ≡ [])
      × (q'.packet_num ≡ q.packet_num)
      × ((s : MemoryRef) → IsHeld s held → memory_at p' s ≡ memory_at p s)
unfolding release_all_packets
release_all_packets-Owned n p q held o =
    let (o', keeps) = release_each-Owned n p q.packets held o in (o', refl, refl, keeps)
