-- ===== src/Network/Views.antt =====
-- network/context.h: the packets that several calls of `UnpackPacketToRecvQueue` queue, taken together: those of the later
-- calls stand behind those of the earlier ones.
use game_server.Prelude.{
  ℕ, ◌+◌, ◌≡◌, suc, refl, sym, length, ap, ap₂, ◌∙◌, List, [], ◌∷◌, ◌++◌, take, arith, count,
  count-append,
}
use game_server.Prelude.Int.{ℤ}
use game_server.Memory.{MemoryPool, MemoryRef, memory_at, get_buffer}
use game_server.Memory.Ownership.{Owned, Owned-reorder, addresses, pooled_indices}
use game_server.Memory.Contents.{IsHeld}
use game_server.Packet.{NetPacket, packet_body}
use game_server.Queue
use game_server.Queue.{NetPacketQueue}
use game_server.Queue.Ownership.{
  memories_of, IsHeld-cons, IsHeld-cons_self, pooled_indices-append, addresses-append,
}
use game_server.Network.Buffer.{ClientBuffer}
use game_server.Network.Receive.{view, views, expected}

pub views-append :
    (p : MemoryPool) (ks ls : List NetPacket) → views p (ks ++ ls) ≡ views p ks ++ views p ls
views-append p [] ls = refl
views-append p (k ∷ ks) ls = ap (◌∷◌ (view p k)) (views-append p ks ls)

-- Packets whose memories are untouched look the same.
pub views-same :
    (p p' : MemoryPool) (ks : List NetPacket)
    → ((m : MemoryRef) → IsHeld m (memories_of ks) → memory_at p' m ≡ memory_at p m)
    → views p' ks ≡ views p ks
unfolding packet_body
views-same p p' [] h = refl
views-same p p' (k ∷ ks) h =
    ap₂ ◌∷◌
      (ap (λ m. (k.client_seq, k.sock_fd, k.proto_no, take k.buffer_size (get_buffer m)))
        (h k.memory (IsHeld-cons_self k.memory (memories_of ks))))
      (views-same p p' ks (λ m i. h m (IsHeld-cons m k.memory (memories_of ks) i)))

pub expected-append :
    (c : ClientBuffer) (fs gs : List (ℤ × List ℕ))
    → expected c (fs ++ gs) ≡ expected c fs ++ expected c gs
expected-append c [] gs = refl
expected-append c ((proto, body) ∷ fs) gs =
    ap (◌∷◌ (c.client_seq, c.client_fd, proto, body)) (expected-append c fs gs)

pooled_count :
    (i : ℕ) (rs ss : List MemoryRef)
    → count i (pooled_indices (rs ++ ss))
      ≡ count i (pooled_indices rs) + count i (pooled_indices ss)
pooled_count i rs ss =
    ap (count i) (pooled_indices-append rs ss)
    ∙ count-append i (pooled_indices rs) (pooled_indices ss)

address_count :
    (a : ℕ) (rs ss : List MemoryRef)
    → count a (addresses (rs ++ ss)) ≡ count a (addresses rs) + count a (addresses ss)
address_count a rs ss =
    ap (count a) (addresses-append rs ss) ∙ count-append a (addresses rs) (addresses ss)

pub no_packets : Queue.init.packets ≡ []
no_packets = refl

-- Pointers may be held in any order.
pub Owned-swap :
    (n : ℕ) (p : MemoryPool) (rs ss held : List MemoryRef)
    → Owned n p (ss ++ (rs ++ held))
    → Owned n p ((rs ++ ss) ++ held)
Owned-swap n p rs ss held =
    Owned-reorder n p (ss ++ (rs ++ held)) ((rs ++ ss) ++ held)
      (λ i. omega (
        arith,
        pooled_count i ss (rs ++ held),
        pooled_count i rs held,
        pooled_count i (rs ++ ss) held,
        pooled_count i rs ss,
      ))
      (λ a. omega (
        arith,
        address_count a ss (rs ++ held),
        address_count a rs held,
        address_count a (rs ++ ss) held,
        address_count a rs ss,
      ))

length-views : (p : MemoryPool) (ks : List NetPacket) → length (views p ks) ≡ length ks
length-views p [] = refl
length-views p (k ∷ ks) = ap suc (length-views p ks)

length-expected : (c : ClientBuffer) (fs : List (ℤ × List ℕ)) → length (expected c fs) ≡ length fs
length-expected c [] = refl
length-expected c ((proto, body) ∷ fs) = ap suc (length-expected c fs)

-- There are as many packets as frames.
pub length-frames :
    (p : MemoryPool) (ks : List NetPacket) (c : ClientBuffer) (fs : List (ℤ × List ℕ))
    → views p ks ≡ expected c fs
    → length fs ≡ length ks
length-frames p ks c fs e = sym (length-expected c fs) ∙ ap length (sym e) ∙ length-views p ks
