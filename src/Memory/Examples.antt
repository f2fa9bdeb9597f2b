-- ===== src/Memory/Examples.antt =====
-- A pool of two memories, and the ownership theorems at it.
use game_server.Prelude.{◌≡◌, refl, List, [], ◌∷◌}
use game_server.Memory.{
  MemoryPool, MemoryRef, pooled, allocated, new_pool, get_free_packet_memory, release_packet_memory,
}
use game_server.Memory.Ownership.{
  Owned, Owned-new_pool, get_free_packet_memory-Owned, release_packet_memory-Owned,
}

abbrev pair : MemoryPool
pair = new_pool 2

abbrev once : MemoryPool
once = (get_free_packet_memory pair).1

abbrev twice : MemoryPool
twice = (get_free_packet_memory once).1

-- The first two memories come from the pool, the third from the heap.
lends : (get_free_packet_memory twice).0 ≡ allocated 0
unfolding get_free_packet_memory new_pool
lends = refl

returns : (release_packet_memory twice (pooled 0)).free ≡ 0 ∷ []
unfolding get_free_packet_memory new_pool release_packet_memory
returns = refl

get_free_packet_memory-Owned_example : Owned 2 once ((get_free_packet_memory pair).0 ∷ [])
get_free_packet_memory-Owned_example = get_free_packet_memory-Owned 2 pair [] (Owned-new_pool 2)

abbrev held : List MemoryRef
held = (get_free_packet_memory once).0 ∷ (get_free_packet_memory pair).0 ∷ []

twice-Owned : Owned 2 twice held
twice-Owned =
    get_free_packet_memory-Owned 2 once _
      (get_free_packet_memory-Owned 2 pair [] (Owned-new_pool 2))

release_packet_memory-Owned_example :
    Owned 2
      (release_packet_memory twice (get_free_packet_memory once).0)
      ((get_free_packet_memory pair).0 ∷ [])
release_packet_memory-Owned_example =
    release_packet_memory-Owned 2 twice (get_free_packet_memory once).0
      ((get_free_packet_memory pair).0 ∷ []) twice-Owned
