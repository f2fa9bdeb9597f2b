-- ===== src/Memory.antt =====
-- network/packet_pool.h: `ST_PacketMemory`, the buffer of one packet, and `CPacketMemoryPool`, which
-- lends them. Addresses of `new ST_PacketMemory()` are numbers that are never used again; a
-- dangling pointer reads as a blank memory, which `Memory.Ownership` rules out.
pub mod Ownership
pub mod Contents
mod Examples
use game_server.Prelude.{
  ℕ, zero, suc, ◌+◌, List, [], ◌∷◌, ◌++◌, Option, none, some, ltb, ◌==◌, if◌then◌else◌, get_or, set,
  take, drop, replicate, range_from, Bool,
}
use game_server.Prelude.Int.{ℤ, pos, negsuc}

-- `NETWORK_PACKET_BUFFER_DEFAULT_SIZE`, `NETWORK_PACKET_BUFFER_MAX_SIZE`,
-- `MAX_PACKET_MEMORY_POOL_SIZE`
abbrev pub default_size : ℕ
default_size = 256

abbrev pub max_size : ℕ
max_size = 10240

abbrev pub pool_size : ℕ
pool_size = 4096

-- `ST_PacketMemory`; `extra` is `m_pchBytesExtraSpace`, with NULL for `none`.
pub record PacketMemory : Type 0 where
  pub index : ℤ
  pub bytes : List ℕ
  pub extra : Option (List ℕ)

-- `construct()`, a `memset` to 0.
unfoldable pub blank : PacketMemory
blank = record { index = pos 0; bytes = replicate default_size 0; extra = none }

-- `release()` deletes the extra space and calls `construct()`.
pub release : PacketMemory → PacketMemory
unfolding blank
release m = blank

-- `GetBuffer()`
unfoldable pub get_buffer : PacketMemory → List ℕ
get_buffer m = elim m.extra [ none ↦ m.bytes | some space ↦ space ]

-- `memcpy(dst, src, size)`
abbrev pub copy_bytes : ℕ → List ℕ → List ℕ → List ℕ
copy_bytes size src dst = take size src ++ drop size dst

-- `Init`; `none` is the failed `assert`.
unfoldable pub init : PacketMemory → ℕ → List ℕ → Option PacketMemory
init m size buffer =
    if ltb size default_size
    then some (record m { bytes = copy_bytes size buffer m.bytes })
    else if ltb max_size size
    then none
    else some (record m { extra = some (take size buffer) })

-- A `ST_PacketMemory*`: an element of `m_PacketMemoryPool`, or one that `new` made.
pub data MemoryRef : Type 0 where
  pooled : ℕ → MemoryRef
  allocated : ℕ → MemoryRef

pub record MemoryPool : Type 0 where
  pub memories : List PacketMemory
  pub free : List ℕ
  pub heap : ℕ → Option PacketMemory
  pub next_address : ℕ

-- The constructor's loop: each memory blank with its index, and its index in the free queue.
indexed_memories : ℕ → ℕ → List PacketMemory
indexed_memories i zero = []
indexed_memories i (suc n) = record blank { index = pos i } ∷ indexed_memories (i + 1) n

unfoldable pub new_pool : ℕ → MemoryPool
unfolding indexed_memories
new_pool n = record {
  memories = indexed_memories 0 n;
  free = range_from 0 n;
  heap = λ _. none;
  next_address = 0;
}

abbrev pub update : (ℕ → Option PacketMemory) → ℕ → Option PacketMemory → ℕ → Option PacketMemory
update heap a m b = if a == b then m else heap b

abbrev or_blank : Option PacketMemory → PacketMemory
or_blank none = blank
or_blank (some m) = m

-- What a pointer points to, and a write through it.
unfoldable pub memory_at : MemoryPool → MemoryRef → PacketMemory
memory_at p (pooled i) = get_or p.memories i blank
memory_at p (allocated a) = or_blank (p.heap a)

unfoldable pub set_memory : MemoryPool → MemoryRef → PacketMemory → MemoryPool
set_memory p (pooled i) m = record p { memories = set p.memories i m }
set_memory p (allocated a) m = record p { heap = update p.heap a (some m) }

-- `SetIndex`
set_index : MemoryPool → MemoryRef → ℤ → MemoryPool
unfolding memory_at set_memory
set_index p r i = set_memory p r (record (memory_at p r) { index = i })

take_free : MemoryPool → List ℕ → MemoryRef × MemoryPool
unfolding set_index
take_free p [] =
    let a = p.next_address in
    let fresh = record p { heap = update p.heap a (some blank); next_address = a + 1 } in
    (allocated a, set_index fresh (allocated a) (negsuc 0))
take_free p (i ∷ rest) = (pooled i, set_index (record p { free = rest }) (pooled i) (pos i))

-- `GetFreePacketMemory`
pub get_free_packet_memory : MemoryPool → MemoryRef × MemoryPool
unfolding take_free
get_free_packet_memory p = take_free p p.free

-- `delete pstMemory`
delete_memory : MemoryPool → MemoryRef → MemoryPool
delete_memory p (pooled i) = p
delete_memory p (allocated a) = record p { heap = update p.heap a none }

-- `if(iIndex <= -1) { delete pstMemory; return; }`, or the index goes back to the free queue.
give_back : MemoryPool → MemoryRef → ℤ → MemoryPool
unfolding delete_memory
give_back p r (negsuc _) = delete_memory p r
give_back p r (pos i) = record p { free = p.free ++ i ∷ [] }

-- `ReleasePacketMemory`: the index is read before `release()` clears it.
pub release_packet_memory : MemoryPool → MemoryRef → MemoryPool
unfolding memory_at set_memory release give_back
release_packet_memory p r =
    let i = (memory_at p r).index in give_back (set_memory p r (release (memory_at p r))) r i
