-- ===== src/Memory/Contents.antt =====
-- What packet memories hold: a memory that is held keeps its bytes while others are lent, written
-- and taken back.
use game_server.Prelude.{
  ℕ, ◌<◌, ◌≡◌, refl, ap, ◌∙◌, List, [], ◌∷◌, ◌++◌, none, some, arith, ◌==◌, length, length-set,
  get_or, set, get_or-set, count, count-cons, count-cons_self,
}
use game_server.Prelude.Int.{pos}
use game_server.Memory.{
  PacketMemory, MemoryPool, MemoryRef, pooled, allocated, blank, memory_at, set_memory, take_free,
  get_free_packet_memory, release_packet_memory, update,
}
use mathlib.Core.Bool.{false}
use game_server.Memory.Ownership.{
  Owned, release_pooled-eq, release_allocated-eq, pooled_indices, addresses,
}

-- A pointer is among those held.
abbrev pub IsHeld : MemoryRef → List MemoryRef → Type 0
IsHeld (pooled i) held = 0 < count i (pooled_indices held)
IsHeld (allocated a) held = 0 < count a (addresses held)

module _ (n : ℕ) (p : MemoryPool) (held : List MemoryRef) where
  lent_inside :
      (i : ℕ) → Owned n p (pooled i ∷ held) → (i < length p.memories) × (count i p.free ≡ 0)
  lent_inside i o =
      ground (arith, o.size, o.inside i, o.once i, count-cons_self i (pooled_indices held))

  pooled_apart :
      (i j : ℕ) → Owned n p (pooled i ∷ held) → 0 < count j (pooled_indices held) → (i == j) ≡ false
  pooled_apart i j o h = ground (arith, o.once j, o.inside j, count-cons j i (pooled_indices held))

  allocated_apart :
      (a b : ℕ) → Owned n p (allocated a ∷ held) → 0 < count b (addresses held) → (a == b) ≡ false
  allocated_apart a b o h = ground (arith, o.unshared b, count-cons b a (addresses held))

  -- A write through the newest pointer is not seen through the others.
  pub set_memory-keeps :
      (r : MemoryRef) (m : PacketMemory) (s : MemoryRef)
      → Owned n p (r ∷ held)
      → IsHeld s held
      → memory_at (set_memory p r m) s ≡ memory_at p s
  unfolding memory_at set_memory
  set_memory-keeps (pooled i) m (pooled j) o h =
      ground (arith, pooled_apart i j o h, get_or-set p.memories i j m blank (lent_inside i o).0)
  set_memory-keeps (pooled i) m (allocated b) o h = refl
  set_memory-keeps (allocated a) m (pooled j) o h = refl
  set_memory-keeps (allocated a) m (allocated b) o h = rw (allocated_apart a b o h)

  -- It is seen through that pointer.
  pub set_memory_self :
      (r : MemoryRef) (m : PacketMemory) → Owned n p (r ∷ held) → memory_at (set_memory p r m) r ≡ m
  unfolding memory_at set_memory
  set_memory_self (pooled i) m o =
      ground (arith, get_or-set p.memories i i m blank (lent_inside i o).0)
  set_memory_self (allocated a) m o = ground arith

  -- Nor does it change who holds what, as long as it keeps the index.
  pub set_memory-Owned :
      (r : MemoryRef) (m : PacketMemory)
      → Owned n p (r ∷ held)
      → m.index ≡ (memory_at p r).index
      → Owned n (set_memory p r m) (r ∷ held)
  unfolding memory_at set_memory
  set_memory-Owned (pooled i) m o e = record {
    size = length-set p.memories i _ ∙ o.size;
    once = o.once;
    inside = o.inside;
    indexed =
        λ j h. ground (arith, get_or-set p.memories i j m blank (lent_inside i o).0, o.indexed j h);
    cleared = λ j h. ground (
      arith,
      get_or-set p.memories i j m blank (lent_inside i o).0,
      o.cleared j h,
      lent_inside i o,
    );
    unshared = o.unshared;
    live = o.live;
    no_leak = o.no_leak;
    fresh = o.fresh;
  }
  set_memory-Owned (allocated a) m o e = record {
    size = o.size;
    once = o.once;
    inside = o.inside;
    indexed = o.indexed;
    cleared = o.cleared;
    unshared = o.unshared;
    live = λ b h. ground (arith, o.live b h);
    no_leak = λ b h. ground (arith, o.no_leak b h, count-cons_self a (addresses held));
    fresh = o.fresh;
  }

-- `GetFreePacketMemory` changes no memory that is held, and lends one with no extra space.
take_free-keeps :
    (n : ℕ) (p : MemoryPool) (held : List MemoryRef) (free : List ℕ) (s : MemoryRef)
    → p.free ≡ free
    → Owned n p held
    → IsHeld s held
    → memory_at (take_free p free).1 s ≡ memory_at p s
unfolding take_free memory_at
take_free-keeps n p held [] (pooled j) e o h = refl
take_free-keeps n p held [] (allocated b) e o h = ground (arith, o.fresh b)
take_free-keeps n p held (i ∷ rest) (pooled j) e o h = ground (
  arith,
  o.once j,
  o.inside j,
  ap (count j) e,
  count-cons j i rest,
  o.size,
  o.inside i,
  ap (count i) e,
  count-cons_self i rest,
  get_or-set p.memories i j (record (get_or p.memories i blank) { index = pos i }) blank,
)
take_free-keeps n p held (i ∷ rest) (allocated b) e o h = refl

pub get_free_packet_memory-keeps :
    (n : ℕ) (p : MemoryPool) (held : List MemoryRef) (s : MemoryRef)
    → Owned n p held
    → IsHeld s held
    → memory_at (get_free_packet_memory p).1 s ≡ memory_at p s
unfolding get_free_packet_memory
get_free_packet_memory-keeps n p held s o h = take_free-keeps n p held p.free s refl o h

take_free-cleared :
    (n : ℕ) (p : MemoryPool) (held : List MemoryRef) (free : List ℕ)
    → p.free ≡ free
    → Owned n p held
    → let (r, q) = take_free p free in (memory_at q r).extra ≡ none
unfolding take_free memory_at
take_free-cleared n p held [] e o = unfold blank in ground arith
take_free-cleared n p held (i ∷ rest) e o = ground (
  arith,
  o.cleared i,
  o.size,
  o.inside i,
  ap (count i) e,
  count-cons_self i rest,
  get_or-set p.memories i i (record (get_or p.memories i blank) { index = pos i }) blank,
)

pub get_free_packet_memory-cleared :
    (n : ℕ) (p : MemoryPool) (held : List MemoryRef)
    → Owned n p held
    → let (r, q) = get_free_packet_memory p in (memory_at q r).extra ≡ none
unfolding get_free_packet_memory
get_free_packet_memory-cleared n p held o = take_free-cleared n p held p.free refl o

-- `ReleasePacketMemory` changes no memory that stays held.
pub release_packet_memory-keeps :
    (n : ℕ) (p : MemoryPool) (r : MemoryRef) (held : List MemoryRef) (s : MemoryRef)
    → Owned n p (r ∷ held)
    → IsHeld s held
    → memory_at (release_packet_memory p r) s ≡ memory_at p s
unfolding memory_at
release_packet_memory-keeps n p (pooled i) held s o h =
    rw
      (release_pooled-eq p i (o.indexed i (omega (arith, count-cons_self i (pooled_indices held)))))
      (kept s h)
  where
    kept :
        (s : MemoryRef)
        → IsHeld s held
        → memory_at (record p { memories = set p.memories i blank; free = p.free ++ i ∷ [] }) s
          ≡ memory_at p s
    kept (pooled j) h = ground (
      arith,
      pooled_apart n p held i j o h,
      get_or-set p.memories i j blank blank (lent_inside n p held i o).0,
    )
    kept (allocated b) h = refl
release_packet_memory-keeps n p (allocated a) held s o h =
    rw (release_allocated-eq p a (o.live a (omega (arith, count-cons_self a (addresses held)))))
      (kept s h)
  where
    kept :
        (s : MemoryRef)
        → IsHeld s held
        → memory_at (record p { heap = update (update p.heap a (some blank)) a none }) s
          ≡ memory_at p s
    kept (pooled j) h = refl
    kept (allocated b) h = ground (arith, allocated_apart n p held a b o h)
