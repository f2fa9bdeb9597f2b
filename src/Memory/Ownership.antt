-- ===== src/Memory/Ownership.antt =====
-- Who holds which packet memory: every pooled memory is free or held by one pointer, and every
-- allocated one is held by one pointer.
use game_server.Prelude.{
  ℕ, zero, suc, ◌+◌, ◌<◌, ◌≤◌, ◌≡◌, refl, List, [], ◌∷◌, ◌++◌, none, some, arith, length,
  length-set, get_or, set, get_or-set, count, count-append, count-cons, count-cons_self, ◌≢◌,
  count-nil, count-range, count-range_above, ap, ◌∙◌,
}
use game_server.Prelude.Int.{pos, negsuc}
use game_server.Memory.{
  MemoryPool, MemoryRef, pooled, allocated, blank, memory_at, take_free, get_free_packet_memory,
  give_back, release_packet_memory, new_pool, indexed_memories, update,
}

-- The pool indices and the addresses among some pointers.
abbrev pub pooled_indices : List MemoryRef → List ℕ
pooled_indices [] = []
pooled_indices (pooled i ∷ rs) = i ∷ pooled_indices rs
pooled_indices (allocated a ∷ rs) = pooled_indices rs

abbrev pub addresses : List MemoryRef → List ℕ
addresses [] = []
addresses (pooled i ∷ rs) = addresses rs
addresses (allocated a ∷ rs) = a ∷ addresses rs

-- `held` are all the pointers in use, in any order, over a pool of `n` memories.
pub record Owned (n : ℕ) (p : MemoryPool) (held : List MemoryRef) : Type 0 where
  pub size : length p.memories ≡ n
  pub once : (i : ℕ) → i < n → count i p.free + count i (pooled_indices held) ≡ 1
  pub inside : (i : ℕ) → n ≤ i → count i p.free + count i (pooled_indices held) ≡ 0
  pub indexed : (i : ℕ) → 0 < count i (pooled_indices held) → (memory_at p (pooled i)).index ≡ pos i
  pub cleared : (i : ℕ) → 0 < count i p.free → (memory_at p (pooled i)).extra ≡ none
  pub unshared : (a : ℕ) → count a (addresses held) ≤ 1
  pub live : (a : ℕ) → 0 < count a (addresses held) → (memory_at p (allocated a)).index ≡ negsuc 0
  pub no_leak : (a : ℕ) → count a (addresses held) ≡ 0 → p.heap a ≡ none
  pub fresh : (a : ℕ) → p.next_address ≤ a → count a (addresses held) ≡ 0

indexed_memories-cleared : (j i n : ℕ) → (get_or (indexed_memories i n) j blank).extra ≡ none
unfolding indexed_memories blank
indexed_memories-cleared j i zero = refl
indexed_memories-cleared zero i (suc n) = refl
indexed_memories-cleared (suc j) i (suc n) = indexed_memories-cleared j (i + 1) n

length-indexed_memories : (i n : ℕ) → length (indexed_memories i n) ≡ n
unfolding indexed_memories
length-indexed_memories i zero = refl
length-indexed_memories i (suc n) = omega (arith, length-indexed_memories (i + 1) n)

-- A new pool is owned by nobody.
pub Owned-new_pool : (n : ℕ) → Owned n (new_pool n) []
unfolding new_pool memory_at
Owned-new_pool n = record {
  size = length-indexed_memories 0 n;
  once = λ i h. omega (arith, count-range i 0 n, count-nil i);
  inside = λ i h. omega (arith, count-range_above i 0 n, count-nil i);
  indexed = λ i h. absurd (omega (arith, count-nil i));
  cleared = λ i h. indexed_memories-cleared i 0 n;
  unshared = λ a. omega (arith, count-nil a);
  live = λ a h. absurd (omega (arith, count-nil a));
  no_leak = λ a h. refl;
  fresh = λ a h. count-nil a;
}

allocate-Owned :
    (n : ℕ) (p : MemoryPool) (held : List MemoryRef)
    → Owned n p held
    → let (r, q) = take_free p [] in Owned n q (r ∷ held)
unfolding take_free memory_at
allocate-Owned n p held o = record {
  size = o.size;
  once = o.once;
  inside = o.inside;
  indexed = o.indexed;
  cleared = o.cleared;
  unshared =
      λ a. ground (arith, count-cons a p.next_address (addresses held), o.fresh a, o.unshared a);
  live = λ a h. ground (arith, count-cons a p.next_address (addresses held), o.live a);
  no_leak = λ a h. ground (arith, count-cons a p.next_address (addresses held), o.no_leak a);
  fresh = λ a h. ground (arith, count-cons a p.next_address (addresses held), o.fresh a);
}

reuse-Owned :
    (n : ℕ) (p : MemoryPool) (held : List MemoryRef) (i : ℕ) (rest : List ℕ)
    → p.free ≡ i ∷ rest
    → Owned n p held
    → let (r, q) = take_free p (i ∷ rest) in Owned n q (r ∷ held)
unfolding take_free memory_at
reuse-Owned n p held i rest e o = record {
  size = length-set p.memories i _ ∙ o.size;
  once = λ j h. ground (
    arith,
    ap (count j) e,
    count-cons j i rest,
    count-cons j i (pooled_indices held),
    o.once j h,
  );
  inside = λ j h. ground (
    arith,
    ap (count j) e,
    count-cons j i rest,
    count-cons j i (pooled_indices held),
    o.inside j h,
  );
  indexed = λ j h. ground (
    arith,
    inside,
    count-cons j i (pooled_indices held),
    o.indexed j,
    get_or-set p.memories i j (record (get_or p.memories i blank) { index = pos i }) blank,
  );
  cleared = λ j h. ground (
    arith,
    inside,
    ap (count j) e,
    count-cons j i rest,
    o.cleared j,
    o.cleared i,
    count-cons_self i rest,
    ap (count i) e,
    get_or-set p.memories i j (record (get_or p.memories i blank) { index = pos i }) blank,
  );
  unshared = o.unshared;
  live = o.live;
  no_leak = o.no_leak;
  fresh = o.fresh;
}
  where
    inside : i < length p.memories
    inside = ground (arith, o.size, o.inside i, ap (count i) e, count-cons i i rest)

take_free-Owned :
    (n : ℕ) (p : MemoryPool) (held : List MemoryRef) (free : List ℕ)
    → p.free ≡ free
    → Owned n p held
    → let (r, q) = take_free p free in Owned n q (r ∷ held)
take_free-Owned n p held [] e o = allocate-Owned n p held o
take_free-Owned n p held (i ∷ rest) e o = reuse-Owned n p held i rest e o

-- `GetFreePacketMemory` lends a memory that nobody held, and keeps the rest as it was.
pub get_free_packet_memory-Owned :
    (n : ℕ) (p : MemoryPool) (held : List MemoryRef)
    → Owned n p held
    → let (r, q) = get_free_packet_memory p in Owned n q (r ∷ held)
unfolding get_free_packet_memory
get_free_packet_memory-Owned n p held o = take_free-Owned n p held p.free refl o

pub release_pooled-eq :
    (p : MemoryPool) (i : ℕ)
    → (memory_at p (pooled i)).index ≡ pos i
    → release_packet_memory p (pooled i)
      ≡ record p { memories = set p.memories i blank; free = p.free ++ i ∷ [] }
unfolding release_packet_memory
release_pooled-eq p i e = rw (e, give_back)

release_pooled-Owned :
    (n : ℕ) (p : MemoryPool) (held : List MemoryRef) (i : ℕ)
    → Owned n p (pooled i ∷ held)
    → Owned n (release_packet_memory p (pooled i)) held
unfolding memory_at
release_pooled-Owned n p held i o = rw (release_pooled-eq p i (o.indexed i lent)) (record {
  size = length-set p.memories i _ ∙ o.size;
  once = λ j h. omega (arith, moved j, o.once j h);
  inside = λ j h. omega (arith, moved j, o.inside j h);
  indexed = λ j h. ground (
    arith,
    others j h,
    get_or-set p.memories i j blank blank inside,
    o.indexed j,
    count-cons j i (pooled_indices held),
  );
  cleared = λ j h.
      unfold blank in
      ground (
        arith,
        inside,
        get_or-set p.memories i j blank blank,
        count-append j p.free (i ∷ []),
        count-cons j i [],
        count-nil j,
        o.cleared j,
      );
  unshared = o.unshared;
  live = o.live;
  no_leak = o.no_leak;
  fresh = o.fresh;
})
  where
    lent : 0 < count i (i ∷ pooled_indices held)
    lent = omega (arith, count-cons_self i (pooled_indices held))

    inside : i < length p.memories
    inside = ground (arith, o.size, o.inside i, lent)

    moved :
        (j : ℕ)
        → count j (p.free ++ i ∷ []) + count j (pooled_indices held)
          ≡ count j p.free + count j (i ∷ pooled_indices held)
    moved j = omega (
      arith,
      count-append j p.free (i ∷ []),
      count-cons j i [],
      count-nil j,
      count-cons j i (pooled_indices held),
    )

    others : (j : ℕ) → 0 < count j (pooled_indices held) → i ≢ j
    others j h e = ground (
      arith,
      o.once i,
      inside,
      o.size,
      count-cons_self i (pooled_indices held),
      ap (λ (k : ℕ). count k (pooled_indices held)) e,
    )

pub release_allocated-eq :
    (p : MemoryPool) (a : ℕ)
    → (memory_at p (allocated a)).index ≡ negsuc 0
    → release_packet_memory p (allocated a)
      ≡ record p { heap = update (update p.heap a (some blank)) a none }
unfolding release_packet_memory
release_allocated-eq p a e = rw (e, give_back)

release_allocated-Owned :
    (n : ℕ) (p : MemoryPool) (held : List MemoryRef) (a : ℕ)
    → Owned n p (allocated a ∷ held)
    → Owned n (release_packet_memory p (allocated a)) held
unfolding memory_at
release_allocated-Owned n p held a o = rw (release_allocated-eq p a (o.live a lent)) (record {
  size = o.size;
  once = o.once;
  inside = o.inside;
  indexed = o.indexed;
  cleared = o.cleared;
  unshared = λ b. ground (arith, count-cons b a (addresses held), o.unshared b);
  live = λ b h. ground (
    arith,
    count-cons b a (addresses held),
    o.live b,
    alone,
    ap (λ (k : ℕ). count k (addresses held)) {x = a} {y = b},
  );
  no_leak = λ b h. ground (arith, count-cons b a (addresses held), o.no_leak b);
  fresh = λ b h. ground (arith, count-cons b a (addresses held), o.fresh b);
})
  where
    lent : 0 < count a (a ∷ addresses held)
    lent = omega (arith, count-cons_self a (addresses held))

    alone : count a (addresses held) ≡ 0
    alone = omega (arith, o.unshared a, count-cons_self a (addresses held))

-- `ReleasePacketMemory` takes one pointer back. Nothing else that is held changes hands.
pub release_packet_memory-Owned :
    (n : ℕ) (p : MemoryPool) (r : MemoryRef) (held : List MemoryRef)
    → Owned n p (r ∷ held)
    → Owned n (release_packet_memory p r) held
release_packet_memory-Owned n p (pooled i) held o = release_pooled-Owned n p held i o
release_packet_memory-Owned n p (allocated a) held o = release_allocated-Owned n p held a o

-- Only how often a pointer is held matters, not where it stands.
pub Owned-reorder :
    (n : ℕ) (p : MemoryPool) (held held' : List MemoryRef)
    → ((i : ℕ) → count i (pooled_indices held) ≡ count i (pooled_indices held'))
    → ((a : ℕ) → count a (addresses held) ≡ count a (addresses held'))
    → Owned n p held
    → Owned n p held'
Owned-reorder n p held held' same same' o = record {
  size = o.size;
  once = λ i h. omega (arith, same i, o.once i h);
  inside = λ i h. omega (arith, same i, o.inside i h);
  indexed = λ i h. o.indexed i (omega (arith, same i));
  cleared = o.cleared;
  unshared = λ a. omega (arith, same' a, o.unshared a);
  live = λ a h. o.live a (omega (arith, same' a));
  no_leak = λ a h. o.no_leak a (omega (arith, same' a));
  fresh = λ a h. omega (arith, same' a, o.fresh a h);
}
