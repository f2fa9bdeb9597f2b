-- ===== src/Timer/Handles/Free.antt =====
-- common/timer.cpp, `_GenerateHandleID`: its loop ends, since each round passes a number in use.
use game_server.Prelude.{
  ℕ, zero, suc, ap, sym, subst, ◌≡◌, ◌≤◌, ◌<◌, refl, ◌⊎◌, inl, inr, ◌+◌, ◌*◌, ◌-◌, Option, none,
  some, [], ◌∷◌, Bool, true, false, ◌||◌, leb, if◌then◌else◌, length, arith,
}
use game_server.Prelude.Map.{Map, find}
use game_server.Timer.Handles.{u32_max, is_found, increment, generate_loop, generate_handle_id}

module _ {ℓ} {V : Type ℓ} where
  -- How many entries have a key from n on.
  unfoldable pub above : ℕ → Map V → ℕ
  above n [] = 0
  above n ((k, v) ∷ m) = (if leb n k then 1 else 0) + above n m

  above_le : (n : ℕ) (m : Map V) → above n m ≤ length m
  unfolding above
  above_le n [] = omega arith
  above_le n ((k, v) ∷ m) = ground (arith, above_le n m)

  above_mono : (n : ℕ) (m : Map V) → above (suc n) m ≤ above n m
  unfolding above
  above_mono n [] = omega arith
  above_mono n ((k, v) ∷ m) = ground (arith, above_mono n m)

  above_found : (n : ℕ) (m : Map V) (v : V) → find n m ≡ some v → suc (above (suc n) m) ≤ above n m
  unfolding above find
  above_found n [] w h = absurd (cc)
  above_found n ((k, v) ∷ m) w h = ground (arith, above_found n m w, above_mono n m)

-- A number that no timer has, and that the loop returns.
pub record Generated {ℓ} {V : Type ℓ} (m : Map V) (result : Option ℕ) : Type ℓ where
  pub id : ℕ
  pub returned : result ≡ some id
  pub free : find id m ≡ none
  pub positive : 0 < id
  pub bound : id < u32_max

module _ {ℓ} {V : Type ℓ} (m : Map V) (h : length m < u32_max - 1) where
  loop_free :
      (fuel n : ℕ)
      → 0 < n
      → n < u32_max
      → find n m ≡ none
      → Generated m (generate_loop (suc fuel) m n)
  unfolding generate_loop
  loop_free fuel n l k q = record {
    id = n;
    returned = ground (arith, q);
    free = q;
    positive = l;
    bound = k;
  }

  before_wrap : (n : ℕ) → n < u32_max → leb u32_max n ≡ false
  before_wrap n k = ground arith

  increment_lem : (n : ℕ) → n < u32_max → increment n ≡ suc n
  increment_lem n k = omega arith

  loop_used :
      (fuel n : ℕ) (v : V)
      → n < u32_max
      → find n m ≡ some v
      → generate_loop (suc fuel) m n ≡ generate_loop fuel m (suc n)
  unfolding generate_loop
  loop_used fuel n v k q = rw (q, before_wrap n k) (ap (generate_loop fuel m) (increment_lem n k))

  find_or : (n : ℕ) → (find n m ≡ none) ⊎ ((v : V) × (find n m ≡ some v))
  find_or n = found (find n m) refl
    where
      found : (o : Option V) → find n m ≡ o → (find n m ≡ none) ⊎ ((v : V) × (find n m ≡ some v))
      found none q = inl q
      found (some v) q = inr (v, q)

  -- After the wrap: all numbers from 1 on are in use so far.
  loop_second :
      (fuel n : ℕ)
      → 0 < n
      → above n m + n ≤ length m + 1
      → above n m < fuel
      → Generated m (generate_loop fuel m n)
  loop_second zero n l a f = absurd (omega arith)
  loop_second (suc fuel) n l a f = elim (find_or n) [
    | inl q ↦ loop_free fuel n l (omega arith) q
    | inr (v, q) ↦ subst (Generated m) (sym (loop_used fuel n v (omega arith) q)) (
        loop_second fuel (suc n) (omega arith) (omega (arith, above_found n m v q))
          (omega (arith, above_found n m v q)))
  ]

  loop_wrap : (fuel : ℕ) → generate_loop (suc fuel) m u32_max ≡ generate_loop fuel m 1
  unfolding generate_loop
  loop_wrap fuel = wrapped (is_found (find u32_max m))
    where
      wrapped :
          (b : Bool)
          → (if b || true then generate_loop fuel m 1 else some u32_max) ≡ generate_loop fuel m 1
      wrapped true = refl
      wrapped false = refl

  -- Before the wrap
  loop_first :
      (fuel n : ℕ)
      → 0 < n
      → n ≤ u32_max
      → above n m + length m + 1 < fuel
      → Generated m (generate_loop fuel m n)
  loop_first zero n l k f = absurd (omega arith)
  loop_first (suc fuel) n l k f = elim (max_or n k) [
    | inl q ↦
        subst (λ x. Generated m (generate_loop (suc fuel) m x)) (sym q)
          (subst (Generated m) (sym (loop_wrap fuel)) (
            loop_second fuel 1 (omega arith) (omega (arith, above_le 1 m))
              (omega (arith, above_le 1 m))))
    | inr b ↦ elim (find_or n) [
      | inl q ↦ loop_free fuel n l b q
      | inr (v, q) ↦
          subst (Generated m) (sym (loop_used fuel n v b q))
            (loop_first fuel (suc n) (omega arith) b (omega (arith, above_found n m v q)))
    ]
  ]
    where
      max_or : (x : ℕ) → x ≤ u32_max → (x ≡ u32_max) ⊎ (x < u32_max)
      max_or x b = ground arith

  -- While fewer than 2 ^ 32 - 2 timers are live, from any counter below 2 ^ 32 - 1, `_GenerateHandleID`
  -- terminates: the fuel is enough, and it returns a number that is no timer's handle, not 0 and below
  -- `UINT32_MAX`.
  pub generate_handle_id-Generated :
      (counter : ℕ) → counter < u32_max → Generated m (generate_handle_id m counter)
  unfolding generate_handle_id
  generate_handle_id-Generated counter k =
      loop_first (2 * length m + 3) (increment counter) (omega arith) (omega arith)
        (omega (arith, above_le (increment counter) m))
