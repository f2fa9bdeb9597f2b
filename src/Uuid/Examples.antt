-- ===== src/Uuid/Examples.antt =====
-- A clock that goes on by one microsecond with each reading, and one that jumps by 2 ^ 25.
use game_server.Prelude.{ℕ, ◌≡◌, refl, ◌+◌, ◌*◌, ◌^◌, ◌≤◌, List, some, ◌>>=◌, length, count, arith}
use game_server.Uuid.{SnowFlake, init, generate_seq_id, generate_seq_ids}
use game_server.Uuid.Reading.{IsMoving, IsTimely}
use game_server.Uuid.Distinct.{generate_seq_ids-distinct, generate_seq_id-wraps}

abbrev ticking : ℕ → ℕ
ticking k = 1000 + k

ticking-IsMoving : IsMoving ticking 1
ticking-IsMoving = record { forward = λ k. omega arith; moves = λ k. omega arith }

started : IsTimely ticking (init 3 4) 0
unfolding init
started = record { behind = omega arith; small = omega arith }

generate_seq_ids-distinct_example :
    (ids : List ℕ) × (s' : SnowFlake) × (k' : ℕ) × (generate_seq_ids 3 1 ticking (init 3 4) 0
      ≡ some (ids, s', k'))
    × (length ids ≡ 3)
    × ((a : ℕ) → count a ids ≤ 1)
generate_seq_ids-distinct_example =
    generate_seq_ids-distinct 1 ticking ticking-IsMoving 3 0 (init 3 4) started (omega arith)

abbrev jumping : ℕ → ℕ
jumping k = 1 + k * 2 ^ 25

abbrev later : SnowFlake
later = record (init 3 4) { last_timestamp = 1 }

generate_seq_id-wraps_example :
    (generate_seq_id 1 jumping (init 3 4) 0 >>= λ r. some r.0)
    ≡ (generate_seq_id 1 jumping later 1 >>= λ r. some r.0)
unfolding init
generate_seq_id-wraps_example =
    generate_seq_id-wraps 1 1 0 1 jumping (init 3 4) later (λ e. absurd (omega (arith, e)))
      (λ e. absurd (omega (arith, e))) (omega arith) refl refl
