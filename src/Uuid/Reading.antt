-- ===== src/Uuid/Reading.antt =====
-- common/utils/uuid.h, `GenerateSeqID`: one call, on a clock that does not go back and that moves on.
use game_server.Prelude.{
  ℕ, zero, suc, ◌+◌, ◌*◌, ◌%◌, ◌≤◌, ◌<◌, ◌≡◌, refl, ap, Option, some, ◌>>=◌, false, Bool-cases, inl,
  inr, ◌==◌, leb, arith,
}
use game_server.Uuid.{
  SnowFlake, wait_next_timestamp, seq_id, stamped, next_in_sequence, generate_seq_id,
}

-- Each reading is at least the one before, and `step` readings later the clock has moved.
pub record IsMoving (clock : ℕ → ℕ) (step : ℕ) : Type 0 where
  pub forward : (k : ℕ) → clock k ≤ clock (k + 1)
  pub moves : (k : ℕ) → clock k < clock (k + step)

-- The state's place in time: the timestamp and the number within it
abbrev pub place : SnowFlake → ℕ
place s = s.last_timestamp * 4096 + s.sequence_id

-- The state before reading k: the last timestamp is not ahead of the clock.
pub record IsTimely (clock : ℕ → ℕ) (s : SnowFlake) (k : ℕ) : Type 0 where
  pub behind : s.last_timestamp ≤ clock k
  pub small : s.sequence_id < 4096

-- What a call has done: it has moved on in time, and the number is made of the place.
pub record Generated (step k : ℕ) (clock : ℕ → ℕ) (s : SnowFlake) (id : ℕ) (s' : SnowFlake) (k' : ℕ)
    : Type 0 where
  pub made : id ≡ seq_id s'
  pub later : place s < place s'
  pub timely : IsTimely clock s' k'
  pub since : clock k ≤ s'.last_timestamp
  pub readings : (k < k') × (k' ≤ k + step + 1)
  pub same_host : (s'.host_id ≡ s.host_id) × (s'.game_svr_id ≡ s.game_svr_id)

waited :
    (fuel j k last : ℕ) (clock : ℕ → ℕ)
    → ((i : ℕ) → clock i ≤ clock (i + 1))
    → last < clock (k + j)
    → j < fuel
    → (now : ℕ) × (k' : ℕ) × (wait_next_timestamp fuel clock k last ≡ some (now, k'))
      × (last < now)
      × (now ≤ clock k')
      × ((k < k') × (k' ≤ k + fuel))
unfolding wait_next_timestamp
waited zero j k last clock f h l = absurd (omega arith)
waited (suc fuel) zero k last clock f h l =
    (clock k, k + 1, rw (now_past) refl, omega (arith, h, start), f k, omega arith)
  where
    start : clock (k + 0) ≡ clock k
    start = ap clock (omega arith)

    now_past : leb (clock k) last ≡ false
    now_past = ground (arith, h, start)
waited (suc fuel) (suc j) k last clock f h l = elim (Bool-cases (leb (clock k) last)) [
  | inl e ↦
      let (now, k', run, g, h', u) =
        waited fuel j (k + 1) last clock f (omega (arith, h, shifted)) (omega arith) in
      (now, k', rw (e) run, g, h', omega (arith, u))
  | inr e ↦ (clock k, k + 1, rw (e) refl, ground (arith, e), f k, omega arith)
]
  where
    shifted : clock (k + suc j) ≡ clock (k + 1 + j)
    shifted = ap clock (omega arith)

moved_on :
    (step k : ℕ) (clock : ℕ → ℕ)
    → IsMoving clock step
    → (j : ℕ) × (clock k < clock (k + 1 + j)) × (j < step)
moved_on zero k clock m = absurd (omega (arith, m.moves k, here))
  where
    here : clock (k + 0) ≡ clock k
    here = ap clock (omega arith)
moved_on (suc j) k clock m = (j, omega (arith, m.moves k, shifted), omega arith)
  where
    shifted : clock (k + suc j) ≡ clock (k + 1 + j)
    shifted = ap clock (omega arith)

-- The call that reads its last timestamp again
repeated :
    (step k : ℕ) (clock : ℕ → ℕ) (s : SnowFlake) (next : ℕ)
    → IsMoving clock step
    → IsTimely clock s k
    → s.last_timestamp ≡ clock k
    → next ≡ (s.sequence_id + 1) % 4096
    → (id : ℕ) × (s' : SnowFlake) × (k' : ℕ) × (next_in_sequence step clock s (k + 1) next
        ≡ some (id, s', k'))
      × Generated step k clock s id s' k'
unfolding next_in_sequence stamped
repeated step k clock s zero m t e q =
    let (j, h, l) = moved_on step k clock m in
    let (now, k', run, later, before, used) =
      waited step j (k + 1) s.last_timestamp clock m.forward (omega (arith, e, h)) l in
    (
      seq_id (record s { sequence_id = 0; last_timestamp = now }),
      record s { sequence_id = 0; last_timestamp = now },
      k',
      ap (λ (o : Option (ℕ × ℕ)). o >>= λ (now, k'). some (stamped s 0 now k')) run,
      record {
        made = refl;
        later = omega (arith, later, t.small);
        timely = record { behind = before; small = omega arith };
        since = omega (arith, e, later);
        readings = (omega (arith, used), omega (arith, used));
        same_host = (refl, refl);
      },
    )
repeated step k clock s (suc n) m t e q = (
  seq_id (record s { sequence_id = suc n }),
  record s { sequence_id = suc n },
  k + 1,
  refl,
  record {
    made = refl;
    later = omega (arith, q, t.small);
    timely = record { behind = omega (arith, e, m.forward k); small = omega (arith, q) };
    since = omega (arith, e);
    readings = (omega arith, omega arith);
    same_host = (refl, refl);
  },
)

-- A call with as much fuel as the clock needs readings to move has a result.
pub generate_seq_id-Generated :
    (step k : ℕ) (clock : ℕ → ℕ) (s : SnowFlake)
    → IsMoving clock step
    → IsTimely clock s k
    → (id : ℕ) × (s' : SnowFlake) × (k' : ℕ) × (generate_seq_id step clock s k ≡ some (id, s', k'))
      × Generated step k clock s id s' k'
unfolding generate_seq_id stamped
generate_seq_id-Generated step k clock s m t = elim (Bool-cases (s.last_timestamp == clock k)) [
  | inl e ↦
      let (id, s', k', run, g) =
        repeated step k clock s ((s.sequence_id + 1) % 4096) m t (ground (arith, e)) refl in
      (id, s', k', rw (e) run, g)
  | inr e ↦ (
    seq_id (record s { sequence_id = 0; last_timestamp = clock k }),
    record s { sequence_id = 0; last_timestamp = clock k },
    k + 1,
    rw (e) refl,
    record {
      made = refl;
      later = ground (arith, e, t.behind, t.small);
      timely = record { behind = m.forward k; small = omega arith };
      since = omega arith;
      readings = (omega arith, omega arith);
      same_host = (refl, refl);
    },
  )
]
