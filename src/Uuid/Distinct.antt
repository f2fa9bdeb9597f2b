-- ===== src/Uuid/Distinct.antt =====
-- common/utils/uuid.h, `GenerateSeqID`: when the numbers differ, and when they are the same.
use game_server.Prelude.{
  ℕ, zero, suc, Bool-cases, inl, inr, ◌==◌, ◌+◌, ◌-◌, ◌*◌, ◌^◌, ◌≤◌, ◌<◌, ◌≡◌, ◌≢◌, refl, sym, ap,
  subst, ◌∙◌, Option, some, ◌>>=◌, List, [], ◌∷◌, length, arith, count, count-cons, count-nil,
}
use game_server.Uuid.{SnowFlake, seq_id, stamped, generate_seq_id, generate_seq_ids}
use game_server.Uuid.Reading.{IsMoving, IsTimely, place, Generated, generate_seq_id-Generated}

-- Places in one window of the clock give different numbers.
seq_id_injective :
    (s s' : SnowFlake)
    → s.sequence_id < 4096
    → s'.sequence_id < 4096
    → place s < place s'
    → s'.last_timestamp < s.last_timestamp + 2 ^ 25
    → s.host_id ≡ s'.host_id
    → s.game_svr_id ≡ s'.game_svr_id
    → seq_id s ≢ seq_id s'
unfolding seq_id
seq_id_injective s s' l l' h w e e' q = omega arith

-- What the numbers of several calls have in common, with the clock at k before and at k' after.
record Spread (clock : ℕ → ℕ) (s : SnowFlake) (k k' : ℕ) (ids : List ℕ) : Type 0 where
  fresh :
      (s₀ : SnowFlake)
      → s₀.sequence_id < 4096
      → place s₀ < place s + 1
      → clock k' < s₀.last_timestamp + 2 ^ 25
      → s₀.host_id ≡ s.host_id
      → s₀.game_svr_id ≡ s.game_svr_id
      → count (seq_id s₀) ids ≡ 0
  distinct : clock k' < clock k + 2 ^ 25 → (a : ℕ) → count a ids ≤ 1

module _ (step : ℕ) (clock : ℕ → ℕ) (m : IsMoving clock step) where
  rises_by : (d k : ℕ) → clock k ≤ clock (k + d)
  rises_by zero k = omega (arith, here)
    where
      here : clock (k + 0) ≡ clock k
      here = ap clock (omega arith)
  rises_by (suc d) k = omega (arith, rises_by d k, m.forward (k + d), shifted)
    where
      shifted : clock (k + suc d) ≡ clock (k + d + 1)
      shifted = ap clock (omega arith)

  rises : (k k' : ℕ) → k ≤ k' → clock k ≤ clock k'
  rises k k' h = subst (λ (i : ℕ). clock k ≤ clock i) (omega arith) (rises_by (k' - k) k)

  Spread-cons :
      (k k₁ k' : ℕ) (s s₁ : SnowFlake) (id : ℕ) (ids : List ℕ)
      → Generated step k clock s id s₁ k₁
      → k₁ ≤ k'
      → Spread clock s₁ k₁ k' ids
      → Spread clock s k k' (id ∷ ids)
  Spread-cons k k₁ k' s s₁ id ids g le sp = record {
    fresh = λ s₀ l h w e e'.
        let differs : seq_id s₀ ≢ seq_id s₁ =
          seq_id_injective s₀ s₁ l g.timely.small (omega (arith, h, g.later))
            (omega (arith, g.timely.behind, rises k₁ k' le, w)) (e ∙ sym g.same_host.0)
            (e' ∙ sym g.same_host.1) in
        let no_more : count (seq_id s₀) ids ≡ 0 =
          sp.fresh s₀ l (omega (arith, h, g.later)) w (e ∙ sym g.same_host.0)
            (e' ∙ sym g.same_host.1) in
        ground (arith, count-cons (seq_id s₀) id ids, g.made, differs, no_more);
    distinct = λ w a.
        let once : count (seq_id s₁) ids ≡ 0 =
          sp.fresh s₁ g.timely.small (omega arith) (omega (arith, w, g.since)) refl refl in
        let others : count a ids ≤ 1 =
          sp.distinct (omega (arith, w, rises k k₁ (omega (arith, g.readings)))) a in
        elim (Bool-cases (id == a)) [
          | inl e ↦
              let here : id ≡ a = ground (arith, e) in
              let none_else : count a ids ≡ 0 =
                subst (λ (i : ℕ). count i ids ≡ 0) (sym g.made ∙ here) once in
              ground (arith, count-cons a id ids, none_else)
          | inr e ↦ ground (arith, count-cons a id ids, e, others)
        ];
  }

  spread :
      (n k : ℕ) (s : SnowFlake)
      → IsTimely clock s k
      → (ids : List ℕ) × (s' : SnowFlake) × (k' : ℕ) × (generate_seq_ids n step clock s k
          ≡ some (ids, s', k'))
        × (length ids ≡ n)
        × (k ≤ k')
        × (k' ≤ k + n * (step + 1))
        × Spread clock s k k' ids
  unfolding generate_seq_ids
  spread zero k s t = (
    [],
    s,
    k,
    refl,
    refl,
    omega arith,
    omega arith,
    record {
      fresh = λ s₀ l h w e e'. count-nil (seq_id s₀);
      distinct = λ w a. omega (arith, count-nil a);
    },
  )
  spread (suc n) k s t =
      let (id, s₁, k₁, run, g) = generate_seq_id-Generated step k clock s m t in
      let (ids, s', k', runs, len, le, most, sp) = spread n k₁ s₁ g.timely in
      (
        id ∷ ids,
        s',
        k',
        rw (run) (rw (runs) refl),
        omega (arith, len),
        omega (arith, g.readings, le),
        omega (arith, g.readings, most),
        Spread-cons k k₁ k' s s₁ id ids g le sp,
      )

  -- On a clock that does not go back and that moves within `step` readings, n calls of `GenerateSeqID` one
  -- behind the other return, and their numbers are all different if the clock stays within 2 ^ 25
  -- microseconds for the readings that they can take.
  pub generate_seq_ids-distinct :
      (n k : ℕ) (s : SnowFlake)
      → IsTimely clock s k
      → clock (k + n * (step + 1)) < clock k + 2 ^ 25
      → (ids : List ℕ) × (s' : SnowFlake) × (k' : ℕ) × (generate_seq_ids n step clock s k
          ≡ some (ids, s', k'))
        × (length ids ≡ n)
        × ((a : ℕ) → count a ids ≤ 1)
  generate_seq_ids-distinct n k s t w =
      let (ids, s', k', runs, len, le, most, sp) = spread n k s t in
      (ids, s', k', runs, len, sp.distinct (omega (arith, w, rises k' (k + n * (step + 1)) most)))

unequal :
    (fuel k : ℕ) (clock : ℕ → ℕ) (s : SnowFlake)
    → s.last_timestamp ≢ clock k
    → generate_seq_id fuel clock s k
      ≡ some (
        seq_id (record s { sequence_id = 0; last_timestamp = clock k }),
        record s { sequence_id = 0; last_timestamp = clock k },
        k + 1,
      )
unfolding generate_seq_id stamped
unequal fuel k clock s h = elim (Bool-cases (s.last_timestamp == clock k)) [
  | inl e ↦ absurd (ground (arith, h, e))
  | inr e ↦ rw (e) refl
]

-- After 2 ^ 25 microseconds the timestamp's bits are the same again: two calls that read the clock so far
-- apart, in a new microsecond each, give the same number.
pub generate_seq_id-wraps :
    (fuel fuel' k k' : ℕ) (clock : ℕ → ℕ) (s s' : SnowFlake)
    → s.last_timestamp ≢ clock k
    → s'.last_timestamp ≢ clock k'
    → clock k' ≡ clock k + 2 ^ 25
    → s'.host_id ≡ s.host_id
    → s'.game_svr_id ≡ s.game_svr_id
    → (generate_seq_id fuel clock s k >>= λ r. some r.0)
      ≡ (generate_seq_id fuel' clock s' k' >>= λ r. some r.0)
unfolding seq_id
generate_seq_id-wraps fuel fuel' k k' clock s s' h h' w e e' =
    ap number (unequal fuel k clock s h)
    ∙ ap some same
    ∙ sym (ap number (unequal fuel' k' clock s' h'))
  where
    number : Option (ℕ × SnowFlake × ℕ) → Option ℕ
    number o = o >>= λ r. some r.0

    same :
        seq_id (record s { sequence_id = 0; last_timestamp = clock k })
        ≡ seq_id (record s' { sequence_id = 0; last_timestamp = clock k' })
    same = omega (arith, w, e, e')
