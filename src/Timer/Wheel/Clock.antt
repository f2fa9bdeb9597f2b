-- ===== src/Timer/Wheel/Clock.antt =====
-- common/timer.cpp, `GameTimer::TimerUpdate`: the wheel follows the clock, which ticks every ten
-- milliseconds.
use game_server.Prelude.{
  ℕ, zero, suc, ◌+◌, ◌-◌, ◌%◌, ◌^◌, ◌<◌, ◌≡◌, refl, sym, ap, ap₂, subst, ◌∙◌, List, [], ◌++◌, ltb,
  ◌==◌, if◌then◌else◌, Bool-cases, inl, inr, arith,
}
use game_server.Timer.Wheel.{Node, Wheel, timer_update, u32}
use game_server.Timer.Wheel.Pending.{pending}
use game_server.Timer.Wheel.Updates.{IsSettled}
use game_server.Timer.Wheel.Ticks.{updates, timer_update-on_time, timer_update-IsSettled}

-- `struct timer` with the clock's reading of the last call, and its count of ticks.
pub record Timer : Type 0 where
  pub wheel : Wheel
  pub current : ℕ
  pub current_point : ℕ

-- The loop over the ticks that have passed: what is dispatched, in order, and the wheel after it.
unfoldable pub timer_updates : ℕ → Wheel → List Node × Wheel
timer_updates zero t = ([], t)
timer_updates (suc n) t =
    let (fired, t') = timer_update t in
    let (later, t'') = timer_updates n t' in (fired ++ later, t'')

-- `TimerUpdate`, where `gettime` reads cp; `current` is a uint64_t.
unfoldable pub game_timer_update : ℕ → Timer → List Node × Timer
game_timer_update cp t =
    let diff = (cp - t.current_point) % u32 in
    let (fired, wheel) = timer_updates diff t.wheel in
    if ltb cp t.current_point
    then ([], record t { current_point = cp })
    else if cp == t.current_point
    then ([], t)
    else (
      fired,
      record { wheel = wheel; current = (t.current + diff) % 2 ^ 64; current_point = cp },
    )

-- The nodes that expire in the n ticks behind the i-th from now, tick by tick.
abbrev pub due : Wheel → ℕ → ℕ → List Node
due t i zero = []
due t i (suc n) = pending t ((t.time + suc i) % u32) ++ due t (suc i) n

updates-last : (i : ℕ) (t : Wheel) → (timer_update (updates i t)).1 ≡ updates (suc i) t
unfolding updates
updates-last zero t = refl
updates-last (suc i) t = updates-last i (timer_update t).1

updates-IsSettled : (n : ℕ) (t : Wheel) → IsSettled t → IsSettled (updates n t)
unfolding updates
updates-IsSettled zero t v = v
updates-IsSettled (suc n) t v =
    updates-IsSettled n (timer_update t).1 (timer_update-IsSettled t v.placed)

timer_updates-due :
    (n i : ℕ) (t : Wheel)
    → i + n < u32
    → IsSettled t
    → timer_updates n (updates i t) ≡ (due t i n, updates (i + n) t)
unfolding timer_updates
timer_updates-due zero i t h v =
    let e : i ≡ i + 0 = omega arith in ap (λ (j : ℕ). ([], updates j t)) e
timer_updates-due (suc n) i t h v =
    let e : suc i + n ≡ i + suc n = omega arith in
    let later =
      ap (timer_updates n) (updates-last i t)
      ∙ timer_updates-due n (suc i) t (omega arith) v
      ∙ ap (λ (j : ℕ). (due t (suc i) n, updates j t)) e in
    ap₂ (λ (fired : List Node) (q : List Node × Wheel). (fired ++ q.0, q.1))
      (timer_update-on_time i t (omega arith) v) later

-- What a call has done that dispatches the nodes of n ticks.
pub record Followed (t : Timer) (n cp : ℕ) (result : List Node × Timer) : Type 0 where
  pub fired : result.0 ≡ due t.wheel 0 n
  pub wheel : result.1.wheel ≡ updates n t.wheel
  pub settled : IsSettled result.1.wheel
  pub current : result.1.current ≡ (t.current + n) % 2 ^ 64
  pub point : result.1.current_point ≡ cp

-- No tick has passed.
stays :
    (t : Timer) (n cp point : ℕ)
    → IsSettled t.wheel
    → t.current < 2 ^ 64
    → n ≡ 0
    → point ≡ cp
    → Followed t n cp ([], record t { current_point = point })
unfolding updates
stays t n cp point v bound none_passed e = record {
  fired = ap (due t.wheel 0) (sym none_passed);
  wheel = ap (λ (k : ℕ). updates k t.wheel) (sym none_passed);
  settled = v;
  current = omega (arith, none_passed);
  point = e;
}

follows :
    (t : Timer) (n cp : ℕ)
    → IsSettled t.wheel
    → n < u32
    → let (fired, wheel) = timer_updates (n % u32) t.wheel in
      Followed t n cp (
        fired,
        record { wheel = wheel; current = (t.current + n % u32) % 2 ^ 64; current_point = cp },
      )
unfolding updates
follows t n cp v h =
    let e : n % u32 ≡ n = omega arith in
    let z : 0 + n ≡ n = omega arith in
    let r : timer_updates (n % u32) t.wheel ≡ (due t.wheel 0 n, updates n t.wheel) =
      ap (λ (k : ℕ). timer_updates k t.wheel) e
      ∙ timer_updates-due n 0 t.wheel (omega arith) v
      ∙ ap (λ (k : ℕ). (due t.wheel 0 n, updates k t.wheel)) z in
    record {
      fired = ap (λ (q : List Node × Wheel). q.0) r;
      wheel = ap (λ (q : List Node × Wheel). q.1) r;
      settled =
          subst (λ (q : List Node × Wheel). IsSettled q.1) (sym r) (updates-IsSettled n t.wheel v);
      current = ap (λ (k : ℕ). (t.current + k) % 2 ^ 64) e;
      point = refl;
    }

-- On a wheel between updates, and less than 2 ^ 32 ticks behind the last call, `TimerUpdate` makes as many
-- updates as ticks have passed, none if the clock went back: it dispatches exactly the nodes that
-- expire in these ticks, tick by tick and in the order of their adding, counts the ticks and keeps the
-- clock's reading, and leaves the wheel between updates.
pub game_timer_update-Followed :
    (t : Timer) (cp : ℕ)
    → IsSettled t.wheel
    → t.current < 2 ^ 64
    → cp - t.current_point < u32
    → Followed t (cp - t.current_point) cp (game_timer_update cp t)
unfolding game_timer_update
game_timer_update-Followed t cp v bound h = elim (Bool-cases (ltb cp t.current_point)) [
  | inl back ↦ rw back (stays t (cp - t.current_point) cp cp v bound (ground (arith, back)) refl)
  | inr forth ↦ elim (Bool-cases (cp == t.current_point)) [
    | inl still ↦
        rw (forth, still)
          (stays t (cp - t.current_point) cp t.current_point v bound (ground (arith, still))
            (ground (arith, still)))
    | inr passed ↦ rw (forth, passed) (follows t (cp - t.current_point) cp v h)
  ]
]
