-- ===== src/Timer/Wheel/Ticks.antt =====
-- common/timer.cpp: the updates that follow one another, and when a node is dispatched.
use game_server.Prelude.{
  ℕ, zero, suc, ◌∙◌, ap, ◌≢◌, ◌<◌, ◌≡◌, ◌+◌, ◌%◌, ◌^◌, List, [], ◌∷◌, ◌++◌, ◌||◌, ◌==◌,
  if◌then◌else◌, arith,
}
use game_server.Timer.Wheel.{Node, Wheel, timer_update, timer_add, u32}
use game_server.Timer.Wheel.Place.{next_time}
use game_server.Timer.Wheel.Pending.{pending, IsPlaced}
use game_server.Timer.Wheel.Updates.{
  Updated, timer_update-Updated, IsSettled, timer_node, Added, timer_add-Added,
}

-- The wheel after n updates
unfoldable pub updates : ℕ → Wheel → Wheel
updates zero t = t
updates (suc n) t = updates n (timer_update t).1

either : (c a b : ℕ) (xs : List Node) → c ≡ b → (if c == a || c == b then [] else xs) ≡ []
either c a b xs q = ground arith

if_self : (c : ℕ) (xs ys : List Node) → (if c == c then xs else ys) ≡ xs
if_self c xs ys = ground arith

add_comm : (m n : ℕ) → m + n ≡ n + m
add_comm m n = omega arith

neither : (c a b : ℕ) (xs : List Node) → c ≢ a → c ≢ b → (if c == a || c == b then [] else xs) ≡ xs
neither c a b xs h k = ground arith

pub timer_update-IsSettled : (t : Wheel) → IsPlaced t → IsSettled (timer_update t).1
timer_update-IsSettled t w = record {
  placed = u.placed;
  empty_now =
      u.left (timer_update t).1.time
      ∙ either (timer_update t).1.time t.time (next_time t.time) (pending t (timer_update t).1.time)
          u.time_eq;
}
  where
    u : Updated t (timer_update t)
    u = timer_update-Updated t w

-- On a wheel between updates, the (n + 1)-th update from now, for n + 1 below 2 ^ 32, dispatches exactly
-- the nodes that expire n + 1 ticks from now, in the order in which they were added.
pub timer_update-on_time :
    (n : ℕ) (t : Wheel)
    → suc n < u32
    → IsSettled t
    → (timer_update (updates n t)).0 ≡ pending t ((t.time + suc n) % u32)
unfolding updates
timer_update-on_time zero t h v =
    (timer_update-Updated t v.placed).fired
    ∙ ap (λ xs. xs ++ pending t (next_time t.time)) v.empty_now
timer_update-on_time (suc n) t h v =
    timer_update-on_time n (timer_update t).1 (omega arith) (timer_update-IsSettled t v.placed)
    ∙ ap (λ c. pending (timer_update t).1 ((c + suc n) % u32)) u.time_eq
    ∙ ap (pending (timer_update t).1) (later t.time v.placed.time_bound)
    ∙ u.left ((t.time + suc (suc n)) % u32)
    ∙ neither ((t.time + suc (suc n)) % u32) t.time (next_time t.time)
        (pending t ((t.time + suc (suc n)) % u32)) (λ q. omega arith) (λ q. omega arith)
  where
    u : Updated t (timer_update t)
    u = timer_update-Updated t v.placed

    later : (c : ℕ) → c < u32 → (next_time c + suc n) % u32 ≡ (c + suc (suc n)) % u32
    later c k = omega arith

-- A timer that is added with a timeout of d ticks, 0 < d < 2 ^ 31, to a wheel between updates is
-- dispatched by the d-th update from then, behind the nodes that already expired at its tick, and that
-- update dispatches nothing else.
pub timer_add-on_time :
    (t : Wheel) (handle ctx n : ℕ)
    → suc n < 2 ^ 31
    → IsSettled t
    → (timer_update (updates n (timer_add t handle ctx (suc n)))).0
      ≡ pending t ((suc n + t.time) % u32) ++ timer_node t handle ctx (suc n) ∷ []
timer_add-on_time t handle ctx n h v =
    timer_update-on_time n (timer_add t handle ctx (suc n)) (omega arith) a.settled
    ∙ ap (λ c. pending (timer_add t handle ctx (suc n)) ((c + suc n) % u32)) a.same_time
    ∙ ap (λ c. pending (timer_add t handle ctx (suc n)) (c % u32)) (add_comm t.time (suc n))
    ∙ a.queues ((suc n + t.time) % u32)
    ∙ if_self ((suc n + t.time) % u32)
        (pending t ((suc n + t.time) % u32) ++ timer_node t handle ctx (suc n) ∷ [])
        (pending t ((suc n + t.time) % u32))
  where
    a : Added t (timer_node t handle ctx (suc n)) (timer_add t handle ctx (suc n))
    a = timer_add-Added t handle ctx (suc n) (omega arith) h v
