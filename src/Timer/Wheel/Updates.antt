-- ===== src/Timer/Wheel/Updates.antt =====
-- common/timer.cpp: `timer_update` and `timer_add` on the queues of a wheel, and the updates as they
-- follow one another.
use game_server.Prelude.{
  ℕ, ◌∙◌, ap, ap₂, ◌≢◌, ◌<◌, ◌≡◌, refl, ◌+◌, ◌%◌, ◌^◌, List, [], ◌∷◌, ◌++◌, append-nil, Bool, true,
  false, ◌||◌, ◌==◌, if◌then◌else◌, arith,
}
use game_server.Timer.Wheel.{
  Node, Wheel, link, add_node, timer_shift, timer_execute, timer_update, timer_add, u32,
}
use game_server.Timer.Wheel.Place.{IsAhead, next_time}
use game_server.Timer.Wheel.Moves.{at}
use game_server.Timer.Wheel.Pending.{
  pending, IsPlaced, pending-add_node, at_other, add_node-IsPlaced,
}
use game_server.Timer.Wheel.Shift.{Moved, timer_shift-Moved}
use game_server.Timer.Wheel.Fires.{Dispatched, timer_execute-Dispatched, if_eq, if_ne}

-- The queue of the time, then the one of the next time, are dispatched; the other ones stay.
pub record Updated (t : Wheel) (result : List Node × Wheel) : Type 0 where
  pub fired : result.0 ≡ pending t t.time ++ pending t (next_time t.time)
  pub time_eq : result.1.time ≡ next_time t.time
  pub left :
      (e : ℕ)
      → pending result.1 e ≡ (if e == t.time || e == next_time t.time then [] else pending t e)
  pub placed : IsPlaced result.1

if_or :
    (a b : Bool) (xs : List Node)
    → (if b then [] else (if a then [] else xs)) ≡ (if a || b then [] else xs)
if_or true true xs = refl
if_or true false xs = refl
if_or false true xs = refl
if_or false false xs = refl

next_time-≢ : (t : ℕ) → t < u32 → next_time t ≢ t
next_time-≢ t h q = omega arith

-- On a wheel with each node at its place, `timer_update` dispatches the nodes that expire at the time
-- and then those that expire at the next one, each in the order in which they were added, moves the
-- time on, and leaves the queues of all other times as they were, each node at its place.
pub timer_update-Updated : (t : Wheel) → IsPlaced t → Updated t (timer_update t)
unfolding timer_update
timer_update-Updated t w = record {
  fired = ap₂ (λ xs ys. xs ++ ys) first.fired (second.fired ∙ behind);
  time_eq = second.time_eq ∙ time;
  left = λ e.
      second.left e
      ∙ ap₂ (λ c xs. if e == c then [] else xs) time (shifted.same e ∙ first.left e)
      ∙ if_or (e == t.time) (e == next_time t.time) (pending t e);
  placed = second.placed;
}
  where
    first : Dispatched t (timer_execute t)
    first = timer_execute-Dispatched t w

    t1 : Wheel
    t1 = (timer_execute t).1

    shifted : Moved t1 (timer_shift t1) (next_time t1.time)
    shifted =
        timer_shift-Moved t1 first.placed
          (first.left t1.time ∙ if_eq t1.time t.time (pending t t1.time) first.time_eq)

    second : Dispatched (timer_shift t1) (timer_execute (timer_shift t1))
    second = timer_execute-Dispatched (timer_shift t1) shifted.placed

    time : (timer_shift t1).time ≡ next_time t.time
    time = shifted.time_eq ∙ ap next_time first.time_eq

    behind : pending (timer_shift t1) (timer_shift t1).time ≡ pending t (next_time t.time)
    behind =
        shifted.same (timer_shift t1).time
        ∙ first.left (timer_shift t1).time
        ∙ ap (λ c. if c == t.time then [] else pending t c) time
        ∙ if_ne (next_time t.time) t.time (pending t (next_time t.time))
            (next_time-≢ t.time w.time_bound)

-- The node that `timer_add` makes
abbrev pub timer_node : Wheel → ℕ → ℕ → ℕ → Node
timer_node t handle ctx time = record { expire = (time + t.time) % u32; handle = handle; ctx = ctx }

-- The state between updates: each node at its place, and none left of the time that is.
pub record IsSettled (t : Wheel) : Type 0 where
  pub placed : IsPlaced t
  pub empty_now : pending t t.time ≡ []

append_if :
    (b : Bool) (xs ys : List Node) → xs ++ (if b then ys else []) ≡ (if b then xs ++ ys else xs)
append_if true xs ys = refl
append_if false xs ys = append-nil xs

test_comm : (m n : ℕ) → (m == n) ≡ (n == m)
test_comm m n = ground arith

at_node :
    (n : Node) (xs : List Node) (e : ℕ)
    → xs ++ at e (n ∷ []) ≡ (if e == n.expire then xs ++ n ∷ [] else xs)
unfolding at
at_node n xs e =
    append_if (n.expire == e) xs (n ∷ [])
    ∙ ap (λ b. if b then xs ++ n ∷ [] else xs) (test_comm n.expire e)

sum-IsAhead : (a c : ℕ) → a < 2 ^ 31 → c < u32 → IsAhead ((a + c) % u32) c
sum-IsAhead a c h k = ground arith

sum-≢ : (a c : ℕ) → 0 < a → a < 2 ^ 31 → c < u32 → (a + c) % u32 ≢ c
sum-≢ a c l h k q = omega arith

pub record Added (t : Wheel) (n : Node) (t' : Wheel) : Type 0 where
  pub settled : IsSettled t'
  pub queues :
      (e : ℕ) → pending t' e ≡ (if e == n.expire then pending t e ++ n ∷ [] else pending t e)
  pub same_time : t'.time ≡ t.time

-- `timer_add` with a timeout of 1 up to 2 ^ 31 - 1 puts one node behind those that expire at the time
-- `timeout` ticks from now, the sum taken modulo 2 ^ 32, changes no other queue, and keeps each node at
-- its place.
pub timer_add-Added :
    (t : Wheel) (handle ctx time : ℕ)
    → 0 < time
    → time < 2 ^ 31
    → IsSettled t
    → Added t (timer_node t handle ctx time) (timer_add t handle ctx time)
unfolding timer_add add_node link
timer_add-Added t handle ctx time l h v = record {
  settled = record {
    placed =
        add_node-IsPlaced t n (omega arith) (sum-IsAhead time t.time h v.placed.time_bound)
          v.placed;
    empty_now =
        pending-add_node t n t.time
        ∙ ap₂ (λ xs ys. xs ++ ys) v.empty_now
            (at_other n t.time (sum-≢ time t.time l h v.placed.time_bound));
  };
  queues = λ e. pending-add_node t n e ∙ at_node n (pending t e) e;
  same_time = refl;
}
  where
    n : Node
    n = timer_node t handle ctx time
