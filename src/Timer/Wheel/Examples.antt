-- ===== src/Timer/Wheel/Examples.antt =====
-- The wheel of common/timer.cpp on small inputs.
use game_server.Prelude.{◌≡◌, refl, ◌+◌, ◌%◌, [], ◌∷◌, ◌++◌, arith}
use game_server.Timer.Wheel.{
  Wheel, timer_create_timer, timer_add, timer_update, moved_slot, add_node, move_list, u32,
}
use game_server.Timer.Wheel.Moves.{at}
use game_server.Timer.Wheel.Pending.{pending, timer_create_timer-IsPlaced}
use game_server.Timer.Wheel.Updates.{
  Updated, timer_update-Updated, IsSettled, timer_node, Added, timer_add-Added,
}
use game_server.Timer.Wheel.Clock.{Timer, Followed, game_timer_update, game_timer_update-Followed}
use game_server.Timer.Wheel.Ticks.{updates, timer_update-on_time, timer_add-on_time}

new_wheel-IsSettled : IsSettled timer_create_timer
unfolding pending at
new_wheel-IsSettled = record { placed = timer_create_timer-IsPlaced; empty_now = refl }

-- A timer of three seconds, in the list `t[0][1]` since 300 is behind the next multiple of 256
abbrev one_timer : Wheel
one_timer = timer_add timer_create_timer 7 70 300

one_timer-IsSettled : IsSettled one_timer
one_timer-IsSettled =
    (timer_add-Added timer_create_timer 7 70 300 (omega arith) (omega arith)
      new_wheel-IsSettled).settled

timer_update-Updated_example : Updated one_timer (timer_update one_timer)
timer_update-Updated_example = timer_update-Updated one_timer one_timer-IsSettled.placed

timer_add-Added_example :
    Added one_timer (timer_node one_timer 8 80 300) (timer_add one_timer 8 80 300)
timer_add-Added_example =
    timer_add-Added one_timer 8 80 300 (omega arith) (omega arith) one_timer-IsSettled

next_update :
    (timer_update (updates 299 one_timer)).0 ≡ pending one_timer ((one_timer.time + 300) % u32)
next_update = timer_update-on_time 299 one_timer (omega arith) one_timer-IsSettled

timer_add-on_time_example :
    (timer_update (updates 299 (timer_add one_timer 8 80 300))).0
    ≡ pending one_timer ((300 + one_timer.time) % u32) ++ timer_node one_timer 8 80 300 ∷ []
timer_add-on_time_example = timer_add-on_time one_timer 8 80 299 (omega arith) one_timer-IsSettled

-- The wheel runs: the timer comes out of its list after 300 ticks.
three_seconds :
    (timer_update (updates 299 one_timer)).0 ≡ record { expire = 300; handle = 7; ctx = 70 } ∷ []
unfolding updates timer_update timer_add moved_slot add_node move_list
three_seconds = refl

abbrev clocked : Timer
clocked = record { wheel = one_timer; current = 5; current_point = 1000 }

game_timer_update-Followed_example : Followed clocked 300 1300 (game_timer_update 1300 clocked)
game_timer_update-Followed_example =
    game_timer_update-Followed clocked 1300 one_timer-IsSettled (omega arith) (omega arith)
