-- ===== src/Timer/Handles/Examples.antt =====
-- The handles of common/timer.cpp on small inputs.
use game_server.Prelude.{ℕ, ◌≡◌, refl, ◌-◌, some, [], ◌∷◌, arith}
use game_server.Prelude.Map.{Map, find}
use game_server.Timer.Handles.{u32_max, generate_handle_id}
use game_server.Timer.Handles.Free.{Generated, generate_handle_id-Generated}

-- Two timers, whose handles come next.
abbrev live : Map ℕ
live = (1, 10) ∷ (2, 20) ∷ []

generate_handle_id-Generated_example : Generated live (generate_handle_id live 0)
generate_handle_id-Generated_example =
    generate_handle_id-Generated live (omega arith) 0 (omega arith)

third_handle : generate_handle_id live 0 ≡ some 3
unfolding generate_handle_id find
third_handle = refl

-- The counter wraps over 0.
wrapped_handle : generate_handle_id live (u32_max - 1) ≡ some 3
unfolding generate_handle_id find
wrapped_handle = refl
