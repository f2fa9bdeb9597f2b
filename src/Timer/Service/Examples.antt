-- ===== src/Timer/Service/Examples.antt =====
-- The timers of common/timer.cpp on small inputs.
use game_server.Prelude.{
  ℕ, ◌≡◌, ◌≤◌, refl, subst, none, some, [], ◌∷◌, Bool, true, false, if◌then◌else◌, ◌==◌, arith,
}
use game_server.Prelude.Map.{find}
use game_server.Timer.Service.{
  TimerContext, remove_timer, GameTimer, timer_init, timer_timeout, string_eq,
}
use game_server.Timer.Service.Rules.{IsLive, IsBound, IsConsistent, string_eq-≡}
use game_server.Timer.Service.Removal.{Removed, remove_timer-Removed}
use game_server.Timer.Service.Timeouts.{TimedOut, timer_timeout-TimedOut, timer_timeout-removed}

abbrev tick : TimerContext
tick = record { handle = 1; key = 116 ∷ []; func = 5; args = 6; queue = 9 }

-- One live timer, whose context is at 0
abbrev one_live : GameTimer
one_live = record {
  counter = 1;
  timer = timer_init.timer;
  context_map = (1, 0) ∷ [];
  key_map = λ k. if string_eq (116 ∷ []) k then some 1 else none;
  contexts = λ s. if 0 == s then some tick else none;
  next_context = 1;
  queues = λ q. [];
  locked = false;
}

its_handle : (h r : ℕ) → (if 1 == h then some 0 else none) ≡ some r → (1 ≡ h) × (0 ≡ r)
its_handle h r q = ground arith

its_key : (b : Bool) (h : ℕ) → (if b then some 1 else none) ≡ some h → (b ≡ true) × (1 ≡ h)
its_key b h q = ground arith

its_context : (r : ℕ) → 1 ≤ r → (if 0 == r then some tick else none) ≡ none
its_context r b = ground arith

one_live-IsConsistent : IsConsistent one_live
unfolding find
one_live-IsConsistent = record {
  by_handle = λ h r q.
      let (e, e') = its_handle h r q in
      subst (λ x. IsLive one_live x r) e
        (subst (IsLive one_live 1) e'
          (record { ctx = tick; stored = refl; own = refl; bound = refl }));
  by_key = λ k h q.
      let (e, e') = its_key (string_eq (116 ∷ []) k) h q in
      subst (IsBound one_live k) e' (record {
        ref = 0;
        found = refl;
        ctx = tick;
        stored = refl;
        key_eq = string_eq-≡ (116 ∷ []) k e;
      });
  fresh = its_context;
}

its_entry : find 1 one_live.context_map ≡ some 0
unfolding find
its_entry = refl

no_entry : find 2 one_live.context_map ≡ none
unfolding find
no_entry = refl

timer_timeout-TimedOut_example : TimedOut one_live 1 0 (timer_timeout one_live 1 0)
timer_timeout-TimedOut_example =
    timer_timeout-TimedOut one_live one_live-IsConsistent refl 1 0 its_entry

timer_timeout-removed_example :
    timer_timeout one_live 2 0 ≡ some (record one_live { locked = false })
timer_timeout-removed_example = timer_timeout-removed one_live refl 2 0 no_entry

remove_timer-Removed_example : Removed one_live (116 ∷ []) (remove_timer one_live (116 ∷ []))
remove_timer-Removed_example =
    remove_timer-Removed one_live one_live-IsConsistent refl (116 ∷ []) (omega arith)
