-- ===== src/Timer/Service/Timeouts.antt =====
-- common/timer.cpp, `GameTimer`: what `TimerTimeout` does for a timer that is live and for one that is
-- not.
use game_server.Prelude.{
  ℕ, suc, ◌∙◌, ap, ◌≡◌, refl, Option, none, some, List, [], ◌∷◌, ◌++◌, Bool, true, false, ◌==◌,
  if◌then◌else◌, arith,
}
use game_server.Prelude.Map.{find, erase, find-erase}
use game_server.Timer.Wheel.{Wheel}
use game_server.Timer.Service.{
  and_then, TimerContext, erase_key, GameTimer, spinlock_lock, spinlock_unlock, push_queue,
  remove_entry, remove_rounds, remove_timer_handle, timeout_entry, timer_timeout,
}
use game_server.Timer.Service.Rules.{
  string_eq_self, IsLive, IsConsistent, remove_entry-IsConsistent,
}

-- The queues, the lock and the wheel do not matter to the maps.
pub unrelated :
    (g : GameTimer) (queues : ℕ → List TimerContext) (b : Bool) (w : Wheel)
    → IsConsistent g
    → IsConsistent (record g { queues = queues; locked = b; timer = w })
unrelated g queues b w v = record {
  by_handle = λ j t q.
      let l = v.by_handle j t q in
      record { ctx = l.ctx; stored = l.stored; own = l.own; bound = l.bound };
  by_key = λ k j q.
      let l = v.by_key k j q in
      record { ref = l.ref; found = l.found; ctx = l.ctx; stored = l.stored; key_eq = l.key_eq };
  fresh = v.fresh;
}

erased_self : (h : ℕ) (x y : Option ℕ) → x ≡ (if h == h then none else y) → x ≡ none
erased_self h x y q = ground arith

rounds-found :
    (fuel : ℕ) (g : GameTimer) (h r : ℕ) (c : TimerContext)
    → find h g.context_map ≡ some r
    → g.contexts r ≡ some c
    → remove_rounds (suc fuel) g h ≡ remove_rounds fuel (remove_entry g h r c) h
unfolding remove_rounds
rounds-found fuel g h r c f s =
    ap
      (λ (o : Option ℕ). elim o [
        | none ↦ some g
        | some x ↦ and_then (g.contexts x) (λ d. remove_rounds fuel (remove_entry g h x d) h)
      ])
      f
    ∙ ap (λ o. and_then o (λ d. remove_rounds fuel (remove_entry g h r d) h)) s

rounds-none :
    (fuel : ℕ) (g : GameTimer) (h : ℕ)
    → find h g.context_map ≡ none
    → remove_rounds (suc fuel) g h ≡ some g
unfolding remove_rounds
rounds-none fuel g h f =
    ap
      (λ (o : Option ℕ). elim o [
        | none ↦ some g
        | some x ↦ and_then (g.contexts x) (λ d. remove_rounds fuel (remove_entry g h x d) h)
      ])
      f

pub remove_timer_handle_eq :
    (g : GameTimer) (h r : ℕ) (c : TimerContext)
    → find h g.context_map ≡ some r
    → g.contexts r ≡ some c
    → remove_timer_handle g h ≡ some (remove_entry g h r c)
unfolding remove_timer_handle remove_entry
remove_timer_handle_eq g h r c f s =
    rounds-found 1 g h r c f s ∙ rounds-none 0 (remove_entry g h r c) h gone
  where
    gone : find h (erase h g.context_map) ≡ none
    gone =
        erased_self h (find h (erase h g.context_map)) (find h g.context_map)
          (find-erase h h g.context_map)

timeout_entry-found :
    (g : GameTimer) (h r : ℕ) (c : TimerContext)
    → find h g.context_map ≡ some r
    → g.contexts r ≡ some c
    → timeout_entry g h r ≡ some (push_queue g c)
unfolding timeout_entry
timeout_entry-found g h r c f s =
    ap
      (λ (o : Option ℕ). elim o [
        | none ↦ some g
        | some x ↦ and_then (g.contexts r) (λ d. some (push_queue g d))
      ])
      f
    ∙ ap (λ o. and_then o (λ d. some (push_queue g d))) s

-- What a timeout of the live handle h, whose context is at r, leaves.
pub record TimedOut (g : GameTimer) (h r : ℕ) (result : Option GameTimer) : Type 0 where
  pub after : GameTimer
  pub returned : result ≡ some after
  pub ctx : TimerContext
  pub was : g.contexts r ≡ some ctx
  pub queued :
      (q : ℕ) → after.queues q ≡ (if ctx.queue == q then g.queues q ++ ctx ∷ [] else g.queues q)
  pub handles : (j : ℕ) → find j after.context_map ≡ (if h == j then none else find j g.context_map)
  pub key_free : after.key_map ctx.key ≡ none
  pub unlocked : after.locked ≡ false
  pub consistent : IsConsistent after

module _ (g : GameTimer) (v : IsConsistent g) (u : g.locked ≡ false) where
  -- On consistent timers whose lock is free, `TimerTimeout` of a live handle returns; it puts the
  -- timer's context behind those of its queue and into no other one, removes the handle and the key and
  -- no other handle, frees the lock, and keeps the timers consistent.
  pub timer_timeout-TimedOut :
      (h r : ℕ) → find h g.context_map ≡ some r → TimedOut g h r (timer_timeout g h r)
  unfolding timer_timeout timeout_entry spinlock_lock spinlock_unlock push_queue remove_entry
      erase_key
  timer_timeout-TimedOut h r f = record {
    after = spinlock_unlock (remove_entry pushed h r c);
    returned =
        ap (λ b. timed (if b then none else some (record g { locked = true }))) u
        ∙ ap
            (λ o.
              and_then o
                (λ g2. and_then (remove_timer_handle g2 h) (λ g3. some (spinlock_unlock g3))))
            (timeout_entry-found (record g { locked = true }) h r c f live.stored)
        ∙ ap (λ o. and_then o (λ g3. some (spinlock_unlock g3)))
            (remove_timer_handle_eq pushed h r c f live.stored);
    ctx = c;
    was = live.stored;
    queued = λ q. refl;
    handles = λ j. find-erase h j g.context_map;
    key_free = ap (λ b. if b then none else g.key_map c.key) (string_eq_self c.key);
    unlocked = refl;
    consistent = unrelated (remove_entry pushed h r c) pushed.queues false pushed.timer (
        remove_entry-IsConsistent pushed (unrelated g pushed.queues true g.timer v) h r c f
          live.stored);
  }
    where
      live : IsLive g h r
      live = v.by_handle h r f

      c : TimerContext
      c = live.ctx

      timed : Option GameTimer → Option GameTimer
      timed o = and_then o (λ g1.
          and_then (timeout_entry g1 h r)
            (λ g2. and_then (remove_timer_handle g2 h) (λ g3. some (spinlock_unlock g3))))

      pushed : GameTimer
      pushed = push_queue (record g { locked = true }) c

module _ (g : GameTimer) (u : g.locked ≡ false) where
  timeout_entry-removed :
      (k : GameTimer) (h r : ℕ) → find h k.context_map ≡ none → timeout_entry k h r ≡ some k
  unfolding timeout_entry
  timeout_entry-removed k h r f =
      ap
        (λ (o : Option ℕ). elim o [
          | none ↦ some k
          | some x ↦ and_then (k.contexts r) (λ d. some (push_queue k d))
        ])
        f

  -- When the lock is free, `TimerTimeout` of a handle that was removed before returns with the queues,
  -- the maps and the contexts as they were.
  pub timer_timeout-removed :
      (h r : ℕ)
      → find h g.context_map ≡ none
      → timer_timeout g h r ≡ some (record g { locked = false })
  unfolding timer_timeout spinlock_lock spinlock_unlock remove_timer_handle
  timer_timeout-removed h r f =
      ap
        (λ b. and_then (if b then none else some held) (λ g1.
          and_then (timeout_entry g1 h r)
            (λ g2. and_then (remove_timer_handle g2 h) (λ g3. some (spinlock_unlock g3)))))
        u
      ∙ ap
          (λ o.
            and_then o
              (λ g2. and_then (remove_timer_handle g2 h) (λ g3. some (spinlock_unlock g3))))
          (timeout_entry-removed held h r f)
      ∙ ap (λ o. and_then o (λ g3. some (spinlock_unlock g3))) (rounds-none 1 held h f)
    where
      held : GameTimer
      held = record g { locked = true }
