-- ===== src/Timer/Service/Removal.antt =====
-- common/timer.cpp, `GameTimer::RemoveTimer`: the timer of a key is gone, and the other ones stay.
use game_server.Prelude.{
  ℕ, ◌∙◌, ap, sym, ◌≡◌, ◌≤◌, refl, Option, none, some, List, Bool, true, false, ◌==◌, ltb,
  if◌then◌else◌, length, arith,
}
use game_server.Prelude.Int.{ℤ, pos, negsuc}
use game_server.Prelude.Map.{find, find-erase}
use game_server.Timer.Service.{
  and_then, string_eq, erase_key, GameTimer, spinlock_lock, spinlock_unlock, remove_entry,
  remove_timer_handle, replace_timer, remove_timer, max_key_length,
}
use game_server.Timer.Service.Rules.{
  string_eq-≡, string_eq_self, IsBound, IsConsistent, remove_entry-IsConsistent,
}
use game_server.Timer.Service.Timeouts.{unrelated, remove_timer_handle_eq}

-- What is found for the handle j, once the handle is removed that the key stood for, if any.
abbrev pub without : Option ℕ → ℕ → Option ℕ → Option ℕ
without none j x = x
without (some h) j x = if h == j then none else x

-- What the removal of a key leaves.
pub record Removed (g : GameTimer) (key : List ℕ) (result : Option (ℤ × GameTimer)) : Type 0 where
  pub after : GameTimer
  pub returned : result ≡ some (pos 0, after)
  pub keys : (k : List ℕ) → after.key_map k ≡ (if string_eq key k then none else g.key_map k)
  pub handles :
      (j : ℕ) → find j after.context_map ≡ without (g.key_map key) j (find j g.context_map)
  pub queues : (q : ℕ) → after.queues q ≡ g.queues q
  pub unlocked : after.locked ≡ false
  pub consistent : IsConsistent after

-- A key that is not there is erased.
erase_absent-IsConsistent :
    (g : GameTimer) (key : List ℕ)
    → g.key_map key ≡ none
    → IsConsistent g
    → IsConsistent (record g { key_map = erase_key key g.key_map })
unfolding erase_key
erase_absent-IsConsistent g key e v = record {
  by_handle = λ j t q.
      let l = v.by_handle j t q in
      record {
        ctx = l.ctx;
        stored = l.stored;
        own = l.own;
        bound = kept l.ctx.key j l.bound (string_eq key l.ctx.key) refl;
      };
  by_key = λ k j q.
      let l = v.by_key k j (left (string_eq key k) (g.key_map k) j q) in
      record { ref = l.ref; found = l.found; ctx = l.ctx; stored = l.stored; key_eq = l.key_eq };
  fresh = v.fresh;
}
  where
    kept :
        (k : List ℕ) (j : ℕ)
        → g.key_map k ≡ some j
        → (b : Bool) → string_eq key k ≡ b
        → (if b then none else g.key_map k) ≡ some j
    kept k j q true s = sym e ∙ ap g.key_map (string_eq-≡ key k s) ∙ q
    kept k j q false s = q

    left : (b : Bool) (m : Option ℕ) (j : ℕ) → (if b then none else m) ≡ some j → m ≡ some j
    left true m j q = absurd (cc)
    left false m j q = q

twice :
    (b : Bool) (x : Option ℕ)
    → (if b then none else (if b then none else x)) ≡ (if b then none else x)
twice true x = refl
twice false x = refl

short : (n : ℕ) → n ≤ max_key_length → ltb max_key_length n ≡ false
short n h = ground arith

module _ (g : GameTimer) (v : IsConsistent g) (u : g.locked ≡ false) (key : List ℕ)
    (n : length key ≤ max_key_length) where
  held : GameTimer
  held = record g { locked = true }

  erased : GameTimer → GameTimer
  erased g2 = spinlock_unlock (record g2 { key_map = erase_key key g2.key_map })

  remove_timer-eq :
      (g2 : GameTimer)
      → replace_timer held key ≡ some g2
      → remove_timer g key ≡ some (pos 0, erased g2)
  unfolding remove_timer spinlock_lock erased held
  remove_timer-eq g2 q =
      ap (λ b. if b then some (negsuc 1, g) else and_then (spinlock_lock g) rest)
        (short (length key) n)
      ∙ ap (λ b. and_then (if b then none else some (record g { locked = true })) rest) u
      ∙ ap (λ o. and_then o (λ g3. some (pos 0, erased g3))) q
    where
      rest : GameTimer → Option (ℤ × GameTimer)
      rest g1 = and_then (replace_timer g1 key) (λ g3. some (pos 0, erased g3))

  absent : g.key_map key ≡ none → Removed g key (remove_timer g key)
  unfolding erased held spinlock_unlock erase_key replace_timer
  absent e = record {
    after = erased held;
    returned = remove_timer-eq held (
        ap (λ (o : Option ℕ). elim o [ none ↦ some held | some h ↦ remove_timer_handle held h ]) e);
    keys = λ k. refl;
    handles = λ j. ap (λ o. without o j (find j g.context_map)) (sym e);
    queues = λ q. refl;
    unlocked = refl;
    consistent =
        unrelated (record g { key_map = erase_key key g.key_map }) g.queues false g.timer
          (erase_absent-IsConsistent g key e v);
  }

  present : (h : ℕ) → g.key_map key ≡ some h → Removed g key (remove_timer g key)
  unfolding erased held spinlock_unlock erase_key replace_timer remove_entry
  present h e = record {
    after = erased g2;
    returned = remove_timer-eq g2 (
        ap (λ (o : Option ℕ). elim o [ none ↦ some held | some x ↦ remove_timer_handle held x ]) e
        ∙ remove_timer_handle_eq held h b.ref b.ctx b.found b.stored);
    keys = λ k.
        ap (λ x. if string_eq key k then none else (if string_eq x k then none else g.key_map k))
          b.key_eq
        ∙ twice (string_eq key k) (g.key_map k);
    handles =
        λ j. find-erase h j g.context_map ∙ ap (λ o. without o j (find j g.context_map)) (sym e);
    queues = λ q. refl;
    unlocked = refl;
    consistent =
        unrelated (record g2 { key_map = erase_key key g2.key_map }) g.queues false g.timer
          (erase_absent-IsConsistent g2 key gone (
            remove_entry-IsConsistent held (unrelated g g.queues true g.timer v) h b.ref b.ctx
              b.found b.stored));
  }
    where
      b : IsBound g key h
      b = v.by_key key h e

      g2 : GameTimer
      g2 = remove_entry held h b.ref b.ctx

      gone : (if string_eq b.ctx.key key then none else g.key_map key) ≡ none
      gone =
          ap (λ x. if string_eq x key then none else g.key_map key) b.key_eq
          ∙ ap (λ t. if t then none else g.key_map key) (string_eq_self key)

  -- On consistent timers whose lock is free, `RemoveTimer` of a key of at most 128 characters returns 0;
  -- the key stands for nothing then, the handle that it stood for, if any, is gone, every other key and
  -- handle is as it was, no timer is queued, the lock is free, and the timers are consistent.
  pub remove_timer-Removed : Removed g key (remove_timer g key)
  remove_timer-Removed = removal (g.key_map key) refl
    where
      removal : (o : Option ℕ) → g.key_map key ≡ o → Removed g key (remove_timer g key)
      removal none e = absent e
      removal (some h) e = present h e
