-- ===== src/Timer/Service.antt =====
-- common/timer.h and common/timer.cpp, `GameTimer` and `TimerQueue`: the timers by key. Addresses of
-- contexts and of queues are numbers. `none` is a call that does not return, or whose behaviour is
-- undefined.
pub mod Rules
pub mod Timeouts
pub mod Removal
mod Examples
use game_server.Prelude.{
  ℕ, zero, suc, ◌+◌, Option, none, some, Bool, true, false, List, [], ◌∷◌, ◌++◌, ◌&&◌, ◌==◌, ltb,
  if◌then◌else◌, length,
}
use game_server.Prelude.Int.{ℤ, pos, negsuc}
use game_server.Prelude.Map.{Map, find, insert, erase}
use game_server.Timer.Wheel.{Wheel, timer_add, timer_create_timer}
use game_server.Timer.Handles.{generate_handle_id}

-- `ST_TimerContext` with its `ST_TimerCallback`; the key is `m_achTimerKey` up to its end.
pub record TimerContext : Type 0 where
  pub handle : ℕ
  pub key : List ℕ
  pub func : ℕ
  pub args : ℕ
  pub queue : ℕ

-- `==` of `std::string`
abbrev pub string_eq : List ℕ → List ℕ → Bool
string_eq [] [] = true
string_eq [] (c ∷ b) = false
string_eq (c ∷ a) [] = false
string_eq (c ∷ a) (d ∷ b) = c == d && string_eq a b

-- `std::map<std::string, uint32_t>`
abbrev pub KeyMap : Type 0
KeyMap = List ℕ → Option ℕ

-- `erase` by a key
unfoldable pub erase_key : List ℕ → KeyMap → KeyMap
erase_key k m j = if string_eq k j then none else m j

-- `insert`: a key that is there keeps its value.
unfoldable pub insert_key : List ℕ → ℕ → KeyMap → KeyMap
insert_key k v m j = elim (m k) [ none ↦ if string_eq k j then some v else m j | some w ↦ m j ]

-- `GameTimer` with the contexts that are alive, the queues, and whether `m_stLock` is held.
pub record GameTimer : Type 0 where
  pub counter : ℕ
  pub timer : Wheel
  pub context_map : Map ℕ
  pub key_map : KeyMap
  pub contexts : ℕ → Option TimerContext
  pub next_context : ℕ
  pub queues : ℕ → List TimerContext
  pub locked : Bool

-- `strncpy` from `c_str()`: the characters before the first 0
abbrev pub c_str : List ℕ → List ℕ
c_str [] = []
c_str (c ∷ s) = let rest = c_str s in if c == 0 then [] else c ∷ rest

and_then {ℓ κ} : {A : Type ℓ} {B : Type κ} → Option A → (A → Option B) → Option B
and_then none f = none
and_then (some a) f = f a

-- `spinlock_lock` spins for ever on a lock that the same thread holds.
unfoldable pub spinlock_lock : GameTimer → Option GameTimer
spinlock_lock g = if g.locked then none else some (record g { locked = true })

unfoldable pub spinlock_unlock : GameTimer → GameTimer
spinlock_unlock g = record g { locked = false }

-- `PushQueue`
unfoldable pub push_queue : GameTimer → TimerContext → GameTimer
push_queue g c = record g {
  queues = λ q. if c.queue == q then g.queues q ++ c ∷ [] else g.queues q;
}

-- `PrepareExecute`: the other queue takes over what this one holds, and this one is empty, since
-- `Init` clears what the swap brought in.
unfoldable pub prepare_execute :
    List TimerContext → List TimerContext → List TimerContext × List TimerContext
prepare_execute queue other = ([], queue)

-- A round of `_RemoveTimerHandle` for the entry at r
unfoldable pub remove_entry : GameTimer → ℕ → ℕ → TimerContext → GameTimer
remove_entry g handle r c = record g {
  key_map = erase_key c.key g.key_map;
  contexts = λ s. if r == s then none else g.contexts s;
  context_map = erase handle g.context_map;
}

-- `_RemoveTimerHandle`; the loop finds no second entry.
unfoldable pub remove_rounds : ℕ → GameTimer → ℕ → Option GameTimer
unfolding and_then
remove_rounds zero g handle = none
remove_rounds (suc fuel) g handle = elim (find handle g.context_map) [
  | none ↦ some g
  | some r ↦ and_then (g.contexts r) (λ c. remove_rounds fuel (remove_entry g handle r c) handle)
]

unfoldable pub remove_timer_handle : GameTimer → ℕ → Option GameTimer
remove_timer_handle g handle = remove_rounds 2 g handle

-- The middle of `TimerTimeout`, between the lock and `_RemoveTimerHandle`
unfoldable pub timeout_entry : GameTimer → ℕ → ℕ → Option GameTimer
unfolding and_then
timeout_entry g handle ctx = elim (find handle g.context_map) [
  | none ↦ some g
  | some r ↦ and_then (g.contexts ctx) (λ c. some (push_queue g c))
]

-- `TimerTimeout`
unfoldable pub timer_timeout : GameTimer → ℕ → ℕ → Option GameTimer
unfolding and_then
timer_timeout g handle ctx = and_then (spinlock_lock g) (λ g1.
    and_then (timeout_entry g1 handle ctx)
      (λ g2. and_then (remove_timer_handle g2 handle) (λ g3. some (spinlock_unlock g3))))

-- `_AddTimerHandle`
unfoldable pub add_timer_handle : GameTimer → ℕ → ℤ → ℕ → Option GameTimer
add_timer_handle g handle (negsuc time) ctx = timer_timeout g handle ctx
add_timer_handle g handle (pos zero) ctx = timer_timeout g handle ctx
add_timer_handle g handle (pos (suc time)) ctx =
    some (record g { timer = timer_add g.timer handle ctx (suc time) })

-- `GAMETIMER_MAX_TIMER_KEY_LEN`
abbrev pub max_key_length : ℕ
max_key_length = 128

-- `AddTimer`: the timer that has the key is replaced.
unfoldable pub replace_timer : GameTimer → List ℕ → Option GameTimer
replace_timer g key = elim (g.key_map key) [ none ↦ some g | some h ↦ remove_timer_handle g h ]

-- `AddTimer`: the new context at the address r, in both maps
unfoldable pub insert_timer : GameTimer → ℕ → List ℕ → TimerContext → GameTimer
insert_timer g handle key c = record g {
  counter = handle;
  contexts = λ s. if g.next_context == s then some c else g.contexts s;
  next_context = g.next_context + 1;
  context_map = insert handle g.next_context g.context_map;
  key_map = insert_key key handle g.key_map;
}

unfoldable pub new_timer : GameTimer → List ℕ → ℤ → ℕ → ℕ → ℕ → ℕ → Option GameTimer
unfolding add_timer_handle
new_timer g key time func args queue handle =
    let c : TimerContext = record {
      handle = handle;
      key = c_str key;
      func = func;
      args = args;
      queue = queue;
    } in
    add_timer_handle (insert_timer g handle key c) handle time g.next_context

-- `AddTimer`: its result, and the timers after it.
unfoldable pub add_timer : GameTimer → List ℕ → ℤ → ℕ → ℕ → ℕ → Option (ℤ × GameTimer)
unfolding and_then
add_timer g key time func args queue =
    if ltb max_key_length (length key)
    then some (negsuc 1, g)
    else and_then (spinlock_lock g) (λ g1. and_then (replace_timer g1 key) (λ g2.
      and_then (generate_handle_id g2.context_map g2.counter) (λ handle.
        and_then (new_timer g2 key time func args queue handle)
          (λ g3. some (pos 0, spinlock_unlock g3)))))

-- `RemoveTimer`
unfoldable pub remove_timer : GameTimer → List ℕ → Option (ℤ × GameTimer)
unfolding and_then
remove_timer g key =
    if ltb max_key_length (length key)
    then some (negsuc 1, g)
    else and_then (spinlock_lock g) (λ g1.
      and_then (replace_timer g1 key)
        (λ g2. some (pos 0, spinlock_unlock (record g2 { key_map = erase_key key g2.key_map }))))

-- `GameTimer` after `TimerInit`
abbrev pub timer_init : GameTimer
timer_init = record {
  counter = 0;
  timer = timer_create_timer;
  context_map = [];
  key_map = λ k. none;
  contexts = λ s. none;
  next_context = 0;
  queues = λ q. [];
  locked = false;
}
