-- ===== src/Timer/Handles.antt =====
-- common/timer.cpp, `_GenerateHandleID`: the next number that no timer has.
pub mod Free
mod Examples
use game_server.Prelude.{
  ℕ, zero, suc, ◌+◌, ◌*◌, ◌-◌, ◌%◌, ◌^◌, Option, none, some, Bool, true, false, ◌||◌, leb,
  if◌then◌else◌, length,
}
use game_server.Prelude.Map.{Map, find}

-- `UINT32_MAX`
abbrev pub u32_max : ℕ
u32_max = 2 ^ 32 - 1

-- `it != m_mContextMap.end()`
abbrev pub is_found {ℓ} : {V : Type ℓ} → Option V → Bool
is_found none = false
is_found (some v) = true

-- `m_dwCounter++`
abbrev pub increment : ℕ → ℕ
increment n = (n + 1) % 2 ^ 32

module _ {ℓ} {V : Type ℓ} where
  -- The loop at the counter n; `none` is no fuel.
  unfoldable pub generate_loop : ℕ → Map V → ℕ → Option ℕ
  generate_loop zero m n = none
  generate_loop (suc fuel) m n =
      let rest = generate_loop fuel m (increment (if leb u32_max n then 0 else n)) in
      if is_found (find n m) || leb u32_max n then rest else some n

  -- `_GenerateHandleID` at the counter: the new counter, which is the result too. The loop passes each
  -- entry at most twice, before and after the counter wraps.
  unfoldable pub generate_handle_id : Map V → ℕ → Option ℕ
  unfolding generate_loop
  generate_handle_id m counter = generate_loop (2 * length m + 3) m (increment counter)
