-- ===== src/Timer/Wheel.antt =====
-- common/timer.cpp, the wheel: `struct timer` with its 256 near lists and four levels of 64 lists.
-- A linked list is the list of its nodes, first one first; `uint32_t` values stay below 2 ^ 32.
pub mod Place
pub mod Moves
pub mod Pending
pub mod Shift
pub mod Fires
pub mod Updates
pub mod Ticks
pub mod Clock
mod Examples
use game_server.Prelude.{
  ℕ, zero, suc, ◌+◌, ◌*◌, ◌/◌, ◌%◌, ◌^◌, List, [], ◌∷◌, ◌++◌, Option, none, some, Bool, true, false,
  ◌&&◌, ◌==◌, if◌then◌else◌,
}

-- `struct timer_node` with the `struct timer_event` behind it; `ctx` is the address of the context.
pub record Node : Type 0 where
  pub expire : ℕ
  pub handle : ℕ
  pub ctx : ℕ

-- `near[i]` and `t[i][j]`
pub data Slot : Type 0 where
  near : ℕ → Slot
  far : ℕ → ℕ → Slot

abbrev pub slot_eq : Slot → Slot → Bool
slot_eq (near i) (near j) = i == j
slot_eq (near i) (far k l) = false
slot_eq (far i j) (near k) = false
slot_eq (far i j) (far k l) = i == k && j == l

pub record Wheel : Type 0 where
  pub slots : Slot → List Node
  pub time : ℕ

abbrev pub u32 : ℕ
u32 = 2 ^ 32

-- `(a | (2 ^ k - 1)) == (b | (2 ^ k - 1))`: the bits above the lowest k agree.
abbrev pub same_above : ℕ → ℕ → ℕ → Bool
same_above k a b = a / 2 ^ k == b / 2 ^ k

-- Where `add_node` links a node that expires at `time`. The loop tries i = 0, 1, 2 and leaves 3.
unfoldable pub place : ℕ → ℕ → Slot
place time current_time =
    if same_above 8 time current_time
    then near (time % 256)
    else if same_above 14 time current_time
    then far 0 (time / 2 ^ 8 % 64)
    else if same_above 20 time current_time
    then far 1 (time / 2 ^ 14 % 64)
    else if same_above 26 time current_time
    then far 2 (time / 2 ^ 20 % 64)
    else far 3 (time / 2 ^ 26 % 64)

-- `link`: behind the list's last node.
unfoldable pub link : Wheel → Slot → Node → Wheel
link t s n = record t { slots = λ r. if slot_eq s r then t.slots r ++ n ∷ [] else t.slots r }

unfoldable pub add_node : Wheel → Node → Wheel
unfolding link place
add_node t n = link t (place n.expire t.time) n

-- `link_clear`, without the list that it returns
unfoldable pub link_clear : Wheel → Slot → Wheel
link_clear t s = record t { slots = λ r. if slot_eq s r then [] else t.slots r }

unfoldable pub add_nodes : Wheel → List Node → Wheel
add_nodes t [] = t
add_nodes t (n ∷ ns) = add_nodes (add_node t n) ns

-- `move_list`: the nodes of a list are linked anew, by the time that it is.
unfoldable pub move_list : Wheel → Slot → Wheel
unfolding add_nodes
move_list t s = add_nodes (link_clear t s) (t.slots s)

-- `timer_add`; the sum wraps.
unfoldable pub timer_add : Wheel → ℕ → ℕ → ℕ → Wheel
timer_add t handle ctx time =
    add_node t (record { expire = (time + t.time) % u32; handle = handle; ctx = ctx })

-- `timer_create_timer`
abbrev pub timer_create_timer : Wheel
timer_create_timer = record { slots = λ _. []; time = 0 }

-- The loop of `timer_shift` at level i, where `mask` is 2 ^ bits and `time` is `ct >> bits`: the list
-- that it moves before it breaks. At i = 3 the index is not 0, since `ct` is not.
shift_slot : ℕ → ℕ → ℕ → ℕ → Option Slot
shift_slot zero ct bits i = none
shift_slot (suc levels) ct bits i =
    let idx = ct / 2 ^ bits % 64 in
    let rest = shift_slot levels ct (bits + 6) (i + 1) in
    if ct % 2 ^ bits == 0 then (if idx == 0 then rest else some (far i idx)) else none

-- The list that a shift to the time `ct` moves.
unfoldable pub moved_slot : ℕ → Option Slot
unfolding shift_slot
moved_slot ct = if ct == 0 then some (far 3 0) else shift_slot 4 ct 8 0

move_slot : Wheel → Option Slot → Wheel
move_slot t none = t
move_slot t (some s) = move_list t s

-- `timer_shift`
unfoldable pub timer_shift : Wheel → Wheel
unfolding move_slot
timer_shift t = let ct = (t.time + 1) % u32 in move_slot (record t { time = ct }) (moved_slot ct)

-- `timer_execute`: the nodes that it hands to `dispatch_list`, and the wheel after it. What is
-- dispatched links no node here, so that the list is empty when the loop looks again.
unfoldable pub timer_execute : Wheel → List Node × Wheel
unfolding link_clear
timer_execute t = let s = near (t.time % 256) in (t.slots s, link_clear t s)

-- `timer_update`: all nodes that are dispatched, in order, and the wheel after it.
unfoldable pub timer_update : Wheel → List Node × Wheel
unfolding timer_execute timer_shift
timer_update t =
    let (first, t') = timer_execute t in
    let (second, t'') = timer_execute (timer_shift t') in (first ++ second, t'')
