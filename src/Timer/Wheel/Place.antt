-- ===== src/Timer/Wheel/Place.antt =====
-- common/timer.cpp: `add_node`'s place of a node, as `timer_shift` moves the time on.
use game_server.Prelude.{
  ℕ, suc, ◌∙◌, ap, sym, subst, ◌+◌, ◌/◌, ◌%◌, ◌^◌, ◌≤◌, ◌<◌, ◌≡◌, ◌≢◌, ◌⊎◌, inl, inr, some, arith,
}
use game_server.Timer.Wheel.{near, far, place, shift_slot, moved_slot, u32}

-- A time that is not behind another one: later, or in another block of 2 ^ 26.
abbrev pub IsAhead : ℕ → ℕ → Type 0
IsAhead e t = (t ≤ e) ⊎ (e / 2 ^ 26 ≢ t / 2 ^ 26)

abbrev pub next_time : ℕ → ℕ
next_time t = (t + 1) % u32

pub next_time-IsAhead :
    (e t : ℕ) → e < u32 → t < u32 → e ≢ t → IsAhead e t → IsAhead e (next_time t)
next_time-IsAhead e t h k ne (inl a) = inl (omega arith)
next_time-IsAhead e t h k ne (inr b) = ground arith

-- The time's own near list holds what expires at the time.
pub place-eq_near : (e t : ℕ) → e < u32 → t < u32 → place e t ≡ near (t % 256) → e ≡ t
unfolding place
place-eq_near e t h k p = ground arith

pub place_self : (t : ℕ) → place t t ≡ near (t % 256)
unfolding place
place_self t = ground arith

-- No carry leaves the lowest eight bits: nothing moves.
stay_near : (e c : ℕ) → c < e → suc c % 2 ^ 8 ≢ 0 → place e (suc c) ≡ place e c
unfolding place
stay_near e c k a = ground arith

moved_8 :
    (c : ℕ)
    → c ≢ 0
    → c % 2 ^ 8 ≡ 0
    → c / 2 ^ 8 % 64 ≢ 0
    → moved_slot c ≡ some (far 0 (c / 2 ^ 8 % 64))
unfolding moved_slot shift_slot
moved_8 c n a b = ground arith

place_kept_8 :
    (e c : ℕ)
    → c < e
    → suc c % 2 ^ 8 ≡ 0
    → suc c / 2 ^ 8 % 64 ≢ 0
    → far 0 (suc c / 2 ^ 8 % 64) ≢ place e c
    → place e (suc c) ≡ place e c
unfolding place
place_kept_8 e c k a b m = ground arith

stay_8 :
    (e c : ℕ)
    → c < e
    → suc c % 2 ^ 8 ≡ 0
    → suc c / 2 ^ 8 % 64 ≢ 0
    → moved_slot (suc c) ≢ some (place e c)
    → place e (suc c) ≡ place e c
unfolding place
stay_8 e c k a b m = place_kept_8 e c k a b (λ q. m (moved_8 (suc c) (omega arith) a b ∙ ap some q))

moved_14 :
    (c : ℕ)
    → c ≢ 0
    → c % 2 ^ 14 ≡ 0
    → c / 2 ^ 14 % 64 ≢ 0
    → moved_slot c ≡ some (far 1 (c / 2 ^ 14 % 64))
unfolding moved_slot shift_slot
moved_14 c n a b = ground arith

place_kept_14 :
    (e c : ℕ)
    → c < e
    → suc c % 2 ^ 14 ≡ 0
    → suc c / 2 ^ 14 % 64 ≢ 0
    → far 1 (suc c / 2 ^ 14 % 64) ≢ place e c
    → place e (suc c) ≡ place e c
unfolding place
place_kept_14 e c k a b m = ground arith

stay_14 :
    (e c : ℕ)
    → c < e
    → suc c % 2 ^ 14 ≡ 0
    → suc c / 2 ^ 14 % 64 ≢ 0
    → moved_slot (suc c) ≢ some (place e c)
    → place e (suc c) ≡ place e c
unfolding place
stay_14 e c k a b m =
    place_kept_14 e c k a b (λ q. m (moved_14 (suc c) (omega arith) a b ∙ ap some q))

moved_20 :
    (c : ℕ)
    → c ≢ 0
    → c % 2 ^ 20 ≡ 0
    → c / 2 ^ 20 % 64 ≢ 0
    → moved_slot c ≡ some (far 2 (c / 2 ^ 20 % 64))
unfolding moved_slot shift_slot
moved_20 c n a b = ground arith

place_kept_20 :
    (e c : ℕ)
    → c < e
    → suc c % 2 ^ 20 ≡ 0
    → suc c / 2 ^ 20 % 64 ≢ 0
    → far 2 (suc c / 2 ^ 20 % 64) ≢ place e c
    → place e (suc c) ≡ place e c
unfolding place
place_kept_20 e c k a b m = ground arith

stay_20 :
    (e c : ℕ)
    → c < e
    → suc c % 2 ^ 20 ≡ 0
    → suc c / 2 ^ 20 % 64 ≢ 0
    → moved_slot (suc c) ≢ some (place e c)
    → place e (suc c) ≡ place e c
unfolding place
stay_20 e c k a b m =
    place_kept_20 e c k a b (λ q. m (moved_20 (suc c) (omega arith) a b ∙ ap some q))

moved_26 : (c : ℕ) → c < u32 → c % 2 ^ 26 ≡ 0 → moved_slot c ≡ some (far 3 (c / 2 ^ 26 % 64))
unfolding moved_slot shift_slot
moved_26 c l a = ground arith

place_kept_26 :
    (e c : ℕ)
    → c < e
    → e < u32
    → suc c % 2 ^ 26 ≡ 0
    → far 3 (suc c / 2 ^ 26 % 64) ≢ place e c
    → place e (suc c) ≡ place e c
unfolding place
place_kept_26 e c k l a m = ground arith

-- A time in another block of 2 ^ 26
place-other_block : (e c : ℕ) → e / 2 ^ 26 ≢ c / 2 ^ 26 → place e c ≡ far 3 (e / 2 ^ 26 % 64)
unfolding place
place-other_block e c k = ground arith

zero_or : (n : ℕ) → (n ≡ 0) ⊎ (n ≢ 0)
zero_or n = ground arith

-- The steps of a time that does not wrap, sym, subst, for a node that expires later.
stay_ahead :
    (e c : ℕ)
    → c < e
    → e < u32
    → moved_slot (suc c) ≢ some (place e c)
    → place e (suc c) ≡ place e c
stay_ahead e c k l m = elim (zero_or (suc c % 2 ^ 8)) [
  | inr a ↦ stay_near e c k a
  | inl a ↦ elim (zero_or (suc c / 2 ^ 8 % 64)) [
    | inr b ↦ stay_8 e c k a b m
    | inl b ↦ elim (zero_or (suc c / 2 ^ 14 % 64)) [
      | inr d ↦ stay_14 e c k (omega arith) d m
      | inl d ↦ elim (zero_or (suc c / 2 ^ 20 % 64)) [
        | inr f ↦ stay_20 e c k (omega arith) f m
        | inl f ↦
            place_kept_26 e c k l (omega arith)
              (λ q. m (moved_26 (suc c) (omega arith) (omega arith) ∙ ap some q))
      ]
    ]
  ]
]

-- The steps of any time, for a node in another block of 2 ^ 26.
stay_block :
    (e t : ℕ)
    → e < u32
    → t < u32
    → e / 2 ^ 26 ≢ t / 2 ^ 26
    → moved_slot (next_time t) ≢ some (place e t)
    → e / 2 ^ 26 ≢ next_time t / 2 ^ 26
stay_block e t h k b m q = m (
    moved_26 (next_time t) (omega arith) (ground arith)
    ∙ ap (λ x. some (far 3 (x % 64))) (sym q)
    ∙ ap some (sym (place-other_block e t b)))

suc-next_time : (e t : ℕ) → t < e → e < u32 → suc t ≡ next_time t
suc-next_time e t h k = omega arith

pub place-next_time :
    (e t : ℕ)
    → e < u32
    → t < u32
    → e ≢ t
    → IsAhead e t
    → moved_slot (next_time t) ≢ some (place e t)
    → place e (next_time t) ≡ place e t
place-next_time e t h k ne (inl a) m =
    subst (λ c. moved_slot c ≢ some (place e t) → place e c ≡ place e t)
      (suc-next_time e t (omega arith) h) (stay_ahead e t (omega arith) h) m
place-next_time e t h k ne (inr b) m =
    place-other_block e (next_time t) (stay_block e t h k b m) ∙ sym (place-other_block e t b)
