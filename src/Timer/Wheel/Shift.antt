-- ===== src/Timer/Wheel/Shift.antt =====
-- common/timer.cpp: `timer_shift` moves the time on and one list, and leaves the queues as they are.
use game_server.Prelude.{
  ℕ, ◌∙◌, ap, ap₂, sym, subst, ◌≢◌, ◌<◌, ◌⊎◌, inl, inr, ◌≡◌, refl, List, [], ◌++◌, append-nil, Bool,
  Bool-cases, true, false, Option, none, some, if◌then◌else◌, arith,
}
use game_server.Timer.Wheel.{
  Node, Slot, near, far, slot_eq, Wheel, place, moved_slot, move_list, move_slot, timer_shift, u32,
}
use game_server.Timer.Wheel.Place.{IsAhead, next_time, next_time-IsAhead, place-next_time}
use game_server.Timer.Wheel.Moves.{at, eq_or, slot_eq-≡, slot_eq_self, time-move_list, at-move_list}
use game_server.Timer.Wheel.Pending.{pending, IsPlaced}

-- The moved list is the node's own.
moved_own :
    (a b : Bool) (xs : List Node)
    → (if a then [] else (if a then xs else [])) ++ (if b then xs else []) ≡ (if b then xs else [])
moved_own true b xs = refl
moved_own false b xs = refl

-- The moved list is another one: the node stays.
moved_other :
    (a b : Bool) (xs : List Node)
    → (a ≡ true → b ≡ false)
    → (if a then [] else (if b then xs else [])) ++ (if b then [] else []) ≡ (if b then xs else [])
moved_other true true xs h = ground (arith, h refl)
moved_other true false xs h = refl
moved_other false true xs h = append-nil xs
moved_other false false xs h = refl

pub slot_or : (r s : Slot) → (r ≡ s) ⊎ (slot_eq r s ≡ false)
slot_or r s = elim (Bool-cases (slot_eq r s)) [ inl q ↦ inl (slot_eq-≡ r s q) | inr f ↦ inr f ]

slot_eq_comm : (r s : Slot) → slot_eq r s ≡ slot_eq s r
slot_eq_comm (near i) (near j) = ground arith
slot_eq_comm (near i) (far k l) = refl
slot_eq_comm (far i j) (near k) = refl
slot_eq_comm (far i j) (far k l) = ground arith

-- A list is moved: what stands in each list, where a queue stood at p and belongs at p'.
moved_home :
    (r s p p' : Slot) (xs : List Node)
    → (slot_eq r p ≡ false → p' ≡ p)
    → (if slot_eq r s then [] else (if slot_eq p s then xs else []))
        ++ (if slot_eq p' s then (if slot_eq p r then xs else []) else [])
      ≡ (if slot_eq p' s then xs else [])
moved_home r s p p' xs h = elim (slot_or r p) [
  | inl q ↦ rw (q, slot_eq_self p) (moved_own (slot_eq p s) (slot_eq p' s) xs)
  | inr f ↦
      rw (h f, slot_eq_comm p r, f)
        (moved_other (slot_eq r s) (slot_eq p s) xs
          (λ q. subst (λ x. slot_eq p x ≡ false) (slot_eq-≡ r s q) (slot_eq_comm p r ∙ f)))
]

-- The wheel with the new time, before the list is moved
at_time : Wheel → ℕ → Wheel
at_time t c = record t { time = c }

-- Where the place of a queue changes, its list is the one that moves.
pub record IsReady (t : Wheel) (c : ℕ) (m : Option Slot) : Type 0 where
  pub keeps :
      (e : ℕ)
      → (pending t e ≡ [])
        ⊎ ((e < u32 × IsAhead e c) × (m ≢ some (place e t.time) → place e c ≡ place e t.time))

pub nil_if : (b : Bool) (xs : List Node) → xs ≡ [] → [] ≡ (if b then xs else [])
nil_if true xs q = sym q
nil_if false xs q = refl

some-≢ : (r s : Slot) → slot_eq r s ≡ false → some r ≢ some s
some-≢ r s f q = cc (f, q, slot_eq_self r)

moved_nil :
    (a b c d : Bool) (xs : List Node)
    → xs ≡ []
    → (if a then [] else (if b then xs else [])) ++ (if c then (if d then xs else []) else [])
      ≡ (if c then xs else [])
moved_nil a b c d xs q = ground (arith, q)

move_list-queue :
    (t : Wheel) (c e : ℕ) (r s : Slot)
    → IsPlaced t
    → at e ((move_list (at_time t c) r).slots s)
      ≡ (if slot_eq r s then [] else (if slot_eq (place e t.time) s then pending t e else []))
        ++ (if slot_eq (place e c) s
            then (if slot_eq (place e t.time) r then pending t e else [])
            else [])
unfolding at_time
move_list-queue t c e r s w =
    at-move_list (at_time t c) r e s
    ∙ ap₂ (λ xs ys. (if slot_eq r s then [] else xs) ++ (if slot_eq (place e c) s then ys else []))
        (w.home e s) (w.home e r)

move_slot-pending :
    (t : Wheel) (c : ℕ) (m : Option Slot)
    → IsPlaced t
    → IsReady t c m
    → (e : ℕ) (s : Slot)
    → at e ((move_slot (at_time t c) m).slots s)
      ≡ (if slot_eq (place e c) s then pending t e else [])
unfolding move_slot at_time
move_slot-pending t c none w k e s = w.home e s ∙ elim (k.keeps e) [
  | inl q ↦
      sym (nil_if (slot_eq (place e t.time) s) (pending t e) q)
      ∙ nil_if (slot_eq (place e c) s) (pending t e) q
  | inr (_, h) ↦ ap (λ p. if slot_eq p s then pending t e else []) (sym (h (λ x. cc)))
]
move_slot-pending t c (some r) w k e s = move_list-queue t c e r s w ∙ elim (k.keeps e) [
  | inl q ↦
      moved_nil (slot_eq r s) (slot_eq (place e t.time) s) (slot_eq (place e c) s)
        (slot_eq (place e t.time) r) (pending t e) q
  | inr (_, h) ↦
      moved_home r s (place e t.time) (place e c) (pending t e)
        (λ f. h (some-≢ r (place e t.time) f))
]

time-move_slot : (t : Wheel) (m : Option Slot) → (move_slot t m).time ≡ t.time
unfolding move_slot
time-move_slot t none = refl
time-move_slot t (some r) = time-move_list t r

-- The move leaves the queues as they are, and every node at its place.
pub record Moved (t t' : Wheel) (c : ℕ) : Type 0 where
  pub time_eq : t'.time ≡ c
  pub same : (e : ℕ) → pending t' e ≡ pending t e
  pub placed : IsPlaced t'

module _ (t : Wheel) (c : ℕ) (m : Option Slot) (w : IsPlaced t) (k : IsReady t c m) where
  move_slot-same : (e : ℕ) → pending (move_slot (at_time t c) m) e ≡ pending t e
  unfolding pending at_time
  move_slot-same e =
      ap (λ x. at e ((move_slot (at_time t c) m).slots (place e x)))
        (time-move_slot (at_time t c) m)
      ∙ move_slot-pending t c m w k e (place e c)
      ∙ ap (λ b. if b then pending t e else []) (slot_eq_self (place e c))

  move_slot-Moved : c < u32 → Moved t (move_slot (at_time t c) m) c
  unfolding at_time
  move_slot-Moved l = record {
    time_eq = time;
    same = move_slot-same;
    placed = record {
      time_bound = subst (λ x. x < u32) (sym time) l;
      home = λ e s.
          move_slot-pending t c m w k e s
          ∙ ap₂ (λ x xs. if slot_eq (place e x) s then xs else []) (sym time)
              (sym (move_slot-same e));
      ahead = λ e. elim (k.keeps e) [
        | inl q ↦ inl (move_slot-same e ∙ q)
        | inr ((b, a), _) ↦ inr (b, subst (IsAhead e) (sym time) a)
      ];
    };
  }
    where
      time : (move_slot (at_time t c) m).time ≡ c
      time = time-move_slot (at_time t c) m

timer_shift-IsReady :
    (t : Wheel)
    → IsPlaced t
    → pending t t.time ≡ []
    → IsReady t (next_time t.time) (moved_slot (next_time t.time))
timer_shift-IsReady t w h = record {
  keeps = λ e. elim (w.ahead e) [
    | inl q ↦ inl q
    | inr (l, a) ↦ elim (eq_or e t.time) [
      | inl q ↦ inl (ap (pending t) q ∙ h)
      | inr ne ↦ inr (
        (l, next_time-IsAhead e t.time l w.time_bound ne a),
        place-next_time e t.time l w.time_bound ne a,
      )
    ]
  ];
}

pub timer_shift-Moved :
    (t : Wheel) → IsPlaced t → pending t t.time ≡ [] → Moved t (timer_shift t) (next_time t.time)
unfolding timer_shift at_time
timer_shift-Moved t w h =
    move_slot-Moved t (next_time t.time) (moved_slot (next_time t.time)) w
      (timer_shift-IsReady t w h) (omega arith)
