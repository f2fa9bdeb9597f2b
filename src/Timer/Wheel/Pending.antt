-- ===== src/Timer/Wheel/Pending.antt =====
-- common/timer.cpp: what a wheel means. For each time it has a queue of nodes; the lists that they stand
-- in follow from the time that it is.
use game_server.Prelude.{
  ℕ, ◌∙◌, ap, sym, subst, ◌≢◌, ◌<◌, ◌⊎◌, inl, inr, ◌≡◌, refl, List, [], ◌∷◌, ◌++◌, append-nil, Bool,
  true, false, if◌then◌else◌, arith,
}
use game_server.Timer.Wheel.{
  Node, Slot, slot_eq, Wheel, place, link, add_node, u32, timer_create_timer,
}
use game_server.Timer.Wheel.Place.{IsAhead}
use game_server.Timer.Wheel.Moves.{at, eq_or, slot_eq_self, at-add_node, if_nil}

-- The nodes that expire at e, first one first.
unfoldable pub pending : Wheel → ℕ → List Node
pending t e = at e (t.slots (place e t.time))

-- Each node stands in the list of its place, and none is overdue.
pub record IsPlaced (t : Wheel) : Type 0 where
  pub time_bound : t.time < u32
  pub home :
      (e : ℕ) (s : Slot)
      → at e (t.slots s) ≡ (if slot_eq (place e t.time) s then pending t e else [])
  pub ahead : (e : ℕ) → (pending t e ≡ []) ⊎ (e < u32 × IsAhead e t.time)

pub timer_create_timer-IsPlaced : IsPlaced timer_create_timer
unfolding pending at
timer_create_timer-IsPlaced = record {
  time_bound = omega arith;
  home = λ e s. sym (if_nil (slot_eq (place e 0) s) e);
  ahead = λ e. inl refl;
}

-- A node that is added stands behind those of its time.
pub pending-add_node :
    (t : Wheel) (n : Node) (e : ℕ) → pending (add_node t n) e ≡ pending t e ++ at e (n ∷ [])
unfolding pending add_node link
pending-add_node t n e =
    at-add_node t n e (place e t.time)
    ∙ ap (λ b. pending t e ++ (if b then at e (n ∷ []) else [])) (slot_eq_self (place e t.time))

if_append :
    (b : Bool) (xs ys : List Node) (e : ℕ)
    → (if b then xs else []) ++ (if b then ys else []) ≡ (if b then xs ++ ys else [])
if_append true xs ys e = refl
if_append false xs ys e = refl

pub at_other : (n : Node) (e : ℕ) → n.expire ≢ e → at e (n ∷ []) ≡ []
unfolding at
at_other n e h = ground arith

pub add_node-IsPlaced :
    (t : Wheel) (n : Node)
    → n.expire < u32
    → IsAhead n.expire t.time
    → IsPlaced t
    → IsPlaced (add_node t n)
unfolding add_node link
add_node-IsPlaced t n l a w = record {
  time_bound = w.time_bound;
  home = λ e s.
      at-add_node t n e s
      ∙ ap (λ xs. xs ++ (if slot_eq (place e t.time) s then at e (n ∷ []) else [])) (w.home e s)
      ∙ if_append (slot_eq (place e t.time) s) (pending t e) (at e (n ∷ [])) e
      ∙ ap (λ xs. if slot_eq (place e t.time) s then xs else []) (sym (pending-add_node t n e));
  ahead = λ e. elim (eq_or n.expire e) [
    | inl q ↦ inr (subst (λ x. x < u32 × IsAhead x t.time) q (l, a))
    | inr ne ↦
        subst (λ xs. (xs ≡ []) ⊎ (e < u32 × IsAhead e t.time))
          (sym (
            pending-add_node t n e
            ∙ ap (pending t e ++◌) (at_other n e ne)
            ∙ append-nil (pending t e)))
          (w.ahead e)
  ];
}
