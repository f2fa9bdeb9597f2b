-- ===== src/Timer/Wheel/Fires.antt =====
-- common/timer.cpp: what `timer_execute` dispatches, and what it leaves in the wheel's lists.
use game_server.Prelude.{
  ℕ, ◌∙◌, ap, sym, subst, ◌≢◌, ◌<◌, ◌⊎◌, inl, inr, ◌≡◌, refl, ◌%◌, List, [], ◌∷◌, Bool, Bool-cases,
  true, false, ◌==◌, if◌then◌else◌, arith,
}
use game_server.Timer.Wheel.{
  Node, Slot, near, slot_eq, Wheel, place, link_clear, timer_execute, u32,
}
use game_server.Timer.Wheel.Place.{IsAhead, place-eq_near, place_self}
use game_server.Timer.Wheel.Moves.{at, eq_or, slot_eq-≡, slot_eq_self, at-link_clear}
use game_server.Timer.Wheel.Pending.{pending, IsPlaced}
use game_server.Timer.Wheel.Shift.{slot_or, nil_if}

at-cons_eq : (e : ℕ) (n : Node) (ns : List Node) → n.expire ≡ e → at e (n ∷ ns) ≡ n ∷ at e ns
unfolding at
at-cons_eq e n ns q = ground arith

at-cons_ne : (e : ℕ) (n : Node) (ns : List Node) → n.expire ≢ e → at e (n ∷ ns) ≡ at e ns
unfolding at
at-cons_ne e n ns ne = ground arith

cons_nil : (n : Node) (ns : List Node) → (n ∷ ns) ≢ []
cons_nil n ns q = cc

at-nil : (e : ℕ) → at e [] ≡ []
unfolding at
at-nil e = refl

at_all : (c : ℕ) (ns : List Node) → ((e : ℕ) → e ≢ c → at e ns ≡ []) → at c ns ≡ ns
at_all c [] h = at-nil c
at_all c (n ∷ ns) h = elim (eq_or n.expire c) [
  | inl q ↦
      at-cons_eq c n ns q
      ∙ ap (n ∷◌) (at_all c ns (λ e ne. sym (at-cons_ne e n ns (λ r. ne (sym r ∙ q))) ∙ h e ne))
  | inr ne ↦
      absurd (cons_nil n (at n.expire ns) (sym (at-cons_eq n.expire n ns refl) ∙ h n.expire ne))
]

-- The list of the time holds the nodes of the time only.
near_at :
    (t : Wheel) → IsPlaced t → (e : ℕ) → e ≢ t.time → at e (t.slots (near (t.time % 256))) ≡ []
near_at t w e ne = w.home e (near (t.time % 256)) ∙ elim (w.ahead e) [
  | inl q ↦ sym (nil_if (slot_eq (place e t.time) (near (t.time % 256))) (pending t e) q)
  | inr (l, _) ↦ elim (Bool-cases (slot_eq (place e t.time) (near (t.time % 256)))) [
    | inl q ↦ absurd (
        ne (
          place-eq_near e t.time l w.time_bound
            (slot_eq-≡ (place e t.time) (near (t.time % 256)) q)))
    | inr f ↦ rw f refl
  ]
]

if_clear :
    (r s p : Slot) (xs : List Node)
    → (if slot_eq r s then [] else (if slot_eq p s then xs else []))
      ≡ (if slot_eq p s then (if slot_eq r p then [] else xs) else [])
if_clear r s p xs = elim (slot_or p s) [
  | inl q ↦ rw (q, slot_eq_self s) refl
  | inr f ↦ rw f (sym (nil_if (slot_eq r s) [] refl))
]

pub if_eq : (m n : ℕ) (xs : List Node) → m ≡ n → (if m == n then [] else xs) ≡ []
if_eq m n xs q = ground arith

pub if_ne : (m n : ℕ) (xs : List Node) → m ≢ n → (if m == n then [] else xs) ≡ xs
if_ne m n xs ne = ground arith

empty_or {ℓ} :
    {P : Type ℓ} (b : Bool) (xs : List Node) → ((xs ≡ []) ⊎ P) → ((if b then [] else xs) ≡ []) ⊎ P
empty_or true xs h = inl refl
empty_or false xs h = h

-- The queue of the time is dispatched; the other ones stay.
pub record Dispatched (t : Wheel) (result : List Node × Wheel) : Type 0 where
  pub fired : result.0 ≡ pending t t.time
  pub time_eq : result.1.time ≡ t.time
  pub left : (e : ℕ) → pending result.1 e ≡ (if e == t.time then [] else pending t e)
  pub placed : IsPlaced result.1

module _ (t : Wheel) (w : IsPlaced t) where
  abbrev now : Slot
  now = near (t.time % 256)

  cleared :
      (e : ℕ)
      → pending (link_clear t now) e ≡ (if slot_eq now (place e t.time) then [] else pending t e)
  unfolding pending link_clear
  cleared e = at-link_clear t now e (place e t.time)

  none_now :
      (e : ℕ)
      → e ≢ t.time
      → (b : Bool) → slot_eq now (place e t.time) ≡ b
      → (if b then [] else pending t e) ≡ pending t e
  unfolding pending
  none_now e ne true q =
      sym (ap (λ s. at e (t.slots s)) (sym (slot_eq-≡ now (place e t.time) q)) ∙ near_at t w e ne)
  none_now e ne false q = refl

  cleared-left : (e : ℕ) → pending (link_clear t now) e ≡ (if e == t.time then [] else pending t e)
  cleared-left e = cleared e ∙ elim (eq_or e t.time) [
    | inl q ↦
        ap (λ x. if slot_eq now (place x t.time) then [] else pending t e) q
        ∙ rw (place_self t.time, slot_eq_self (near (t.time % 256)))
            (sym (if_eq e t.time (pending t e) q))
    | inr ne ↦
        none_now e ne (slot_eq now (place e t.time)) refl ∙ sym (if_ne e t.time (pending t e) ne)
  ]

  cleared-IsPlaced : IsPlaced (link_clear t now)
  unfolding link_clear
  cleared-IsPlaced = record {
    time_bound = w.time_bound;
    home = λ e s.
        at-link_clear t now e s
        ∙ ap (λ xs. if slot_eq now s then [] else xs) (w.home e s)
        ∙ if_clear now s (place e t.time) (pending t e)
        ∙ ap (λ xs. if slot_eq (place e t.time) s then xs else []) (sym (cleared e));
    ahead = λ e.
        subst (λ xs. (xs ≡ []) ⊎ (e < u32 × IsAhead e t.time)) (sym (cleared-left e))
          (empty_or (e == t.time) (pending t e) (w.ahead e));
  }

  pub timer_execute-Dispatched : Dispatched t (timer_execute t)
  unfolding timer_execute link_clear pending
  timer_execute-Dispatched = record {
    fired = sym (
        ap (λ s. at t.time (t.slots s)) (place_self t.time)
        ∙ at_all t.time (t.slots now) (near_at t w));
    time_eq = refl;
    left = cleared-left;
    placed = cleared-IsPlaced;
  }
