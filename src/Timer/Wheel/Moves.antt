-- ===== src/Timer/Wheel/Moves.antt =====
-- common/timer.cpp: the nodes of one time in each list, under `link`, `add_node` and `move_list`.
use game_server.Prelude.{
  ℕ, ◌∙◌, ap, sym, ◌≢◌, ◌⊎◌, inl, inr, ◌≡◌, refl, List, [], ◌∷◌, ◌++◌, append-nil, append_assoc,
  Bool, true, false, ◌==◌, if◌then◌else◌, arith,
}
use game_server.Timer.Wheel.{
  Node, Slot, near, far, slot_eq, Wheel, place, link, add_node, add_nodes, link_clear, move_list,
}

pub eq_or : (m n : ℕ) → (m ≡ n) ⊎ (m ≢ n)
eq_or m n = ground arith

-- The nodes of a list that expire at the time e, in order.
unfoldable pub at : ℕ → List Node → List Node
at e [] = []
at e (n ∷ ns) = let rest = at e ns in if n.expire == e then n ∷ rest else rest

pub at-append : (e : ℕ) (xs ys : List Node) → at e (xs ++ ys) ≡ at e xs ++ at e ys
unfolding at
at-append e [] ys = refl
at-append e (x ∷ xs) ys = ground (arith, at-append e xs ys)

at_if :
    (e : ℕ) (b : Bool) (xs ys : List Node)
    → at e (if b then xs ++ ys else xs) ≡ at e xs ++ (if b then at e ys else [])
at_if e true xs ys = at-append e xs ys
at_if e false xs ys = sym (append-nil (at e xs))

same_time :
    (e c : ℕ) (n : Node) (s : Slot)
    → (if slot_eq (place n.expire c) s then at e (n ∷ []) else [])
      ≡ (if slot_eq (place e c) s then at e (n ∷ []) else [])
unfolding at
same_time e c n s = elim (eq_or n.expire e) [
  | inl q ↦ ap (λ x. if slot_eq (place x c) s then at e (n ∷ []) else []) q
  | inr ne ↦ ground arith
]

pub at-add_node :
    (t : Wheel) (n : Node) (e : ℕ) (s : Slot)
    → at e ((add_node t n).slots s)
      ≡ at e (t.slots s) ++ (if slot_eq (place e t.time) s then at e (n ∷ []) else [])
unfolding add_node link
at-add_node t n e s =
    at_if e (slot_eq (place n.expire t.time) s) (t.slots s) (n ∷ [])
    ∙ ap (at e (t.slots s) ++◌) (same_time e t.time n s)

pub time-add_nodes : (t : Wheel) (ns : List Node) → (add_nodes t ns).time ≡ t.time
unfolding add_nodes add_node link
time-add_nodes t [] = refl
time-add_nodes t (n ∷ ns) = time-add_nodes (add_node t n) ns

pub slot_eq-≡ : (r s : Slot) → slot_eq r s ≡ true → r ≡ s
slot_eq-≡ (near i) (near j) h = ground arith
slot_eq-≡ (near i) (far k l) h = ground arith
slot_eq-≡ (far i j) (near k) h = ground arith
slot_eq-≡ (far i j) (far k l) h = ground arith

pub slot_eq_self : (s : Slot) → slot_eq s s ≡ true
slot_eq_self (near i) = ground arith
slot_eq_self (far i j) = ground arith

pub if_nil : (b : Bool) (e : ℕ) → (if b then at e [] else []) ≡ []
unfolding at
if_nil true e = refl
if_nil false e = refl

append_if :
    (b : Bool) (xs ys zs : List Node)
    → (xs ++ (if b then ys else [])) ++ (if b then zs else []) ≡ xs ++ (if b then ys ++ zs else [])
append_if true xs ys zs = append_assoc xs ys zs
append_if false xs ys zs = append-nil (xs ++ [])

pub at-add_nodes :
    (t : Wheel) (ns : List Node) (e : ℕ) (s : Slot)
    → at e ((add_nodes t ns).slots s)
      ≡ at e (t.slots s) ++ (if slot_eq (place e t.time) s then at e ns else [])
unfolding add_nodes at add_node
at-add_nodes t [] e s =
    sym (append-nil (at e (t.slots s)))
    ∙ ap (at e (t.slots s) ++◌) (sym (if_nil (slot_eq (place e t.time) s) e))
at-add_nodes t (n ∷ ns) e s =
    at-add_nodes (add_node t n) ns e s
    ∙ ap (λ xs. xs ++ (if slot_eq (place e t.time) s then at e ns else [])) (at-add_node t n e s)
    ∙ append_if (slot_eq (place e t.time) s) (at e (t.slots s)) (at e (n ∷ [])) (at e ns)
    ∙ ap (λ xs. at e (t.slots s) ++ (if slot_eq (place e t.time) s then xs else []))
        (sym (at-append e (n ∷ []) ns))

pub time-move_list : (t : Wheel) (r : Slot) → (move_list t r).time ≡ t.time
unfolding move_list link_clear
time-move_list t r = time-add_nodes (link_clear t r) (t.slots r)

at_if_clear :
    (e : ℕ) (b : Bool) (xs : List Node) → at e (if b then [] else xs) ≡ (if b then [] else at e xs)
unfolding at
at_if_clear e true xs = refl
at_if_clear e false xs = refl

pub at-link_clear :
    (t : Wheel) (r : Slot) (e : ℕ) (s : Slot)
    → at e ((link_clear t r).slots s) ≡ (if slot_eq r s then [] else at e (t.slots s))
unfolding link_clear
at-link_clear t r e s = at_if_clear e (slot_eq r s) (t.slots s)

pub at-move_list :
    (t : Wheel) (r : Slot) (e : ℕ) (s : Slot)
    → at e ((move_list t r).slots s)
      ≡ (if slot_eq r s then [] else at e (t.slots s))
        ++ (if slot_eq (place e t.time) s then at e (t.slots r) else [])
unfolding move_list link_clear
at-move_list t r e s =
    at-add_nodes (link_clear t r) (t.slots r) e s
    ∙ ap (λ xs. xs ++ (if slot_eq (place e t.time) s then at e (t.slots r) else []))
        (at-link_clear t r e s)
