-- ===== src/Prelude/Count.antt =====
-- How often a number stands in a list: the view of a list of indices that forgets their order.
use Prim.Native.Nat.{ℕ, zero, suc, ◌+◌, ◌<◌, ◌≤◌}
use mathlib.Core.Path.{◌≡◌, refl}
use mathlib.Core.List.{List, [], ◌∷◌, ◌++◌}
use native.Mathlib.Omega.{arith}
use game_server.Prelude.Tests.{◌==◌, if◌then◌else◌}

-- `range_from i n` is i, i + 1, …, i + n - 1.
abbrev pub range_from : ℕ → ℕ → List ℕ
range_from i zero = []
range_from i (suc n) = i ∷ range_from (i + 1) n

unfoldable pub count : ℕ → List ℕ → ℕ
count i [] = 0
count i (x ∷ xs) = (if x == i then 1 else 0) + count i xs

pub count-append : (i : ℕ) (xs ys : List ℕ) → count i (xs ++ ys) ≡ count i xs + count i ys
unfolding count
count-append i [] ys = omega arith
count-append i (x ∷ xs) ys = ground (arith, count-append i xs ys)

pub count-cons : (i x : ℕ) (xs : List ℕ) → count i (x ∷ xs) ≡ (if x == i then 1 else 0) + count i xs
unfolding count
count-cons i x xs = refl

pub count-cons_self : (i : ℕ) (xs : List ℕ) → count i (i ∷ xs) ≡ suc (count i xs)
unfolding count
count-cons_self i xs = ground arith

pub count-nil : (i : ℕ) → count i [] ≡ 0
unfolding count
count-nil i = refl

pub count-range_below : (i j n : ℕ) → i < j → count i (range_from j n) ≡ 0
unfolding count
count-range_below i j zero h = refl
count-range_below i j (suc n) h = ground (arith, count-range_below i (j + 1) n)

pub count-range_above : (i j n : ℕ) → j + n ≤ i → count i (range_from j n) ≡ 0
unfolding count
count-range_above i j zero h = refl
count-range_above i j (suc n) h = ground (arith, count-range_above i (j + 1) n)

pub count-range : (i j n : ℕ) → j ≤ i → i < j + n → count i (range_from j n) ≡ 1
unfolding count
count-range i j zero h k = absurd (omega arith)
count-range i j (suc n) h k = ground (arith, count-range i (j + 1) n, count-range_below i (j + 1) n)
