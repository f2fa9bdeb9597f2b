-- ===== src/Config/Lines.antt =====
-- common/conf/config.cpp, `GameConf::parse`: the lines that `fgets` of the C library reads.
use game_server.Prelude.{
  ℕ, zero, suc, ◌-◌, ◌<◌, ◌≡◌, ◌≢◌, refl, List, [], ◌∷◌, ◌++◌, length, Option, none, some, Bool,
  true, false, not, ◌==◌, if◌then◌else◌, arith,
}
use game_server.Config.{is_space}
use game_server.Config.Scanned.{all, is_plain, and-left, and-right, not-true, plain_facts}

-- The first bytes, at most so many and up to the first newline with it, and the others.
unfoldable pub first_line : ℕ → List ℕ → List ℕ × List ℕ
first_line zero bytes = ([], bytes)
first_line (suc k) [] = ([], [])
first_line (suc k) (c ∷ cs) =
    let (line, rest) = first_line k cs in if c == 10 then (c ∷ [], cs) else (c ∷ line, rest)

-- What the C library documents of `fgets`, for a file that can be read: NULL at the end, and else up to
-- n - 1 bytes, where it stops behind a newline.
pub record IsFgets {E : Type 0} (fgets : ℕ → E → Option (List ℕ × E)) (input : E → List ℕ)
    : Type 0 where
  pub at_end : (n : ℕ) (e : E) → input e ≡ [] → fgets n e ≡ none
  pub reads :
      (n : ℕ) (e : E)
      → input e ≢ []
      → 1 < n
      → (e' : E) × (fgets n e ≡ some ((first_line (n - 1) (input e)).0, e'))
        × (input e' ≡ (first_line (n - 1) (input e)).1)

-- Whether there is no newline in the bytes.
abbrev pub is_one_line : List ℕ → Bool
is_one_line = all (λ c. not (c == 10))

no_newline : (c : ℕ) → is_space c ≡ false → (c == 10) ≡ false
unfolding is_space
no_newline c space = ground arith

pub one_line : (word : List ℕ) → all is_plain word ≡ true → is_one_line word ≡ true
one_line [] h = refl
one_line (c ∷ word) h =
    let (space, _, _, _) = plain_facts c (and-left (is_plain c) (all is_plain word) h) in
    let here : (c == 10) ≡ false = no_newline c space in
    rw here (one_line word (and-right (is_plain c) (all is_plain word) h))

pub is_one_line-append :
    (word more : List ℕ)
    → is_one_line word ≡ true
    → is_one_line more ≡ true
    → is_one_line (word ++ more) ≡ true
is_one_line-append [] more h g = g
is_one_line-append (c ∷ word) more h g =
    rw (and-left (not (c == 10)) (is_one_line word) h)
      (is_one_line-append word more (and-right (not (c == 10)) (is_one_line word) h) g)

-- A line that is not too long is read with its newline.
pub first_line-newline :
    (k : ℕ) (word rest : List ℕ)
    → is_one_line word ≡ true
    → length word < k
    → first_line k (word ++ 10 ∷ rest) ≡ (word ++ 10 ∷ [], rest)
unfolding first_line
first_line-newline zero word rest h fits = absurd (omega (arith, fits))
first_line-newline (suc k) [] rest h fits = refl
first_line-newline (suc k) (c ∷ word) rest h fits =
    let here = not-true (c == 10) (and-left (not (c == 10)) (is_one_line word) h) in
    rw
      (
        here,
        first_line-newline k word rest (and-right (not (c == 10)) (is_one_line word) h)
            (omega (arith, fits)),
      )
      refl
