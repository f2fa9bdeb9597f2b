-- ===== src/Config/Scanned.antt =====
-- common/conf/config.cpp, `LineScanner`: what its functions read of a word.
use game_server.Prelude.{
  ℕ, ◌≡◌, refl, ap, ◌∙◌, List, [], ◌∷◌, ◌++◌, Bool, true, false, ◌&&◌, not, ◌==◌, if◌then◌else◌,
  arith,
}
use game_server.Config.{
  is_space, current_char, split_at, skip_spaces, rstrip, consume_till, till_end, consume_till_end,
}

abbrev pub all : (ℕ → Bool) → List ℕ → Bool
all test [] = true
all test (c ∷ cs) = test c && all test cs

-- No space, no start of a comment and no zero byte
abbrev pub is_plain : ℕ → Bool
is_plain c = not (is_space c) && (not (c == 59) && (not (c == 35) && not (c == 0)))

-- A plain byte that is not d
abbrev pub is_plain_but : ℕ → ℕ → Bool
is_plain_but d c = is_plain c && not (c == d)

pub and-left : (a b : Bool) → a && b ≡ true → a ≡ true
and-left true b h = refl
and-left false b h = absurd (cc)

pub and-right : (a b : Bool) → a && b ≡ true → b ≡ true
and-right true b h = h
and-right false b h = absurd (cc)

pub not-true : (b : Bool) → not b ≡ true → b ≡ false
not-true true h = absurd (cc)
not-true false h = refl

pub plain_facts :
    (c : ℕ)
    → is_plain c ≡ true
    → (is_space c ≡ false) × ((c == 59) ≡ false) × ((c == 35) ≡ false) × ((c == 0) ≡ false)
plain_facts c h =
    let no_hash = not (c == 35) && not (c == 0) in
    let no_comment = not (c == 59) && no_hash in
    let rest = and-right (not (is_space c)) no_comment h in
    let last = and-right (not (c == 59)) no_hash rest in
    (
      not-true (is_space c) (and-left (not (is_space c)) no_comment h),
      not-true (c == 59) (and-left (not (c == 59)) no_hash rest),
      not-true (c == 35) (and-left (not (c == 35)) (not (c == 0)) last),
      not-true (c == 0) (and-right (not (c == 35)) (not (c == 0)) last),
    )

pub split_at-word :
    (d : ℕ) (word rest : List ℕ)
    → all (is_plain_but d) word ≡ true
    → split_at (λ c. c == d) (word ++ d ∷ rest) ≡ (word, d ∷ rest)
unfolding split_at
split_at-word d [] rest h = ground arith
split_at-word d (c ∷ word) rest h =
    rw (split_at-word d word rest (and-right (is_plain_but d c) (all (is_plain_but d) word) h))
      (ground (arith, and-left (is_plain_but d c) (all (is_plain_but d) word) h))

pub rstrip-word : (word : List ℕ) → all is_plain word ≡ true → rstrip word ≡ word
unfolding rstrip
rstrip-word [] h = refl
rstrip-word (c ∷ []) h = ground arith
rstrip-word (c ∷ d ∷ word) h =
    rw (rstrip-word (d ∷ word) (and-right (is_plain c) (all is_plain (d ∷ word)) h)) refl

-- The end of the line is not part of the word.
pub rstrip-line : (word : List ℕ) → all is_plain word ≡ true → rstrip (word ++ 10 ∷ []) ≡ word
unfolding rstrip is_space
rstrip-line [] h = refl
rstrip-line (c ∷ []) h = ground arith
rstrip-line (c ∷ d ∷ word) h =
    rw (rstrip-line (d ∷ word) (and-right (is_plain c) (all is_plain (d ∷ word)) h)) refl

pub till_end-word :
    (word : List ℕ)
    → all is_plain word ≡ true
    → till_end false (word ++ 10 ∷ []) ≡ (word ++ 10 ∷ [], [])
unfolding till_end
till_end-word [] h = refl
till_end-word (c ∷ word) h =
    let (space, semicolon, hash, zero_byte) =
      plain_facts c (and-left (is_plain c) (all is_plain word) h) in
    let ih = till_end-word word (and-right (is_plain c) (all is_plain word) h) in
    rw (zero_byte, semicolon, hash, space, ih) refl

-- Nothing is skipped in front of a byte that is no space.
pub skip_spaces_lem :
    (c : ℕ) (cs : List ℕ)
    → is_space c ≡ false
    → skip_spaces (record { p = c ∷ cs; err = false }) ≡ record { p = c ∷ cs; err = false }
unfolding skip_spaces split_at
skip_spaces_lem c cs h = rw h refl

pub all_plain :
    (d : ℕ) (word : List ℕ) → all (is_plain_but d) word ≡ true → all is_plain word ≡ true
all_plain d [] h = refl
all_plain d (c ∷ word) h =
    let first = and-left (is_plain_but d c) (all (is_plain_but d) word) h in
    rw (and-left (is_plain c) (not (c == d)) first)
      (all_plain d word (and-right (is_plain_but d c) (all (is_plain_but d) word) h))

same : (d : ℕ) → (d == d) ≡ true
same d = ground arith

-- A word is read up to the delimiter behind it.
pub consume_till-word :
    (d : ℕ) (word rest : List ℕ)
    → is_space d ≡ false
    → all (is_plain_but d) word ≡ true
    → consume_till d (record { p = word ++ d ∷ rest; err = false })
      ≡ (word, record { p = d ∷ rest; err = false })
unfolding consume_till
consume_till-word d word rest space h =
    ap
      (λ s'.
        let (a, b) = if s'.err then ([], s'.p) else split_at (λ c. c == d) s'.p in
        if current_char b == d
        then (rstrip a, record s' { p = b })
        else ([], record s' { err = true }))
      (started word h)
    ∙ ap
        (λ (q : List ℕ × List ℕ).
          if current_char q.1 == d
          then (rstrip q.0, record { p = q.1; err = false })
          else ([], record { p = word ++ d ∷ rest; err = true }))
        (split_at-word d word rest h)
    ∙ ap
        (λ b.
          if b
          then (rstrip word, record { p = d ∷ rest; err = false })
          else ([], record { p = word ++ d ∷ rest; err = true }))
        (same d)
    ∙ ap (λ w. (w, record { p = d ∷ rest; err = false })) (rstrip-word word (all_plain d word h))
  where
    started :
        (word : List ℕ)
        → all (is_plain_but d) word ≡ true
        → skip_spaces (record { p = word ++ d ∷ rest; err = false })
          ≡ record { p = word ++ d ∷ rest; err = false }
    started [] h = skip_spaces_lem d rest space
    started (c ∷ word) h =
        skip_spaces_lem c (word ++ d ∷ rest)
          (plain_facts c (
            and-left (is_plain c) (not (c == d))
              (and-left (is_plain_but d c) (all (is_plain_but d) word) h))).0

-- A value is read up to the end of its line.
pub consume_till_end-word :
    (word : List ℕ)
    → all is_plain word ≡ true
    → (consume_till_end (record { p = word ++ 10 ∷ []; err = false })).0 ≡ word
unfolding consume_till_end
consume_till_end-word [] h = unfold skip_spaces split_at is_space till_end rstrip in refl
consume_till_end-word (c ∷ word) h =
    let (space, _, _, _) = plain_facts c (and-left (is_plain c) (all is_plain word) h) in
    rw (skip_spaces_lem c (word ++ 10 ∷ []) space)
      (rw (till_end-word (c ∷ word) h) (rstrip-line (c ∷ word) h))
