-- ===== src/Config/Examples.antt =====
-- Small files, and what is read of them.
use game_server.Prelude.{ℕ, ◌-◌, ◌≡◌, refl, true, false, List, [], ◌∷◌, Option, some, none}
use game_server.Config
use game_server.Config.{
  LineScanner, Conf, new_conf, is_space, to_lower, make_key, split_at, skip_spaces, rstrip,
  till_end, consume_till_end, parse, get, get_boolean,
}
use game_server.Config.Lines.{first_line}
use game_server.Config.Parsed.{Line, section, entry, assigned}

-- A file as the bytes that are left
unfoldable fgets_list : ℕ → List ℕ → Option (List ℕ × List ℕ)
fgets_list n [] = none
fgets_list n (c ∷ cs) = some (first_line (n - 1) (c ∷ cs))

-- Of `two words` only the first is read.
first_word :
    (consume_till_end (record { p = 97 ∷ 98 ∷ 32 ∷ 99 ∷ 10 ∷ []; err = false })).0 ≡ 97 ∷ 98 ∷ []
unfolding consume_till_end skip_spaces split_at is_space till_end rstrip
first_word = refl

-- A file that exists and cannot be opened is no error.
unopened : Config.init fgets_list 1 true none new_conf ≡ some (true, new_conf)
unfolding Config.init parse
unopened = refl

-- `[Net]`, `port=80`, `Port=81`
abbrev file : List Line
file =
    section (78 ∷ 101 ∷ 116 ∷ [])
    ∷ entry 112 (111 ∷ 114 ∷ 116 ∷ []) (56 ∷ 48 ∷ [])
    ∷ entry 80 (111 ∷ 114 ∷ 116 ∷ []) (56 ∷ 49 ∷ [])
    ∷ []

-- In `nEt`, `PORT` has the values 80 and 81.
both_assigned :
    assigned (make_key (110 ∷ 69 ∷ 84 ∷ []) (80 ∷ 79 ∷ 82 ∷ 84 ∷ [])) [] file
    ≡ (56 ∷ 48 ∷ []) ∷ (56 ∷ 49 ∷ []) ∷ []
unfolding make_key to_lower
both_assigned = refl

-- `ON` is true, and a number other than 0 and 1 is neither.
abbrev switched : Conf
switched = record new_conf { values = λ k. (79 ∷ 78 ∷ []) ∷ [] }

booleans :
    get_boolean switched [] [] false
      ∷ get_boolean (record switched { values = λ k. (50 ∷ []) ∷ [] }) [] [] false
      ∷ []
    ≡ true ∷ false ∷ []
unfolding get_boolean get to_lower make_key
booleans = refl
