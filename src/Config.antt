-- ===== src/Config.antt =====
-- common/conf/config.cpp: the parser of the configuration file and the look-ups. `fgets` is a parameter: of
-- the size of the buffer and a file it gives NULL or a line, and the file behind it. A line is the
-- bytes in front of the zero byte that `fgets` writes, and may have zero bytes in it, at which the
-- scanner stops. All bytes are below 128, as `isspace` and `tolower` want.
pub mod Scanned
pub mod Lines
pub mod Parsed
pub mod Returns
mod Examples
use game_server.Prelude.{
  ℕ, zero, suc, ◌+◌, ◌*◌, List, [], ◌∷◌, ◌++◌, map, drop, Option, none, some, ◌>>=◌, Bool, true,
  false, ◌&&◌, ◌||◌, not, leb, ◌==◌, if◌then◌else◌,
}
use game_server.Prelude.Int.{ℤ, pos, negsuc}

-- `isspace` and `tolower` of the C locale
unfoldable pub is_space : ℕ → Bool
is_space c = (leb 9 c && leb c 13) || (c == 32)

unfoldable pub to_lower : ℕ → ℕ
to_lower c = if leb 65 c && leb c 90 then c + 32 else c

-- `makeKey`
unfoldable pub make_key : List ℕ → List ℕ → List ℕ
make_key section name = map to_lower (section ++ 46 ∷ name)

-- `LineScanner`: the bytes from p on, and the flag.
pub record LineScanner : Type 0 where
  pub p : List ℕ
  pub err : Bool

-- `*p`: behind the line stands a zero byte.
abbrev pub current_char : List ℕ → ℕ
current_char [] = 0
current_char (c ∷ cs) = c

-- The bytes before the first one that is zero or has the test, and the bytes from it on.
unfoldable pub split_at : (ℕ → Bool) → List ℕ → List ℕ × List ℕ
split_at test [] = ([], [])
split_at test (c ∷ cs) =
    let (a, b) = split_at test cs in if test c || (c == 0) then ([], c ∷ cs) else (c ∷ a, b)

-- `skipSpaces`
unfoldable pub skip_spaces : LineScanner → LineScanner
skip_spaces s = if s.err then s else record s { p = (split_at (λ c. not (is_space c)) s.p).1 }

-- `rstrip`
unfoldable pub rstrip : List ℕ → List ℕ
rstrip [] = []
rstrip (c ∷ cs) = kept c (rstrip cs)
  where
    kept : ℕ → List ℕ → List ℕ
    kept c [] = if is_space c then [] else c ∷ []
    kept c (d ∷ ds) = c ∷ d ∷ ds

-- `peekChar`
unfoldable pub peek_char : LineScanner → ℕ × LineScanner
peek_char s = let s' = skip_spaces s in (current_char s'.p, s')

-- `skip`
unfoldable pub skip_chars : ℕ → LineScanner → LineScanner
skip_chars n s = record s { p = drop n s.p }

-- `match`
unfoldable pub match_char : ℕ → LineScanner → LineScanner
match_char c s =
    let s' = skip_spaces s in record { p = drop 1 s'.p; err = not (current_char s'.p == c) }

-- `consumeTill`
unfoldable pub consume_till : ℕ → LineScanner → List ℕ × LineScanner
consume_till c s =
    let s' = skip_spaces s in
    let (a, b) = if s'.err then ([], s'.p) else split_at (λ d. d == c) s'.p in
    if current_char b == c then (rstrip a, record s' { p = b }) else ([], record s' { err = true })

-- The loop of `consumeTillEnd`, with `wasspace`.
unfoldable pub till_end : Bool → List ℕ → List ℕ × List ℕ
till_end wasspace [] = ([], [])
till_end wasspace (c ∷ cs) =
    let (a, b) = till_end (is_space c) cs in
    if (c == 0) || ((c == 59) || (c == 35))
    then ([], c ∷ cs)
    else if wasspace
    then ([], c ∷ cs)
    else (c ∷ a, b)

-- `consumeTillEnd`
unfoldable pub consume_till_end : LineScanner → List ℕ × LineScanner
consume_till_end s =
    let s' = skip_spaces s in
    let (a, b) = if s'.err then ([], s'.p) else till_end false s'.p in
    (rstrip a, record s' { p = b })

-- `values_`: the values of a key, of which there are none if it is not in the map.
abbrev pub Values : Type 0
Values = List ℕ → List (List ℕ)

abbrev pub same_bytes : List ℕ → List ℕ → Bool
same_bytes [] [] = true
same_bytes [] (d ∷ ds) = false
same_bytes (c ∷ cs) [] = false
same_bytes (c ∷ cs) (d ∷ ds) = (c == d) && same_bytes cs ds

-- `values_[key].push_back(value)`
unfoldable pub push_back : Values → List ℕ → List ℕ → Values
push_back values key value k = if same_bytes key k then values k ++ value ∷ [] else values k

-- `GameConf` with the variables of `parse`
pub record Conf : Type 0 where
  pub section : List ℕ
  pub key : List ℕ
  pub values : Values

abbrev pub new_conf : Conf
new_conf = record { section = []; key = []; values = λ k. [] }

-- A line that starts with `[`
unfoldable pub parse_section : LineScanner → Conf → Bool × Conf
parse_section s c =
    let (section, s') = consume_till 93 (skip_chars 1 s) in
    ((match_char 93 s').err, record c { section = section; key = [] })

-- A line with leading whitespace
unfoldable pub parse_continuation : LineScanner → Conf → Bool × Conf
parse_continuation s c = elim c.key [
  | [] ↦ (true, c)
  | ◌∷◌ k ks ↦
      let value = (consume_till 0 s).0 in
      (false, record c { values = push_back c.values (make_key c.section (k ∷ ks)) value })
]

-- `consumeTillEnd` and `push_back` behind a key
unfoldable pub parse_value : List ℕ → LineScanner → Conf → Bool × Conf
parse_value key s c =
    let value = (consume_till_end s).0 in
    (s.err, record c { key = key; values = push_back c.values (make_key c.section key) value })

-- A line with a key, before `=` or else before `:`
unfoldable pub parse_entry : LineScanner → Conf → Bool × Conf
parse_entry lsc c =
    let (key, ls) = consume_till 61 lsc in
    let (next, ls') = peek_char ls in
    let (key', ls'') = consume_till 58 lsc in
    if next == 61
    then parse_value key (skip_chars 1 ls') c
    else parse_value key' (match_char 58 ls'') c

-- The body of the loop of `parse`: whether there is an error, and the variables after it.
unfoldable pub parse_line : List ℕ → Conf → Bool × Conf
parse_line line c =
    let (first, s) = peek_char (record { p = line; err = false }) in
    if (first == 59) || ((first == 35) || (first == 0))
    then (false, c)
    else if first == 91
    then parse_section s c
    else if is_space (current_char line)
    then parse_continuation s c
    else parse_entry s c

-- `MAX_LINE`
abbrev pub max_line : ℕ
max_line = 16 * 1024

-- What follows a line: the next round, or the end with the line's number.
abbrev pub next_line :
    {E : Type 0} → (ℕ → E → Conf → Option (ℕ × Conf)) → ℕ → E → Bool × Conf → Option (ℕ × Conf)
next_line again lineno e (true, c) = some (lineno + 1, c)
next_line again lineno e (false, c) = again (lineno + 1) e c

-- A round of the loop on what `fgets` returns
abbrev pub after_fgets :
    {E : Type 0}
    → (ℕ → E → Conf → Option (ℕ × Conf))
    → ℕ
    → Conf
    → Option (List ℕ × E)
    → Option (ℕ × Conf)
after_fgets again lineno c none = some (0, c)
after_fgets again lineno c (some (line, e)) = next_line again lineno e (parse_line line c)

-- The loop: the number of the line with an error, or 0. `none` is a loop that goes on.
unfoldable pub parse_lines :
    {E : Type 0} → (ℕ → E → Option (List ℕ × E)) → ℕ → ℕ → E → Conf → Option (ℕ × Conf)
parse_lines fgets zero lineno e c = none
parse_lines fgets (suc fuel) lineno e c =
    after_fgets (parse_lines fgets fuel) lineno c (fgets max_line e)

-- `parse`, of a file that cannot be opened or of one that can
unfoldable pub parse :
    {E : Type 0} → (ℕ → E → Option (List ℕ × E)) → ℕ → Option E → Conf → Option (ℤ × Conf)
parse fgets fuel none c = some (negsuc 0, c)
parse fgets fuel (some e) c = parse_lines fgets fuel 0 e c >>= λ (error, c'). some (pos error, c')

-- `if(iError > 0)`
abbrev succeeded : ℤ × Conf → Bool × Conf
succeeded (pos zero, c) = (true, c)
succeeded (pos (suc n), c) = (false, c)
succeeded (negsuc n, c) = (true, c)

-- `Init`, of a file that exists or not
unfoldable pub init :
    {E : Type 0} → (ℕ → E → Option (List ℕ × E)) → ℕ → Bool → Option E → Conf → Option (Bool × Conf)
init fgets fuel false file c = some (false, c)
init fgets fuel true file c = parse fgets fuel file c >>= λ r. some (succeeded r)

-- `getStrings` and `get`
unfoldable pub get_strings : Conf → List ℕ → List ℕ → List (List ℕ)
get_strings c section name = c.values (make_key section name)

abbrev pub last_or : List ℕ → List (List ℕ) → List ℕ
last_or d [] = d
last_or d (v ∷ vs) = last_or v vs

unfoldable pub get : Conf → List ℕ → List ℕ → List ℕ → List ℕ
get c section name default_value = last_or default_value (c.values (make_key section name))

-- A word of `getBoolean`, as bytes
abbrev is_one_of : List ℕ → List (List ℕ) → Bool
is_one_of value [] = false
is_one_of value (w ∷ ws) = same_bytes value w || is_one_of value ws

-- `true`, `yes`, `on` and `1`; `false`, `no`, `off` and `0`
abbrev true_words : List (List ℕ)
true_words =
    (116 ∷ 114 ∷ 117 ∷ 101 ∷ []) ∷ (121 ∷ 101 ∷ 115 ∷ []) ∷ (111 ∷ 110 ∷ []) ∷ (49 ∷ []) ∷ []

abbrev false_words : List (List ℕ)
false_words =
    (102 ∷ 97 ∷ 108 ∷ 115 ∷ 101 ∷ []) ∷ (110 ∷ 111 ∷ []) ∷ (111 ∷ 102 ∷ 102 ∷ []) ∷ (48 ∷ []) ∷ []

-- `getBoolean`
unfoldable pub get_boolean : Conf → List ℕ → List ℕ → Bool → Bool
get_boolean c section name default_value =
    let value = map to_lower (get c section name []) in
    if is_one_of value true_words
    then true
    else if is_one_of value false_words
    then false
    else default_value
