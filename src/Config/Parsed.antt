-- ===== src/Config/Parsed.antt =====
-- common/conf/config.cpp, `GameConf::parse`, on a file with lines as a configuration file has them: the
-- names of sections, and words assigned to words.
use game_server.Prelude.{
  ℕ, ltb, length, List, [], ◌∷◌, ◌++◌, Bool, true, ◌&&◌, not, ◌==◌, if◌then◌else◌,
}
use game_server.Config.{Conf, same_bytes, make_key, push_back, max_line}
use game_server.Config.Scanned.{all, is_plain, is_plain_but}

-- What a line says
pub data Line : Type 0 where
  section : List ℕ → Line
  entry : ℕ → List ℕ → List ℕ → Line

-- A line with its end; the name in an entry is not empty.
abbrev pub render : Line → List ℕ
render (section name) = 91 ∷ (name ++ 93 ∷ 10 ∷ [])
render (entry c name value) = c ∷ (name ++ 61 ∷ (value ++ 10 ∷ []))

-- Names without spaces, starts of comments, zero bytes and delimiters, and values without spaces, starts of
-- comments and zero bytes
abbrev pub is_valid : Line → Bool
is_valid (section name) = all (is_plain_but 93) name
is_valid (entry c name value) =
    (all (is_plain_but 61) (c ∷ name) && not (c == 91)) && all is_plain value

-- The lines are valid, and none is longer than the buffer of `parse`.
abbrev pub are_valid : List Line → Bool
are_valid [] = true
are_valid (l ∷ ls) = (is_valid l && ltb (length (render l)) max_line) && are_valid ls

-- The bytes of a file with these lines
abbrev pub file_bytes : List Line → List ℕ
file_bytes [] = []
file_bytes (l ∷ ls) = render l ++ file_bytes ls

-- The values that lines give to a key, where the lines before them are of that section.
abbrev pub assigned : List ℕ → List ℕ → List Line → List (List ℕ)
assigned k current [] = []
assigned k current (section name ∷ ls) = assigned k name ls
assigned k current (entry c name value ∷ ls) =
    (if same_bytes (make_key current (c ∷ name)) k then value ∷ [] else []) ++ assigned k current ls

-- The variables after a line
abbrev after : Line → Conf → Conf
after (section name) c = record c { section = name; key = [] }
after (entry d name value) c = record c {
  key = d ∷ name;
  values = push_back c.values (make_key c.section (d ∷ name)) value;
}

-- What a line has in front of its end
abbrev content : Line → List ℕ
content (section name) = 91 ∷ (name ++ 93 ∷ [])
content (entry c name value) = c ∷ (name ++ 61 ∷ value)

abbrev after_all : List Line → Conf → Conf
after_all [] c = c
after_all (l ∷ ls) c = after_all ls (after l c)
