-- ===== src/Config/Returns.antt =====
-- common/conf/config.cpp, `GameConf::parse`: the loop ends on any file.
use game_server.Prelude.{ℕ, ◌+◌, ◌≤◌, ◌≡◌, Option, some}
use game_server.Config.{Conf}

-- There is a result, and a line with an error is one of the next so many.
abbrev Returned : ℕ → ℕ → Option (ℕ × Conf) → Type 0
Returned n left result = (error : ℕ) × (c : Conf) × (result ≡ some (error, c)) × (error ≤ n + left)
