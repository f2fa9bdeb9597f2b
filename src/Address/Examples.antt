-- ===== src/Address/Examples.antt =====
-- The port 40000, which no `short` holds.
use game_server.Prelude.{◌≡◌, [], ◌∷◌, false, some, arith}
use game_server.Prelude.Int.{pos}
use game_server.Address.{ServerIpInfo, init, init_lem}

abbrev unset : ServerIpInfo
unset = record { server_port = pos 0; server_ip = [] }

init_lem_example : init unset 40000 (some (49 ∷ [])) ≡ (false, unset)
init_lem_example = init_lem unset 40000 (49 ∷ []) (omega arith) (omega arith)
