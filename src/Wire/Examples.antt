-- ===== src/Wire/Examples.antt =====
-- Runs of the packing code, and its round trip at an input.
use game_server.Prelude.{◌≡◌, refl, [], ◌∷◌, ◌++◌, arith}
use game_server.Wire.{pack_int, unpack_int}
use game_server.Wire.RoundTrip.{unpack_int-pack_int}

pack_short : pack_int 2 0x1234 ≡ 0x12 ∷ 0x34 ∷ []
unfolding pack_int
pack_short = refl

pack_byte : pack_int 1 0x34 ≡ 0x34 ∷ []
unfolding pack_int
pack_byte = refl

unpack_short : unpack_int 2 2 (0x12 ∷ 0x34 ∷ 7 ∷ []) ≡ (0x1234, 7 ∷ [])
unfolding unpack_int
unpack_short = refl

unpack_int-pack_int_example :
    unpack_int 4 4 (pack_int 4 0x12345678 ++ 9 ∷ []) ≡ (0x12345678, 9 ∷ [])
unpack_int-pack_int_example = unpack_int-pack_int 4 0x12345678 (9 ∷ []) (omega arith)
