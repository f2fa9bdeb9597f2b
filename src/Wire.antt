-- ===== src/Wire.antt =====
-- network/unpack.h: integers on the wire, in network byte order. A host integer of `width` bytes is
-- its bit pattern, a number below `256 ^ width`; the host is little-endian.
pub mod RoundTrip
mod Examples
use mathlib.Core.List.{reverse}
use game_server.Prelude.{
  ℕ, zero, suc, ◌+◌, ◌*◌, ◌/◌, ◌%◌, List, [], ◌∷◌, ◌++◌, Bool, ◌||◌, ltb, ◌==◌, if◌then◌else◌, take,
  drop,
}

-- The bytes of an integer in memory, and the integer that bytes in memory are.
pub le_bytes : ℕ → ℕ → List ℕ
le_bytes zero v = []
le_bytes (suc n) v = (v % 256) ∷ le_bytes n (v / 256)

pub le_value : List ℕ → ℕ
le_value [] = 0
le_value (b ∷ bs) = b + 256 * le_value bs

-- The sizes at which `PackInt` and `UnpackInt` change the byte order: `case 8`, `case 4`, `case 2`.
abbrev pub is_swapped : ℕ → Bool
is_swapped size = size == 8 || size == 4 || size == 2

-- `PackInt`: the value, in network order where its type has 8, 4 or 2 bytes, copied to the buffer.
-- The result is the bytes written; the caller's pointer moves past them.
unfoldable pub pack_int : ℕ → ℕ → List ℕ
unfolding le_bytes
pack_int width value =
    if is_swapped width then reverse (le_bytes width value) else le_bytes width value

-- `size = (size > sizeof(T)) ? sizeof(T) : size`.
abbrev pub clamp_size : ℕ → ℕ → ℕ
clamp_size width size = if ltb width size then width else size

-- `UnpackInt`: `size` bytes of the buffer as an integer of `width` bytes, and the pointer after them.
unfoldable pub unpack_int : ℕ → ℕ → List ℕ → ℕ × List ℕ
unfolding le_value
unpack_int width size buffer =
    let n = clamp_size width size in
    let bytes = take n buffer in
    (if is_swapped n then le_value (reverse bytes) else le_value bytes, drop n buffer)
