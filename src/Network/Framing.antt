-- ===== src/Network/Framing.antt =====
-- network/context.h, `UnpackPacketToRecvQueue`: one look at the front of a client's buffer, and the
-- packets that a sequence of bytes holds.
pub mod Heads
pub mod Stream
pub mod Prefixes
use mathlib.Core.Bool.{◌||◌}
use game_server.Prelude.{
  ℕ, zero, suc, ◌+◌, ◌-◌, List, [], ◌∷◌, ◌++◌, ltb, ◌==◌, if◌then◌else◌, length, take, drop,
}
use game_server.Prelude.Int.{ℤ, pos, negsuc, pos_part, ltb_ℤ, signed16}
use game_server.Wire.{unpack_int}
use game_server.Packet.{header_size}
use game_server.Memory.{max_size}

-- What the loop's guards find: no whole packet yet, a body that is empty (-2) or too long (-3), or a
-- packet with its number, its size and the bytes from its body on.
pub data Head : Type 0 where
  incomplete empty_body oversized : Head
  whole : ℤ → ℕ → List ℕ → Head

-- The guards on the packet size, at `left` bytes; `body` are the bytes behind the header.
judge : ℕ → ℤ → ℤ → List ℕ → Head
judge left packet_size proto_no body =
    let body_size = pos_part packet_size - header_size in
    if ltb_ℤ (pos left) packet_size || ltb_ℤ packet_size (pos header_size)
    then incomplete
    else if body_size == 0
    then empty_body
    else if ltb max_size body_size
    then oversized
    else whole proto_no (pos_part packet_size) body

-- The loop's test, its two reads and its guards, at `left` bytes from the pointer on.
unfoldable pub read_head : ℕ → List ℕ → Head
unfolding judge
read_head left ptr =
    let (size_bits, after_size) = unpack_int 2 2 ptr in
    let (proto_bits, body) = unpack_int 2 2 after_size in
    if ltb left header_size
    then incomplete
    else judge left (signed16 size_bits) (signed16 proto_bits) body

-- How the loop ends: by its test or a `break`, or by `return -2` or `return -3`.
pub data Status : Type 0 where
  finished bad_body too_long : Status

-- The results 0, -2 and -3.
abbrev pub code : Status → ℤ
code finished = pos 0
code bad_body = negsuc 1
code too_long = negsuc 2

-- The packets at the front of a sequence of bytes, and the bytes behind them: the specification of
-- the loop, without the queue and the memory pool.
pub record Parsed : Type 0 where
  pub status : Status
  pub frames : List (ℤ × List ℕ)
  pub rest : List ℕ

abbrev pub prepend : List (ℤ × List ℕ) → Parsed → Parsed
prepend fs r = record r { frames = fs ++ r.frames }

unfoldable pub parse : ℕ → List ℕ → Parsed
parse zero bytes = record { status = finished; frames = []; rest = bytes }
parse (suc fuel) bytes = elim (read_head (length bytes) bytes) [
  | incomplete ↦ record { status = finished; frames = []; rest = bytes }
  | empty_body ↦ record { status = bad_body; frames = []; rest = bytes }
  | oversized ↦ record { status = too_long; frames = []; rest = bytes }
  | whole proto size body ↦
      prepend ((proto, take (size - header_size) body) ∷ []) (parse fuel (drop size bytes))
]

-- Each packet takes bytes, so this much fuel is enough.
unfoldable pub parse_all : List ℕ → Parsed
parse_all bytes = parse (length bytes + 1) bytes
