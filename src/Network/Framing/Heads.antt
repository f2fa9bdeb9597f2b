-- ===== src/Network/Framing/Heads.antt =====
-- What one look at the front of the bytes says, and when it says it.
use game_server.Prelude.{
  ℕ, ◌+◌, ◌^◌, ◌≤◌, ◌<◌, ◌≡◌, ◌≢◌, refl, ap, sym, ◌∙◌, List, [], ◌∷◌, ◌++◌, arith, ltb,
  if◌then◌else◌, length, length-append, length-drop, drop, drop-append_le, Bool-cases, inl, inr,
}
use game_server.Prelude.Int.{ℤ, pos, negsuc, signed16}
use native.Mathlib.Decide.{dec_le}
use game_server.Wire.{unpack_int, pack_int}
use game_server.Wire.RoundTrip.{unpack_int-append, unpack_int-drop, unpack_int-pack_int}
use game_server.Memory.{max_size}
use game_server.Packet.{header_size}
use game_server.Network.Framing.{Head, incomplete, empty_body, oversized, whole, judge, read_head}

drop-drop {ℓ} : {A : Type ℓ} (xs : List A) → drop 2 (drop 2 xs) ≡ drop 4 xs
drop-drop [] = refl
drop-drop (x ∷ []) = refl
drop-drop (x ∷ y ∷ xs) = refl

judge-bounds :
    (left : ℕ) (ps proto : ℤ) (ptr : List ℕ) {p : ℤ} {size : ℕ} {body : List ℕ}
    → judge left ps proto ptr ≡ whole p size body
    → (header_size < size)
      × (size ≤ left)
      × (size ≤ header_size + max_size)
      × (body ≡ ptr)
      × (p ≡ proto)
      × (ps ≡ pos size)
unfolding judge
judge-bounds left (pos n) proto ptr h = ground arith
judge-bounds left (negsuc n) proto ptr h = ground arith

-- A head with more bytes behind.
abbrev pub extend : List ℕ → Head → Head
extend b incomplete = incomplete
extend b empty_body = empty_body
extend b oversized = oversized
extend b (whole p size body) = whole p size (body ++ b)

judge-extend :
    (left left' : ℕ) (ps proto : ℤ) (ptr b : List ℕ)
    → judge left ps proto ptr ≢ incomplete
    → left ≤ left'
    → judge left' ps proto (ptr ++ b) ≡ extend b (judge left ps proto ptr)
unfolding judge
judge-extend left left' (pos n) proto ptr b h l = ground arith
judge-extend left left' (negsuc n) proto ptr b h l = ground arith

-- The two fields of a header.
size_field : List ℕ → ℤ
size_field ptr = signed16 (unpack_int 2 2 ptr).0

proto_field : List ℕ → ℤ
proto_field ptr = signed16 (unpack_int 2 2 (drop 2 ptr)).0

size_field-append : (a b : List ℕ) → 4 ≤ length a → size_field (a ++ b) ≡ size_field a
unfolding size_field
size_field-append a b h = rw (unpack_int-append 2 a b (omega arith))

proto_field-append : (a b : List ℕ) → 4 ≤ length a → proto_field (a ++ b) ≡ proto_field a
unfolding proto_field
proto_field-append a b h = rw (
  drop-append_le 2 a b (omega arith),
  unpack_int-append 2 (drop 2 a) b (omega (arith, length-drop 2 a)),
)

read_head-eq :
    (left : ℕ) (ptr : List ℕ)
    → read_head left ptr ≡ (
        if ltb left header_size
        then incomplete
        else judge left (size_field ptr) (proto_field ptr) (drop header_size ptr))
unfolding read_head size_field proto_field
read_head-eq left ptr = rw (unpack_int-drop, unpack_int-drop, drop-drop)

-- A packet that is found has a body of 1 to `max_size` bytes, and lies within the bytes.
pub whole-bounds :
    (left : ℕ) (ptr : List ℕ) {proto : ℤ} {size : ℕ} {body : List ℕ}
    → read_head left ptr ≡ whole proto size body
    → (header_size < size)
      × (size ≤ left)
      × (size ≤ header_size + max_size)
      × (body ≡ drop header_size ptr)
whole-bounds left ptr {proto} {size} {body} h = ground (
  arith,
  read_head-eq left ptr,
  judge-bounds left (size_field ptr) (proto_field ptr) (drop header_size ptr) {p = proto}
      {size = size} {body = body},
)

read_head-judge :
    (left : ℕ) (ptr : List ℕ)
    → header_size ≤ left
    → read_head left ptr ≡ judge left (size_field ptr) (proto_field ptr) (drop header_size ptr)
read_head-judge left ptr h = ground (arith, read_head-eq left ptr)

-- Once a look says more than `incomplete`, bytes behind change nothing of what it says.
pub read_head-extend :
    (a b : List ℕ)
    → read_head (length a) a ≢ incomplete
    → read_head (length (a ++ b)) (a ++ b) ≡ extend b (read_head (length a) a)
read_head-extend a b h =
    read_head-judge (length (a ++ b)) (a ++ b) (omega (arith, length-append a b, long))
    ∙ rw
        (
          size_field-append a b long,
          proto_field-append a b long,
          drop-append_le header_size a b long,
        )
        (judge-extend (length a) (length (a ++ b)) (size_field a) (proto_field a)
          (drop header_size a) b (λ e. h (read_head-judge (length a) a long ∙ e))
          (omega (arith, length-append a b)))
    ∙ ap (extend b) (sym (read_head-judge (length a) a long))
  where
    long : header_size ≤ length a
    long = elim (Bool-cases (ltb (length a) header_size)) [
      | inl short ↦ absurd (h (ground (arith, read_head-eq (length a) a)))
      | inr e ↦ ground arith
    ]

judge-behind :
    (left : ℕ) (ps proto : ℤ) (ptr b : List ℕ)
    → judge left ps proto (ptr ++ b) ≡ extend b (judge left ps proto ptr)
unfolding judge
judge-behind left (pos n) proto ptr b = ground arith
judge-behind left (negsuc n) proto ptr b = ground arith

-- Bytes that lie behind the counted ones, stale ones in the array say, change nothing.
pub read_head-behind :
    (a b : List ℕ) → read_head (length a) (a ++ b) ≡ extend b (read_head (length a) a)
read_head-behind a b = elim (dec_le header_size (length a)) [
  | yes long ↦
      read_head-judge (length a) (a ++ b) long
      ∙ rw
          (
            size_field-append a b long,
            proto_field-append a b long,
            drop-append_le header_size a b long,
          )
          (judge-behind (length a) (size_field a) (proto_field a) (drop header_size a) b)
      ∙ ap (extend b) (sym (read_head-judge (length a) a long))
  | no short ↦ ground (arith, read_head-eq (length a) (a ++ b), read_head-eq (length a) a)
]

-- A packet in front: its header is written by `PackInt`, its size counts the header.
pub read_head-frame :
    (left : ℕ) (size_bits proto_bits : ℕ) (body : List ℕ)
    → size_bits < 2 ^ 15
    → proto_bits < 2 ^ 16
    → header_size < size_bits
    → size_bits ≤ header_size + max_size
    → size_bits ≤ left
    → read_head left (pack_int 2 size_bits ++ (pack_int 2 proto_bits ++ body))
      ≡ whole (signed16 proto_bits) size_bits body
unfolding read_head judge
read_head-frame left size_bits proto_bits body h k l m n =
    rw
      (
        unpack_int-pack_int 2 size_bits (pack_int 2 proto_bits ++ body) (omega arith),
        unpack_int-pack_int 2 proto_bits body (omega arith),
      )
      (ground arith)
