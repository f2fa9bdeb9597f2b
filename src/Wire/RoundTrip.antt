-- ===== src/Wire/RoundTrip.antt =====
-- `UnpackInt` reads back what `PackInt` wrote, at every width.
use mathlib.Core.List.{reverse, reverse-reverse, reverse-cons}
use native.Mathlib.Nat.{pow-suc}
use game_server.Prelude.{
  ℕ, zero, suc, ◌/◌, ◌^◌, ◌<◌, ◌≡◌, refl, ap, ◌∙◌, List, [], ◌∷◌, ◌++◌, arith, length,
  length-append, take, drop, take-append, drop-append, take-append_le, drop-append_le, ◌≤◌, inl,
  inr, Bool-cases, sym, ltb, false, if◌then◌else◌,
}
use game_server.Wire.{le_bytes, le_value, is_swapped, pack_int, unpack_int}

pub length-le_bytes : (n v : ℕ) → length (le_bytes n v) ≡ n
unfolding le_bytes
length-le_bytes zero v = refl
length-le_bytes (suc n) v = ap suc (length-le_bytes n (v / 256))

pub length-reverse {ℓ} : {A : Type ℓ} (xs : List A) → length (reverse xs) ≡ length xs
length-reverse [] = refl
length-reverse (x ∷ xs) =
    ap length (reverse-cons x xs)
    ∙ omega (arith, length-append (reverse xs) (x ∷ []), length-reverse xs)

pub length-pack_int : (width v : ℕ) → length (pack_int width v) ≡ width
unfolding pack_int
length-pack_int width v = ground (arith, length-le_bytes width v, length-reverse (le_bytes width v))

le_value-le_bytes : (n v : ℕ) → v < 256 ^ n → le_value (le_bytes n v) ≡ v
unfolding le_bytes le_value
le_value-le_bytes zero v h = omega arith
le_value-le_bytes (suc n) v h =
    omega (arith, le_value-le_bytes n (v / 256) (omega (arith, pow-suc 256 n)))

ltb_self : (n : ℕ) → ltb n n ≡ false
ltb_self n = ground arith

-- What `PackInt` wrote, put back in the host's order, is the value.
host_order : ℕ → List ℕ → ℕ
host_order width bytes = if is_swapped width then le_value (reverse bytes) else le_value bytes

host_order-pack_int : (width v : ℕ) → v < 256 ^ width → host_order width (pack_int width v) ≡ v
unfolding host_order pack_int
host_order-pack_int width v h = elim (Bool-cases (is_swapped width)) [
  | inl e ↦ rw (e, reverse-reverse) (le_value-le_bytes width v h)
  | inr e ↦ rw e (le_value-le_bytes width v h)
]

unpack_int_self :
    (width : ℕ) (buffer : List ℕ)
    → unpack_int width width buffer ≡ (host_order width (take width buffer), drop width buffer)
unfolding unpack_int host_order
unpack_int_self width buffer = rw ltb_self

-- An integer of `width` bytes, packed and followed by any other bytes, is unpacked to itself, and
-- the pointer stops at those bytes.
pub unpack_int-pack_int :
    (width v : ℕ) (rest : List ℕ)
    → v < 256 ^ width
    → unpack_int width width (pack_int width v ++ rest) ≡ (v, rest)
unpack_int-pack_int width v rest h =
    let len = sym (length-pack_int width v) in
    unpack_int_self width (pack_int width v ++ rest)
    ∙ rw (
      take-append width (pack_int width v) rest len,
      drop-append width (pack_int width v) rest len,
      host_order-pack_int width v h,
    )

-- What is read from the front does not depend on the bytes behind.
pub unpack_int-append :
    (width : ℕ) (buffer rest : List ℕ)
    → width ≤ length buffer
    → unpack_int width width (buffer ++ rest)
      ≡ ((unpack_int width width buffer).0, (unpack_int width width buffer).1 ++ rest)
unpack_int-append width buffer rest h = rw (
  unpack_int_self width (buffer ++ rest),
  unpack_int_self width buffer,
  take-append_le width buffer rest h,
  drop-append_le width buffer rest h,
)

pub unpack_int-drop :
    (width : ℕ) (buffer : List ℕ) → (unpack_int width width buffer).1 ≡ drop width buffer
unpack_int-drop width buffer = rw (unpack_int_self width buffer)
