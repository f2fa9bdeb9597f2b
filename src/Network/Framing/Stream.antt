-- ===== src/Network/Framing/Stream.antt =====
-- A client's bytes as a stream: where the network cuts them does not matter, and the packets that a
-- peer frames come back.
use game_server.Prelude.{
  ℕ, zero, suc, ◌+◌, ◌-◌, ◌^◌, ◌≤◌, ◌<◌, ◌≡◌, refl, ap, sym, ◌∙◌, List, [], ◌∷◌, ◌++◌, arith,
  length, length-append, length-drop, take, drop, take-append_le, drop-append_le, append_assoc,
  take-append, drop-append,
}
use game_server.Prelude.Int.{ℤ, signed16}
use game_server.Wire.{pack_int}
use game_server.Wire.RoundTrip.{length-pack_int}
use game_server.Memory.{max_size}
use game_server.Packet.{header_size}
use game_server.Network.Framing.{
  Head, incomplete, empty_body, oversized, whole, read_head, finished, prepend, parse, parse_all,
}
use game_server.Network.Framing.Heads.{whole-bounds, read_head-extend, extend, read_head-frame}

-- One round of `parse`, at each answer of `read_head`.
pub parse-incomplete :
    (f : ℕ) (bytes : List ℕ)
    → read_head (length bytes) bytes ≡ incomplete
    → parse (suc f) bytes ≡ record { status = finished; frames = []; rest = bytes }
unfolding parse
parse-incomplete f bytes e = rw (e, parse)

pub parse-whole :
    (f : ℕ) (bytes : List ℕ) {proto : ℤ} {size : ℕ} {body : List ℕ}
    → read_head (length bytes) bytes ≡ whole proto size body
    → parse (suc f) bytes
      ≡ prepend ((proto, take (size - header_size) body) ∷ []) (parse f (drop size bytes))
unfolding parse
parse-whole f bytes e = rw (e, parse)

-- Enough fuel is as good as any other.
pub parse-fuel :
    (f g : ℕ) (bytes : List ℕ) → length bytes < f → length bytes < g → parse f bytes ≡ parse g bytes
parse-fuel zero g bytes h k = absurd (omega arith)
parse-fuel (suc f) zero bytes h k = absurd (omega arith)
parse-fuel (suc f) (suc g) bytes h k = go (read_head (length bytes) bytes) refl (λ size p.
    parse-fuel f g (drop size bytes) (omega (arith, p, length-drop size bytes))
      (omega (arith, p, length-drop size bytes)))
  where
    go :
        (hd : Head)
        → read_head (length bytes) bytes ≡ hd
        → ((size : ℕ)
            → (header_size < size) × (size ≤ length bytes)
            → parse f (drop size bytes) ≡ parse g (drop size bytes))
        → parse (suc f) bytes ≡ parse (suc g) bytes
    go incomplete e ih = parse-incomplete f bytes e ∙ sym (parse-incomplete g bytes e)
    go empty_body e ih = unfold parse in rw (e, parse)
    go oversized e ih = unfold parse in rw (e, parse)
    go (whole proto size body) e ih =
        let b = whole-bounds (length bytes) bytes e in
        parse-whole f bytes e
        ∙ ap (prepend ((proto, take (size - header_size) body) ∷ [])) (ih size (b.0, b.1))
        ∙ sym (parse-whole g bytes e)

parse-append :
    (f g : ℕ) (a b : List ℕ)
    → length a < f
    → length (a ++ b) < g
    → (parse f a).status ≡ finished
    → parse g (a ++ b) ≡ prepend (parse f a).frames (parse_all ((parse f a).rest ++ b))
parse-append zero g a b h k done = absurd (omega arith)
parse-append (suc f) zero a b h k done = absurd (omega arith)
parse-append (suc f) (suc g) a b h k done = go (read_head (length a) a) refl (λ size p.
    parse-append f g (drop size a) b (omega (arith, p, length-drop size a))
      (omega (arith, p, length-append a b, length-append (drop size a) b, length-drop size a)))
  where
    go :
        (hd : Head)
        → read_head (length a) a ≡ hd
        → ((size : ℕ)
            → (header_size < size) × (size ≤ length a)
            → (parse f (drop size a)).status ≡ finished
            → parse g (drop size a ++ b)
              ≡ prepend
                  (parse f (drop size a)).frames
                  (parse_all ((parse f (drop size a)).rest ++ b)))
        → parse (suc g) (a ++ b)
          ≡ prepend (parse (suc f) a).frames (parse_all ((parse (suc f) a).rest ++ b))
    go incomplete e ih =
        unfold parse_all in
        rw (parse-incomplete f a e)
          (parse-fuel (suc g) (length (a ++ b) + 1) (a ++ b) k (omega arith))
    go empty_body e ih = absurd (unfold parse in cc (rw (e, parse) at done))
    go oversized e ih = absurd (unfold parse in cc (rw (e, parse) at done))
    go (whole proto size body) e ih =
        let bd = whole-bounds (length a) a e in
        let e' = read_head-extend a b (λ i. cc (sym e ∙ i)) ∙ ap (extend b) e in
        let short : size - header_size ≤ length body =
          omega (arith, bd, ap length bd.3, length-drop header_size a) in
        let done' : (parse f (drop size a)).status ≡ finished =
          sym (ap (λ r. r.status) (parse-whole f a e)) ∙ done in
        parse-whole g (a ++ b) e'
        ∙ rw (
          take-append_le (size - header_size) body b short,
          drop-append_le size a b bd.1,
          ih size (bd.0, bd.1) done',
          parse-whole f a e,
        )

-- Where the bytes are cut does not matter: if the packets in `a` are unpacked first and what is left
-- waits for `b`, the same packets come out, in the same order, as from `a ++ b` at once, with the
-- same end and the same bytes left.
pub parse_all-append :
    (a b : List ℕ)
    → (parse_all a).status ≡ finished
    → parse_all (a ++ b) ≡ prepend (parse_all a).frames (parse_all ((parse_all a).rest ++ b))
unfolding parse_all
parse_all-append a b done =
    parse-append (length a + 1) (length (a ++ b) + 1) a b (omega arith) (omega arith) done

-- What a peer sends for a packet: the size with the header, the number, and the body.
unfoldable pub frame : ℕ × List ℕ → List ℕ
frame (proto_bits, body) = pack_int 2 (length body + header_size) ++ (pack_int 2 proto_bits ++ body)

unfoldable pub frames : List (ℕ × List ℕ) → List ℕ
unfolding frame
frames [] = []
frames (m ∷ ms) = frame m ++ frames ms

-- A body of 1 to `max_size` bytes, and a number of 16 bits.
abbrev pub IsFrame : ℕ × List ℕ → Type 0
IsFrame m = (m.0 < 2 ^ 16) × (1 ≤ length m.1) × (length m.1 ≤ max_size)

abbrev pub AllFrames : List (ℕ × List ℕ) → Type 0
AllFrames [] = Unit {0}
AllFrames (m ∷ ms) = IsFrame m × AllFrames ms

abbrev pub delivered : List (ℕ × List ℕ) → List (ℤ × List ℕ)
delivered [] = []
delivered (m ∷ ms) = (signed16 m.0, m.1) ∷ delivered ms

pub length-frame : (m : ℕ × List ℕ) → length (frame m) ≡ length m.1 + header_size
unfolding frame
length-frame (bits, body) = omega (
  arith,
  length-append (pack_int 2 (length body + header_size)) (pack_int 2 bits ++ body),
  length-append (pack_int 2 bits) body,
  length-pack_int 2 (length body + header_size),
  length-pack_int 2 bits,
)

pub read_head-framed :
    (m : ℕ × List ℕ) (rest : List ℕ)
    → IsFrame m
    → read_head (length (frame m ++ rest)) (frame m ++ rest)
      ≡ whole (signed16 m.0) (length m.1 + header_size) (m.1 ++ rest)
read_head-framed (bits, body) rest v =
    let fits : length body + header_size ≤ length (frame (bits, body) ++ rest) =
      omega (arith, length-append (frame (bits, body)) rest, length-frame (bits, body)) in
    ap (read_head (length (frame (bits, body) ++ rest))) regroup
    ∙ read_head-frame (length (frame (bits, body) ++ rest)) (length body + header_size) bits
        (body ++ rest) (omega arith) v.0 (omega arith) (omega arith) fits
  where
    regroup :
        frame (bits, body) ++ rest
        ≡ pack_int 2 (length body + header_size) ++ (pack_int 2 bits ++ (body ++ rest))
    regroup =
        unfold frame in
        append_assoc (pack_int 2 (length body + header_size)) (pack_int 2 bits ++ body) rest
        ∙ ap (◌++◌ (pack_int 2 (length body + header_size)))
            (append_assoc (pack_int 2 bits) body rest)

parse_all-frame :
    (m : ℕ × List ℕ) (rest : List ℕ)
    → IsFrame m
    → parse_all (frame m ++ rest) ≡ prepend ((signed16 m.0, m.1) ∷ []) (parse_all rest)
parse_all-frame (bits, body) rest v =
    let bytes = frame (bits, body) ++ rest in
    let e = read_head-framed (bits, body) rest v in
    let size = length body + header_size in
    (unfold parse_all in
      parse-fuel (length bytes + 1) (suc (length bytes)) bytes (omega arith) (omega arith)
      ∙ parse-whole (length bytes) bytes e
      ∙ rw (
        drop-append size (frame (bits, body)) rest (sym (length-frame (bits, body))),
        take-append (size - header_size) body rest (omega arith),
        parse-fuel (length bytes) (length rest + 1) rest
            (omega (arith, length-append (frame (bits, body)) rest, length-frame (bits, body)))
            (omega arith),
      ))

-- Framed packets, one behind the other, come back in order with their numbers and bodies; the bytes
-- behind them are unpacked as if they stood alone.
pub parse_all-frames :
    (ms : List (ℕ × List ℕ)) (rest : List ℕ)
    → AllFrames ms
    → parse_all (frames ms ++ rest) ≡ prepend (delivered ms) (parse_all rest)
unfolding frames
parse_all-frames [] rest v = refl
parse_all-frames (m ∷ ms) rest v = rw append_assoc (
    parse_all-frame m (frames ms ++ rest) v.0
    ∙ ap (prepend ((signed16 m.0, m.1) ∷ [])) (parse_all-frames ms rest v.1))
