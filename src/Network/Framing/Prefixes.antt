-- ===== src/Network/Framing/Prefixes.antt =====
-- The bytes of a stream that have arrived so far: if the whole stream has no bad frame, they have none.
use game_server.Prelude.{
  ℕ, zero, suc, ◌+◌, ◌≤◌, ◌<◌, ◌≡◌, refl, ap, sym, ◌∙◌, List, ◌++◌, arith, length, length-append,
  length-drop, drop, drop-append_le,
}
use game_server.Packet.{header_size}
use game_server.Network.Framing.{
  Head, incomplete, empty_body, oversized, whole, read_head, finished, parse, parse_all,
}
use game_server.Network.Framing.Heads.{whole-bounds, read_head-extend, extend}
use game_server.Network.Framing.Stream.{parse-incomplete, parse-whole}

parse-prefix :
    (f g : ℕ) (a b : List ℕ)
    → length a < f
    → length (a ++ b) < g
    → (parse g (a ++ b)).status ≡ finished
    → (parse f a).status ≡ finished
parse-prefix zero g a b h k done = absurd (omega arith)
parse-prefix (suc f) zero a b h k done = absurd (omega arith)
parse-prefix (suc f) (suc g) a b h k done = go (read_head (length a) a) refl (λ size p.
    parse-prefix f g (drop size a) b (omega (arith, p, length-drop size a))
      (omega (arith, p, length-append a b, length-append (drop size a) b, length-drop size a)))
  where
    go :
        (hd : Head)
        → read_head (length a) a ≡ hd
        → ((size : ℕ)
            → (header_size < size) × (size ≤ length a)
            → (parse g (drop size a ++ b)).status ≡ finished
            → (parse f (drop size a)).status ≡ finished)
        → (parse (suc f) a).status ≡ finished
    go incomplete e ih = ap (λ r. r.status) (parse-incomplete f a e)
    go empty_body e ih =
        let e' = read_head-extend a b (λ i. cc (sym e ∙ i)) ∙ ap (extend b) e in
        absurd (unfold parse in cc (rw (e', parse) at done))
    go oversized e ih =
        let e' = read_head-extend a b (λ i. cc (sym e ∙ i)) ∙ ap (extend b) e in
        absurd (unfold parse in cc (rw (e', parse) at done))
    go (whole proto size body) e ih =
        let bd = whole-bounds (length a) a e in
        let e' = read_head-extend a b (λ i. cc (sym e ∙ i)) ∙ ap (extend b) e in
        ap (λ r. r.status) (parse-whole f a e)
        ∙ ih size (bd.0, bd.1)
            (sym (ap (λ bytes. (parse g bytes).status) (drop-append_le size a b bd.1))
              ∙ (sym (ap (λ r. r.status) (parse-whole g (a ++ b) e')) ∙ done))

pub parse_all-prefix :
    (a b : List ℕ) → (parse_all (a ++ b)).status ≡ finished → (parse_all a).status ≡ finished
unfolding parse_all
parse_all-prefix a b done =
    parse-prefix (length a + 1) (length (a ++ b) + 1) a b (omega arith) (omega arith) done
