-- ===== src/Network/Receive.antt =====
-- `UnpackPacketToRecvQueue` against the specification of its loop: the packets it queues, the memory
-- they hold, and what it leaves in the client's buffer.
use game_server.Prelude.{
  ℕ, zero, suc, ◌+◌, ◌-◌, ◌≤◌, ◌<◌, ◌≡◌, refl, ap, ap₂, sym, subst, ◌∙◌, List, [], ◌∷◌, ◌++◌, some,
  arith, length, length-append, length-take, length-drop, take, drop, take-append-drop, drop-take,
  drop-drop, take-append_le, append_assoc, append-nil,
}
use game_server.Prelude.Int.{ℤ}
use game_server.Memory.{MemoryPool, MemoryRef, memory_at, max_size, get_buffer}
use game_server.Memory.Ownership.{Owned}
use game_server.Memory.Contents.{IsHeld}
use game_server.Packet.{NetPacket, packet_body, header_size}
use game_server.Queue.Ownership.{
  Added, add_packet_lem, new_packet, memories_of, IsHeld-cons, IsHeld-cons_self, Owned-behind,
}
use game_server.Network.Buffer.{ClientBuffer}
use game_server.Network.Framing.{
  Head, incomplete, empty_body, oversized, whole, read_head, Status, finished, bad_body, too_long,
  Parsed, parse, prepend,
}
use game_server.Network.Framing.Heads.{whole-bounds, read_head-behind, extend}
use game_server.Network.Framing.Stream.{parse-whole}
use game_server.Network.{Loop, take_packet, unpack_loop}

-- What a reader of a queue sees of a packet: whose it is, its number and its body.
abbrev pub View : Type 0
View = ℕ × ℕ × ℤ × List ℕ

abbrev pub view : MemoryPool → NetPacket → View
view p k = (k.client_seq, k.sock_fd, k.proto_no, packet_body p k)

abbrev pub views : MemoryPool → List NetPacket → List View
views p [] = []
views p (k ∷ ks) = view p k ∷ views p ks

abbrev pub expected : ClientBuffer → List (ℤ × List ℕ) → List View
expected c [] = []
expected c ((proto, body) ∷ fs) = (c.client_seq, c.client_fd, proto, body) ∷ expected c fs

-- The bytes that the loop has not consumed.
abbrev pub bytes_left : ClientBuffer → Loop → List ℕ
bytes_left c s = take s.left (drop s.offset c.buffer)

-- What the loop has done when it ends in `out`, where `r` is what the specification says of the bytes.
pub record Progress (n : ℕ) (c : ClientBuffer) (held : List MemoryRef) (s : Loop) (r : Parsed)
    (out : Status × Loop) (new : List NetPacket) : Type 0 where
  pub status : out.0 ≡ r.status
  pub rest : bytes_left c out.1 ≡ r.rest
  pub place : out.1.offset + out.1.left ≡ s.offset + s.left
  pub total : out.1.total ≡ s.total + length r.frames
  pub packets : out.1.queue.packets ≡ s.queue.packets ++ new
  pub count : out.1.queue.packet_num ≡ s.queue.packet_num + length new
  pub owned : Owned n out.1.pool (memories_of new ++ held)
  pub seen : views out.1.pool new ≡ expected c r.frames
  pub keeps : (m : MemoryRef) → IsHeld m held → memory_at out.1.pool m ≡ memory_at s.pool m

-- The loop's place in the buffer.
pub record IsPlaced (c : ClientBuffer) (s : Loop) : Type 0 where
  pub inside : s.offset + s.left ≤ length c.buffer

length-bytes_left : (c : ClientBuffer) (s : Loop) → IsPlaced c s → length (bytes_left c s) ≡ s.left
length-bytes_left c s v =
    omega
      (arith, length-take s.left (drop s.offset c.buffer), length-drop s.offset c.buffer, v.inside)

-- The look at the array agrees with a look at the bytes that count.
read_head-bytes :
    (c : ClientBuffer) (s : Loop)
    → IsPlaced c s
    → read_head s.left (drop s.offset c.buffer)
      ≡ extend
          (drop s.left (drop s.offset c.buffer))
          (read_head (length (bytes_left c s)) (bytes_left c s))
read_head-bytes c s v =
    ap (λ (xs : List ℕ). read_head s.left xs)
      (sym (take-append-drop s.left (drop s.offset c.buffer)))
    ∙ ap (λ (k : ℕ). read_head k (bytes_left c s ++ drop s.left (drop s.offset c.buffer)))
        (sym (length-bytes_left c s v))
    ∙ read_head-behind (bytes_left c s) (drop s.left (drop s.offset c.buffer))

-- The loop's variables after one packet.
abbrev after_packet : Loop → ℕ → MemoryPool → NetPacket → Loop
after_packet s size p k = record {
  pool = p;
  queue = record { packet_num = s.queue.packet_num + 1; packets = s.queue.packets ++ k ∷ [] };
  offset = s.offset + size;
  left = s.left - size;
  total = s.total + 1;
}

bytes_left-after_packet :
    (c : ClientBuffer) (s : Loop) (size : ℕ) (p : MemoryPool) (k : NetPacket)
    → size ≤ s.left
    → drop size (bytes_left c s) ≡ bytes_left c (after_packet s size p k)
bytes_left-after_packet c s size p k h =
    let e : s.left ≡ size + (s.left - size) = omega arith in
    ap (λ (l : ℕ). drop size (take l (drop s.offset c.buffer))) e
    ∙ drop-take size (s.left - size) (drop s.offset c.buffer)
    ∙ ap (take (s.left - size)) (drop-drop size s.offset c.buffer)

-- A packet's step: the packet, the pool after it, and what `AddPacket` promises.
take_packet_lem :
    (n : ℕ) (clock : ℕ → ℕ) (c : ClientBuffer) (s : Loop) (held : List MemoryRef) (proto : ℤ)
    (size : ℕ) (body stale : List ℕ)
    → Owned n s.pool held
    → size - header_size ≤ length body
    → size ≤ header_size + max_size
    → let k =
        new_packet s.pool c.client_seq c.client_fd proto (size - header_size) (clock s.total) in
      (p : MemoryPool) × (take_packet clock c s proto size (body ++ stale)
        ≡ some (after_packet s size p k))
      × Added n s.pool held (size - header_size) body k p
unfolding take_packet
take_packet_lem n clock c s held proto size body stale o h l =
    let (p, e, a) =
      add_packet_lem n s.pool held s.queue c.client_seq c.client_fd proto (size - header_size)
        (body ++ stale) (clock s.total) o (omega arith) (omega (arith, length-append body stale)) in
    (
      p,
      rw e,
      record {
        owned = a.owned;
        body = a.body ∙ take-append_le (size - header_size) body stale h;
        keeps = a.keeps;
      },
    )

-- A packet in front of the progress that follows it.
Progress-cons :
    (n : ℕ) (c : ClientBuffer) (held : List MemoryRef) (s : Loop) (proto : ℤ) (size : ℕ)
    (body : List ℕ) (k : NetPacket) (p : MemoryPool) (r : Parsed) (out : Status × Loop)
    (new : List NetPacket)
    → size ≤ s.left
    → view p k ≡ (c.client_seq, c.client_fd, proto, body)
    → ((m : MemoryRef) → IsHeld m held → memory_at p m ≡ memory_at s.pool m)
    → Progress n c (k.memory ∷ held) (after_packet s size p k) r out new
    → Progress n c held s (record r { frames = (proto, body) ∷ r.frames }) out (k ∷ new)
Progress-cons n c held s proto size body k p r out new h v keeps g = record {
  status = g.status;
  rest = g.rest;
  place = omega (arith, g.place);
  total = omega (arith, g.total);
  packets = g.packets ∙ append_assoc s.queue.packets (k ∷ []) new;
  count = omega (arith, g.count);
  owned = Owned-behind n out.1.pool k.memory (memories_of new) held g.owned;
  seen =
      ap₂ ◌∷◌
        (unfold packet_body in
          ap (λ m. (k.client_seq, k.sock_fd, k.proto_no, take k.buffer_size (get_buffer m)))
            (g.keeps k.memory (IsHeld-cons_self k.memory held))
          ∙ v)
        g.seen;
  keeps = λ m i. g.keeps m (IsHeld-cons m k.memory held i) ∙ keeps m i;
}

abbrev pub Goal : ℕ → ℕ → (ℕ → ℕ) → ClientBuffer → Loop → List MemoryRef → Type 0
Goal fuel n clock c s held =
    (out : Status × Loop) × (new : List NetPacket) × (unpack_loop fuel clock c s ≡ some out)
    × Progress n c held s (parse fuel (bytes_left c s)) out new

Progress-nil :
    (n : ℕ) (c : ClientBuffer) (held : List MemoryRef) (s : Loop) (status : Status)
    → Owned n s.pool held
    → Progress n c held s
        (record { status = status; frames = []; rest = bytes_left c s })
        (status, s)
        []
Progress-nil n c held s status o = record {
  status = refl;
  rest = refl;
  place = refl;
  total = omega arith;
  packets = sym (append-nil s.queue.packets);
  count = omega arith;
  owned = o;
  seen = refl;
  keeps = λ m i. refl;
}

unpack_loop-whole :
    (f : ℕ) (clock : ℕ → ℕ) (c : ClientBuffer) (s : Loop) {s' : Loop} {proto : ℤ} {size : ℕ}
    {body : List ℕ}
    → read_head s.left (drop s.offset c.buffer) ≡ whole proto size body
    → take_packet clock c s proto size body ≡ some s'
    → unpack_loop (suc f) clock c s ≡ unpack_loop f clock c s'
unfolding unpack_loop
unpack_loop-whole f clock c s e e' = rw (e, unpack_loop) (rw e')

-- With more fuel than bytes the loop ends, no assertion fails, and it does what the specification says.
pub unpack_loop_lem :
    (fuel n : ℕ) (clock : ℕ → ℕ) (c : ClientBuffer) (s : Loop) (held : List MemoryRef)
    → s.left < fuel
    → IsPlaced c s
    → Owned n s.pool held
    → Goal fuel n clock c s held
unpack_loop_lem zero n clock c s held h v o = absurd (omega arith)
unpack_loop_lem (suc f) n clock c s held h v o =
    go (read_head (length (bytes_left c s)) (bytes_left c s)) refl (λ size p k held' b.
      unpack_loop_lem f n clock c (after_packet s size p k) held' (omega (arith, b))
        (record { inside = omega (arith, b, v.inside) }))
  where
    ended :
        (status : Status)
        → unpack_loop (suc f) clock c s ≡ some (status, s)
        → parse (suc f) (bytes_left c s)
          ≡ record { status = status; frames = []; rest = bytes_left c s }
        → Goal (suc f) n clock c s held
    ended status e e' = (
      (status, s),
      [],
      e,
      subst (λ r. Progress n c held s r (status, s) []) (sym e') (Progress-nil n c held s status o),
    )

    go :
        (hd : Head)
        → read_head (length (bytes_left c s)) (bytes_left c s) ≡ hd
        → ((size : ℕ) (p : MemoryPool) (k : NetPacket) (held' : List MemoryRef)
            → (0 < size) × (size ≤ s.left)
            → Owned n p held'
            → Goal f n clock c (after_packet s size p k) held')
        → Goal (suc f) n clock c s held
    go incomplete e ih =
        ended finished (unfold unpack_loop in rw (read_head-bytes c s v, e, unpack_loop))
          (unfold parse in rw (e, parse))
    go empty_body e ih =
        ended bad_body (unfold unpack_loop in rw (read_head-bytes c s v, e, unpack_loop))
          (unfold parse in rw (e, parse))
    go oversized e ih =
        ended too_long (unfold unpack_loop in rw (read_head-bytes c s v, e, unpack_loop))
          (unfold parse in rw (e, parse))
    go (whole proto size body) e ih =
        let b = whole-bounds (length (bytes_left c s)) (bytes_left c s) e in
        let size_le : size ≤ s.left = omega (arith, b.1, length-bytes_left c s v) in
        let room : size - header_size ≤ length body =
          omega (arith, b.1, ap length b.3, length-drop header_size (bytes_left c s)) in
        let k =
          new_packet s.pool c.client_seq c.client_fd proto (size - header_size) (clock s.total) in
        let (p, e', a) =
          take_packet_lem n clock c s held proto size body (drop s.left (drop s.offset c.buffer)) o
            room b.2 in
        let (out, new, run, g) =
          ih size p k (k.memory ∷ held) (omega (arith, b.0), size_le) a.owned in
        (
          out,
          k ∷ new,
          unpack_loop-whole f clock c s
                (read_head-bytes c s v ∙ ap (extend (drop s.left (drop s.offset c.buffer))) e) e'
              ∙ run,
          subst (λ r. Progress n c held s r out (k ∷ new))
              (sym (
                parse-whole f (bytes_left c s) e
                ∙ ap (λ bs. prepend ((proto, take (size - header_size) body) ∷ []) (parse f bs))
                    (bytes_left-after_packet c s size p k size_le)))
              (Progress-cons n c held s proto size (take (size - header_size) body) k p
                (parse f (bytes_left c (after_packet s size p k))) out new size_le
                (ap (λ (bs : List ℕ). (c.client_seq, c.client_fd, proto, bs)) a.body) a.keeps g),
        )
