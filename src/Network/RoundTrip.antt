-- ===== src/Network/RoundTrip.antt =====
-- network/context.h, `UnpackPacketToRecvQueue`, on what a peer writes with `PackInt`: whole frames, and the
-- start of one that the network has cut.
use game_server.Prelude.{
  ℕ, suc, ◌+◌, ◌<◌, ◌≡◌, refl, ap, sym, subst, ◌∙◌, List, [], ◌++◌, append-nil, some, arith, length,
  length-take, take, drop, append-take-drop,
}
use game_server.Prelude.Int.{pos, signed16}
use game_server.Memory.{MemoryPool, MemoryRef}
use game_server.Memory.Ownership.{Owned}
use game_server.Packet.{NetPacket}
use game_server.Packet.{header_size}
use game_server.Queue.Laws.{IsCounted}
use game_server.Network.Buffer.{ClientBuffer, IsSized, pending}
use game_server.Network.Framing.{
  Head, incomplete, empty_body, oversized, whole, read_head, Parsed, finished, parse_all, prepend,
}
use game_server.Network.Framing.Heads.{whole-bounds, read_head-extend, extend}
use game_server.Network.Framing.Stream.{
  frame, frames, IsFrame, AllFrames, delivered, length-frame, read_head-framed, parse-incomplete,
  parse_all-frames, parse-fuel,
}
use game_server.Network.Unpack.{Delivered, unpack_packet_to_recv_queue-delivers}
use game_server.Network.{NetworkContext, unpack_packet_to_recv_queue}

-- A frame that is not there as a whole is incomplete.
read_head-cut :
    (m : ℕ × List ℕ) (k : ℕ)
    → IsFrame m
    → k < length (frame m)
    → read_head (length (take k (frame m))) (take k (frame m)) ≡ incomplete
read_head-cut m k v h = go (read_head (length a) a) refl
  where
    a : List ℕ
    a = take k (frame m)

    b : List ℕ
    b = drop k (frame m)

    full :
        read_head (length (a ++ b)) (a ++ b)
        ≡ whole (signed16 m.0) (length m.1 + header_size) (m.1 ++ [])
    full =
        ap (λ l. read_head (length l) l) (append-take-drop k (frame m) ∙ sym (append-nil (frame m)))
        ∙ read_head-framed m [] v

    go : (hd : Head) → read_head (length a) a ≡ hd → read_head (length a) a ≡ incomplete
    go incomplete e = e
    go empty_body e =
        absurd (cc (sym full ∙ read_head-extend a b (λ i. cc (sym e ∙ i)) ∙ ap (extend b) e))
    go oversized e =
        absurd (cc (sym full ∙ read_head-extend a b (λ i. cc (sym e ∙ i)) ∙ ap (extend b) e))
    go (whole proto size body) e =
        let bounds = whole-bounds (length a) a e in
        let same : size ≡ length m.1 + header_size =
          cc (sym full ∙ read_head-extend a b (λ i. cc (sym e ∙ i)) ∙ ap (extend b) e) in
        absurd (omega (arith, bounds.1, same, length-frame m, length-take k (frame m), h))

parse_all-cut :
    (m : ℕ × List ℕ) (k : ℕ)
    → IsFrame m
    → k < length (frame m)
    → parse_all (take k (frame m))
      ≡ record { status = finished; frames = []; rest = take k (frame m) }
unfolding parse_all
parse_all-cut m k v h =
    let a = take k (frame m) in
    parse-fuel (length a + 1) (suc (length a)) a (omega arith) (omega arith)
    ∙ parse-incomplete (length a) a (read_head-cut m k v h)

-- If a client's buffer holds frames that a peer wrote with `PackInt`, each with a number of 16 bits and a body
-- of 1 to 10240 bytes, and behind them the start of another such frame, then the call returns 0:
-- the receive queue has one more packet for each whole frame, in order, with its number and its body,
-- the start of the last one waits at the front of the buffer, and the signal is raised if there was a
-- whole frame.
pub unpack_packet_to_recv_queue-frames :
    (n : ℕ) (p : MemoryPool) (net : NetworkContext) (c : ClientBuffer) (held : List MemoryRef)
    (clock : ℕ → ℕ) (ms : List (ℕ × List ℕ)) (m : ℕ × List ℕ) (k : ℕ)
    → IsSized c
    → IsCounted net.recv
    → Owned n p held
    → AllFrames ms
    → IsFrame m
    → k < length (frame m)
    → pending c ≡ frames ms ++ take k (frame m)
    → (p' : MemoryPool) × (net' : NetworkContext) × (c' : ClientBuffer) × (new : List NetPacket)
      × (unpack_packet_to_recv_queue clock p net c ≡ some (pos 0, p', net', c'))
      × Delivered n p net c held
          (record { status = finished; frames = delivered ms; rest = take k (frame m) })
          p'
          net'
          c'
          new
unpack_packet_to_recv_queue-frames n p net c held clock ms m k z counted o all v h bytes =
    let parsed : parse_all (pending c)
        ≡ record { status = finished; frames = delivered ms; rest = take k (frame m) } =
      ap parse_all bytes
      ∙ parse_all-frames ms (take k (frame m)) all
      ∙ ap (prepend (delivered ms)) (parse_all-cut m k v h)
      ∙ ap (λ fs. record { status = finished; frames = fs; rest = take k (frame m) })
          (append-nil (delivered ms)) in
    let (p', net', c', new, run, d) =
      unpack_packet_to_recv_queue-delivers n p net c held clock z counted o
        (ap (λ (r : Parsed). r.status) parsed) in
    (p', net', c', new, run, subst (λ r. Delivered n p net c held r p' net' c' new) parsed d)
