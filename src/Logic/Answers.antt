-- ===== src/Logic/Answers.antt =====
-- service/gamesvr/net/handle.cpp: what the handlers answer, as a function of the packets, and that they
-- do so.
use game_server.Prelude.{
  ℕ, ◌+◌, ◌*◌, ◌≤◌, ◌≡◌, refl, sym, ap, ◌∙◌, List, [], ◌∷◌, ◌++◌, append-nil, Option, some, Bool,
  true, false, ◌&&◌, leb, if◌then◌else◌, length, take, take-all, arith,
}
use game_server.Prelude.Int.{ℤ, pos}
use game_server.Memory.{MemoryPool, MemoryRef, memory_at, max_size}
use game_server.Memory.Ownership.{Owned}
use game_server.Memory.Contents.{IsHeld}
use game_server.Packet.{NetPacket, packet_body}
use game_server.Queue.{NetPacketQueue}
use game_server.Queue.Ownership.{add_packet_lem, new_packet, memories_of}
use game_server.Network.{
  NetworkContext, packet_produce_protobuf_packet, produced, pack_protobuf_struct,
}
use game_server.Network.Receive.{View, views}
use game_server.Logic.{
  Messages, Handler, cs_hello, ss_hello, ss_hello_response, is_proto, cs_hello_reply,
  handle_cs_proto, handle_cs_proto_hello, handle_ss_proto, handle_ss_proto_hello,
}

-- The packets that answer the packet of an index: whom they are for, their number and their body.
abbrev pub Answer : Type 0
Answer = ℕ → NetPacket → List ℕ → List View

-- To a hello of a client: one packet, to the same client.
unfoldable pub cs_answer : Messages → (ℕ → ℕ) → Answer
cs_answer m clock i k body =
    if is_proto cs_hello k.proto_no
    then (k.client_seq, k.sock_fd, pos cs_hello, cs_hello_reply m clock i k body) ∷ []
    else []

-- To a hello of a server: its response.
unfoldable pub ss_answer : Messages → (ℕ → ℕ) → Answer
ss_answer m clock i k body =
    if is_proto ss_hello k.proto_no
    then (k.client_seq, k.sock_fd, pos ss_hello_response, m.ss_hello_rsp (clock (2 * i))) ∷ []
    else []

-- To packets from index i on
unfoldable pub answers : Answer → MemoryPool → ℕ → List NetPacket → List View
answers a p i [] = []
answers a p i (k ∷ ks) = a i k (packet_body p k) ++ answers a p (i + 1) ks

-- Whether each body fits in a packet memory.
unfoldable pub fits : List View → Bool
fits [] = true
fits ((seq, fd, proto, body) ∷ vs) = leb (length body) max_size && fits vs

-- The sizes in the packets' headers, and those of the bodies.
abbrev pub sizes : List NetPacket → List ℕ
sizes [] = []
sizes (k ∷ ks) = k.buffer_size ∷ sizes ks

abbrev pub body_sizes : List View → List ℕ
body_sizes [] = []
body_sizes ((seq, fd, proto, body) ∷ vs) = length body ∷ body_sizes vs

-- What a handler has done: it has put `new` behind the packets to be sent.
pub record Responded (n : ℕ) (p : MemoryPool) (c : NetworkContext) (held : List MemoryRef)
    (vs : List View) (result : Option (MemoryPool × NetworkContext)) : Type 0 where
  pub pool : MemoryPool
  pub queue : NetPacketQueue
  pub new : List NetPacket
  pub returned : result ≡ some (pool, record c { send_prepare = queue })
  pub packets : queue.packets ≡ c.send_prepare.packets ++ new
  pub seen : views pool new ≡ vs
  pub sized : sizes new ≡ body_sizes vs
  pub owned : Owned n pool (memories_of new ++ held)
  pub keeps : (m : MemoryRef) → IsHeld m held → memory_at pool m ≡ memory_at p m

abbrev pub Responds : Handler → Answer → Type 0
Responds handle a =
    (n i : ℕ) (k : NetPacket) (p : MemoryPool) (c : NetworkContext) (held : List MemoryRef)
    → Owned n p held
    → fits (a i k (packet_body p k)) ≡ true
    → Responded n p c held (a i k (packet_body p k)) (handle i k p c)

silent :
    (n : ℕ) (p : MemoryPool) (c : NetworkContext) (held : List MemoryRef)
    → Owned n p held
    → Responded n p c held [] (some (p, c))
silent n p c held o = record {
  pool = p;
  queue = c.send_prepare;
  new = [];
  returned = refl;
  packets = sym (append-nil c.send_prepare.packets);
  seen = refl;
  sized = refl;
  owned = o;
  keeps = λ m i. refl;
}

-- A reply that is serialised to at most `max_size` bytes is queued whole.
produces :
    (n : ℕ) (p : MemoryPool) (c : NetworkContext) (held : List MemoryRef) (seq fd : ℕ) (proto : ℤ)
    (body : List ℕ) (now : ℕ)
    → Owned n p held
    → length body ≤ max_size
    → Responded n p c held
        ((seq, fd, proto, body) ∷ [])
        (packet_produce_protobuf_packet p c seq fd proto body now)
unfolding packet_produce_protobuf_packet produced
produces n p c held seq fd proto body now o h =
    let size = length body in
    let buffer = (pack_protobuf_struct size size body).0 in
    let packed : buffer ≡ body =
      unfold pack_protobuf_struct in ground (arith, take-all size body (omega arith)) in
    let (p', e, a) =
      add_packet_lem n p held c.send_prepare seq fd proto size buffer now o h
        (omega (arith, ap length packed)) in
    let k = new_packet p seq fd proto size now in
    record {
      pool = p';
      queue = record {
        packet_num = c.send_prepare.packet_num + 1;
        packets = c.send_prepare.packets ++ k ∷ [];
      };
      new = k ∷ [];
      returned = rw e;
      packets = refl;
      seen =
          ap (λ b. (seq, fd, proto, b) ∷ [])
            (a.body ∙ ap (take size) packed ∙ take-all size body (omega arith));
      sized = refl;
      owned = a.owned;
      keeps = a.keeps;
    }

-- A `switch` with one case that answers
one_case :
    (b : Bool) (n : ℕ) (p : MemoryPool) (c : NetworkContext) (held : List MemoryRef) (seq fd : ℕ)
    (proto : ℤ) (body : List ℕ) (now : ℕ)
    → Owned n p held
    → fits (if b then (seq, fd, proto, body) ∷ [] else []) ≡ true
    → Responded n p c held
        (if b then (seq, fd, proto, body) ∷ [] else [])
        (if b then packet_produce_protobuf_packet p c seq fd proto body now else some (p, c))
unfolding fits
one_case true n p c held seq fd proto body now o h =
    produces n p c held seq fd proto body now o (ground arith)
one_case false n p c held seq fd proto body now o h = silent n p c held o

-- The handlers answer so.
pub handle_cs_proto-Responds :
    (m : Messages) (clock : ℕ → ℕ) → Responds (handle_cs_proto m clock) (cs_answer m clock)
unfolding handle_cs_proto handle_cs_proto_hello cs_answer
handle_cs_proto-Responds m clock n i k p c held o h =
    one_case (is_proto cs_hello k.proto_no) n p c held k.client_seq k.sock_fd (pos cs_hello)
      (cs_hello_reply m clock i k (packet_body p k)) (clock (2 * i + 1)) o h

pub handle_ss_proto-Responds :
    (m : Messages) (clock : ℕ → ℕ) → Responds (handle_ss_proto m clock) (ss_answer m clock)
unfolding handle_ss_proto handle_ss_proto_hello ss_answer
handle_ss_proto-Responds m clock n i k p c held o h =
    one_case (is_proto ss_hello k.proto_no) n p c held k.client_seq k.sock_fd
      (pos ss_hello_response) (m.ss_hello_rsp (clock (2 * i))) (clock (2 * i + 1)) o h
