-- ===== src/Logic/Packets.antt =====
-- service/gamesvr/gamelogic.cpp, the loop of `_ProcessCSNetworkPacketHandle` and
-- `_ProcessSSNetworkPacketHandle`: what it has done, and the lemmas on its parts.
use game_server.Prelude.{
  ℕ, zero, suc, ◌+◌, ◌≡◌, refl, sym, ap, ap₂, ◌∙◌, List, [], ◌∷◌, ◌++◌, append-nil, Option, some,
  Bool, true, false, if◌then◌else◌, length, length-append, take, get_elem?, replicate, arith,
}
use game_server.Memory.{MemoryPool, MemoryRef, memory_at, get_buffer}
use game_server.Memory.Ownership.{Owned}
use game_server.Memory.Contents.{IsHeld}
use game_server.Packet.{NetPacket, packet_body}
use game_server.Queue
use game_server.Queue.{NetPacketQueue}
use game_server.Queue.Laws.{IsCounted, copy_from_lem}
use game_server.Queue.Ownership.{memories_of, IsHeld-cons, IsHeld-cons_self}
use game_server.Network.{NetworkContext, packet_send_prepare}
use game_server.Network.Receive.{View, views}
use game_server.Connector.Commands.{send_all}
use game_server.Logic.{LogicState, packets_sent}
use game_server.Logic.Answers.{Answer, answers, fits, sizes, body_sizes}

-- All packets that wait to be sent, in order
abbrev pub outgoing : NetworkContext → List NetPacket
outgoing c = c.send.packets ++ c.send_prepare.packets

-- The queues that the loop does not touch, and the signal
abbrev pub AreKept : NetworkContext → NetworkContext → Type 0
AreKept c c' =
    (c'.recv_prepare ≡ c.recv_prepare)
    × (c'.recv ≡ c.recv)
    × (c'.logic ≡ c.logic)
    × (c'.send_cache ≡ c.send_cache)
    × (c'.signal ≡ c.signal)

-- How often the test behind a packet holds, from index i on.
unfoldable pub flushes : (ℕ → Bool) → ℕ → ℕ → ℕ
flushes flush i zero = 0
flushes flush i (suc left) = (if flush i then 1 else 0) + flushes flush (i + 1) left

-- What the loop has done: it has put `new` behind the packets to be sent.
pub record Replied (n : ℕ) (s : LogicState) (held : List MemoryRef) (vs : List View) (sends : ℕ)
    (result : Option LogicState) : Type 0 where
  pub after : LogicState
  pub new : List NetPacket
  pub returned : result ≡ some after
  pub server : after.has_server ≡ s.has_server
  pub queued : outgoing after.network ≡ outgoing s.network ++ new
  pub counted : IsCounted after.network.send
  pub kept : AreKept s.network after.network
  pub commands : after.commands ≡ s.commands ++ replicate sends send_all
  pub seen : views after.pool new ≡ vs
  pub sized : sizes new ≡ body_sizes vs
  pub owned : Owned n after.pool (memories_of new ++ held)
  pub keeps : (m : MemoryRef) → IsHeld m held → memory_at after.pool m ≡ memory_at s.pool m

-- Sending moves the packets to the send queue.
pub record Handed (s s' : LogicState) (sends : ℕ) : Type 0 where
  pub server : s'.has_server ≡ s.has_server
  pub pool : s'.pool ≡ s.pool
  pub queued : outgoing s'.network ≡ outgoing s.network
  pub counted : IsCounted s'.network.send
  pub kept : AreKept s.network s'.network
  pub commands : s'.commands ≡ s.commands ++ replicate sends send_all

pub packets_sent-Handed : (s : LogicState) → IsCounted s.network.send → Handed s (packets_sent s) 1
unfolding packets_sent packet_send_prepare
packets_sent-Handed s counted =
    let l = copy_from_lem s.network.send s.network.send_prepare counted in
    record {
      server = refl;
      pool = refl;
      queued =
          ap₂ ◌++◌ l.0 (ap (λ (q : NetPacketQueue). q.packets) l.3)
          ∙ append-nil (outgoing s.network);
      counted = omega (
        arith,
        l.1,
        l.2,
        ap length l.0,
        length-append s.network.send.packets s.network.send_prepare.packets,
      );
      kept = (refl, refl, refl, refl, refl);
      commands = refl;
    }

pub packets_sent_lem :
    (s : LogicState)
    → IsCounted s.network.send
    → ((packets_sent s).network.send.packets ≡ outgoing s.network)
      × ((packets_sent s).network.send_prepare ≡ Queue.init)
unfolding packets_sent packet_send_prepare
packets_sent_lem s counted =
    let l = copy_from_lem s.network.send s.network.send_prepare counted in (l.0, l.3)

pub flushed :
    (b : Bool) (s : LogicState)
    → IsCounted s.network.send
    → Handed s (if b then packets_sent s else s) (if b then 1 else 0)
flushed true s counted = packets_sent-Handed s counted
flushed false s counted = record {
  server = refl;
  pool = refl;
  queued = refl;
  counted = counted;
  kept = (refl, refl, refl, refl, refl);
  commands = sym (append-nil s.commands);
}

pub get_elem?-behind :
    (done : List NetPacket) (k : NetPacket) (ks : List NetPacket)
    → get_elem? (done ++ k ∷ ks) (length done) ≡ some k
get_elem?-behind [] k ks = refl
get_elem?-behind (d ∷ done) k ks = get_elem?-behind done k ks

pub replicate-add : (m n a : ℕ) → replicate (m + n) a ≡ replicate m a ++ replicate n a
replicate-add zero n a = ap (λ (l : ℕ). replicate l a) (omega arith)
replicate-add (suc m) n a =
    let e : suc m + n ≡ suc (m + n) = omega arith in
    ap (λ (l : ℕ). replicate l a) e ∙ ap (◌∷◌ a) (replicate-add m n a)

pub fits-append : (vs ws : List View) → fits (vs ++ ws) ≡ true → (fits vs ≡ true) × (fits ws ≡ true)
unfolding fits
fits-append [] ws h = (refl, h)
fits-append ((seq, fd, proto, body) ∷ vs) ws h = ground (arith, fits-append vs ws)

-- Answers depend on the bodies only.
pub answers-same :
    (a : Answer) (p p' : MemoryPool) (i : ℕ) (ks : List NetPacket)
    → ((m : MemoryRef) → IsHeld m (memories_of ks) → memory_at p' m ≡ memory_at p m)
    → answers a p' i ks ≡ answers a p i ks
unfolding answers packet_body
answers-same a p p' i [] h = refl
answers-same a p p' i (k ∷ ks) h =
    ap₂ ◌++◌
      (ap (λ m. a i k (take k.buffer_size (get_buffer m)))
        (h k.memory (IsHeld-cons_self k.memory (memories_of ks))))
      (answers-same a p p' (i + 1) ks (λ m j. h m (IsHeld-cons m k.memory (memories_of ks) j)))

pub sizes-append : (ks ls : List NetPacket) → sizes (ks ++ ls) ≡ sizes ks ++ sizes ls
sizes-append [] ls = refl
sizes-append (k ∷ ks) ls = ap (◌∷◌ k.buffer_size) (sizes-append ks ls)

pub body_sizes-append : (vs ws : List View) → body_sizes (vs ++ ws) ≡ body_sizes vs ++ body_sizes ws
body_sizes-append [] ws = refl
body_sizes-append ((seq, fd, proto, body) ∷ vs) ws =
    ap (◌∷◌ (length body)) (body_sizes-append vs ws)
