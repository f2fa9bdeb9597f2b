-- ===== src/Server/Sending.antt =====
-- network/context.h, `ExecuteCmdSendAllPacket`: what is sent, one packet after the other, and what the
-- looks at the send queue find.
use game_server.Prelude.{
  ℕ, ◌+◌, ◌∙◌, ap, ◌≡◌, refl, List, [], ◌∷◌, ◌++◌, Option, some, ◌>>=◌, length, take, arith, ◌⊎◌,
}
use game_server.Memory.{MemoryPool, MemoryRef, memory_at, get_buffer}
use game_server.Memory.Ownership.{Owned}
use game_server.Memory.Contents.{IsHeld}
use game_server.Packet.{NetPacket, packet_body}
use game_server.Queue
use game_server.Queue.{NetPacketQueue, copy_from, release_all_packets}
use game_server.Queue.Laws.{copy_from_lem}
use game_server.Queue.Ownership.{memories_of, IsHeld-cons_self, IsHeld-cons}
use game_server.Network.{NetworkContext, packet_send_prepare, packet_send_prepare_cache}
use game_server.Server.{Sent, Sender, SendState, send_packets, arrive, look}

-- What a packet sends, by its fields, its body and its place among what is sent.
abbrev pub Output : Type 0
Output = NetPacket → List ℕ → ℕ → List Sent

abbrev pub Sends : Sender → Output → Type 0
Sends send w =
    (p : MemoryPool) (k : NetPacket) (sent : List Sent)
    → send p k sent ≡ some (sent ++ w k (packet_body p k) (length sent))

-- What packets send, one after the other, behind what was sent before.
unfoldable pub all_sent : Output → MemoryPool → List NetPacket → List Sent → List Sent
all_sent w p [] sent = sent
all_sent w p (k ∷ ks) sent = all_sent w p ks (sent ++ w k (packet_body p k) (length sent))

pub all_sent-append :
    (w : Output) (p : MemoryPool) (ks ls : List NetPacket) (sent : List Sent)
    → all_sent w p (ks ++ ls) sent ≡ all_sent w p ls (all_sent w p ks sent)
unfolding all_sent
all_sent-append w p [] ls sent = refl
all_sent-append w p (k ∷ ks) ls sent =
    all_sent-append w p ks ls (sent ++ w k (packet_body p k) (length sent))

-- Two pools with the same bytes for the packets
pub all_sent-same :
    (w : Output) (p p' : MemoryPool) (ks : List NetPacket) (sent : List Sent)
    → ((s : MemoryRef) → IsHeld s (memories_of ks) → memory_at p' s ≡ memory_at p s)
    → all_sent w p' ks sent ≡ all_sent w p ks sent
unfolding all_sent packet_body
all_sent-same w p p' [] sent h = refl
all_sent-same w p p' (k ∷ ks) sent h =
    ap (λ m. all_sent w p' ks (sent ++ w k (take k.buffer_size (get_buffer m)) (length sent)))
      (h k.memory (IsHeld-cons_self k.memory (memories_of ks)))
    ∙ all_sent-same w p p' ks (sent ++ w k (packet_body p k) (length sent))
        (λ s i. h s (IsHeld-cons s k.memory (memories_of ks) i))

pub send_packets-eq :
    (send : Sender) (w : Output)
    → Sends send w
    → (p : MemoryPool) (ks : List NetPacket) (sent : List Sent)
    → send_packets send p ks sent ≡ some (all_sent w p ks sent)
unfolding send_packets all_sent
send_packets-eq send w h p [] sent = refl
send_packets-eq send w h p (k ∷ ks) sent =
    ap (λ o. o >>= send_packets send p ks) (h p k sent)
    ∙ send_packets-eq send w h p ks (sent ++ w k (packet_body p k) (length sent))

-- Packets that a look finds, with what later looks find if there are any.
abbrev pub found_with : List NetPacket → List NetPacket → List NetPacket
found_with [] later = []
found_with (k ∷ ks) later = (k ∷ ks) ++ later

-- The packets that arrive while the loop looks: up to the first look that finds none. The first time, those
-- that the logic thread had added before are among them.
unfoldable pub taken : List NetPacket → List (List NetPacket) → List NetPacket
taken waiting [] = []
taken waiting (ks ∷ later) = let rest = taken [] later in found_with (waiting ++ ks) rest

-- What the logic thread had prepared is as it was, or was all moved to the send queue.
abbrev pub IsPrepared : NetworkContext → NetworkContext → Type 0
IsPrepared c c' = (c'.send_prepare ≡ c.send_prepare) ⊎ (c'.send_prepare ≡ Queue.init)

-- What the loop has done: `ks` were in the cache when it began.
pub record AllSent (n : ℕ) (w : Output) (s : SendState) (ks : List NetPacket)
    (held : List MemoryRef) (result : Option (ℕ × SendState)) : Type 0 where
  pub after : SendState
  pub returned : result ≡ some (0, after)
  pub sent : after.sent ≡ all_sent w s.pool ks s.sent
  pub owned : Owned n after.pool held
  pub keeps : (m : MemoryRef) → IsHeld m held → memory_at after.pool m ≡ memory_at s.pool m
  pub cache_empty : after.network.send_cache.packets ≡ []
  pub send_empty : after.network.send ≡ Queue.init
  pub prepared : IsPrepared s.network after.network
  pub others :
      (after.network.recv_prepare ≡ s.network.recv_prepare)
      × (after.network.recv ≡ s.network.recv)
      × (after.network.logic ≡ s.network.logic)
      × (after.network.signal ≡ s.network.signal)

-- `PacketSendPrepareCache` behind `ReleaseAllPackets`: all that is in the send queue.
pub refill :
    (c : NetworkContext)
    → c.send_cache.packets ≡ []
    → let (total, c') = packet_send_prepare_cache c in
      (c'.send_cache.packets ≡ c.send.packets)
      × (total ≡ length c.send.packets)
      × (c'.send ≡ Queue.init)
unfolding packet_send_prepare_cache
refill c e =
    let l = copy_from_lem c.send_cache c.send (omega (arith, ap length e)) in
    (l.0 ∙ ap (◌++ c.send.packets) e, l.2 ∙ l.1 ∙ omega (arith, ap length e), l.3)

pub look-refill :
    (s : SendState) (c : NetworkContext)
    → c.send_cache.packets ≡ []
    → ((look s c).1.network.send_cache.packets ≡ c.send.packets)
      × ((look s c).1.network.send ≡ Queue.init)
      × ((look s c).1.pool ≡ s.pool)
unfolding look
look-refill s c e = ((refill c e).0, (refill c e).2, refl)

-- What arrives stands in the send queue.
pub arrive-send :
    (ks : List NetPacket) (c : NetworkContext)
    → c.send ≡ Queue.init
    → (arrive ks c).send.packets ≡ c.send_prepare.packets ++ ks
unfolding arrive packet_send_prepare
arrive-send ks c e =
    let all : NetPacketQueue = record {
      packet_num = c.send_prepare.packet_num + length ks;
      packets = c.send_prepare.packets ++ ks;
    } in
    (copy_from_lem c.send all (omega (arith, ap (λ (q : NetPacketQueue). length q.packets) e))).0
    ∙ ap (λ (q : NetPacketQueue). q.packets ++ (c.send_prepare.packets ++ ks)) e
