-- ===== src/Logic/Servers.antt =====
-- service/gamesvr/gamelogic.cpp, `_ProcessCSNetworkPacket`, and `_ProcessSSNetworkPacket` for the proxy
-- server, as a whole.
use game_server.Prelude.{
  ℕ, zero, suc, ◌+◌, ◌-◌, ◌/◌, ◌<◌, ◌≡◌, refl, sym, ap, subst, ◌∙◌, List, [], ◌∷◌, ◌++◌,
  append_assoc, Option, some, Bool, true, false, ◌==◌, if◌then◌else◌, length, replicate, arith,
}
use game_server.Memory.{MemoryPool, MemoryRef, memory_at}
use game_server.Memory.Ownership.{Owned}
use game_server.Memory.Contents.{IsHeld}
use game_server.Packet.{NetPacket}
use game_server.Queue
use game_server.Queue.{NetPacketQueue, release_all_packets}
use game_server.Queue.Laws.{IsCounted}
use game_server.Queue.Ownership.{
  memories_of, release_all_packets-Owned, IsHeld-append, IsHeld-append_left,
}
use game_server.Network.{copy_packets_from_net_to_logic}
use game_server.Network.Receive.{View, views}
use game_server.Network.Views.{views-same, Owned-swap}
use game_server.Connector.Commands.{send_all}
use game_server.Signal.{check_and_set_signal_actived}
use game_server.Logic.{
  Messages, Handler, LogicState, packets_sent, send_network_packets, is_thousandth, never,
  handle_cs_proto, handle_ss_proto, release_logic, process_packets, process_network_packet_handle,
  process_signalled, process_network_packet, process_cs_network_packet,
  process_proxy_network_packet,
}
use game_server.Logic.Answers.{
  Answer, answers, cs_answer, ss_answer, fits, sizes, body_sizes, Responds,
  handle_cs_proto-Responds, handle_ss_proto-Responds,
}
use game_server.Logic.Loop.{process_packets-Replied}
use game_server.Logic.Packets.{
  outgoing, flushes, replicate-add, packets_sent_lem, packets_sent-Handed,
}

-- What the call has done with the packets `ks` that were received: `new` answer them.
pub record Processed (n : ℕ) (s : LogicState) (ks : List NetPacket) (held : List MemoryRef)
    (vs : List View) (sends : ℕ) (result : Option (ℕ × LogicState)) : Type 0 where
  pub after : LogicState
  pub new : List NetPacket
  pub returned : result ≡ some (length ks, after)
  pub server : after.has_server ≡ true
  pub signal : after.network.signal ≡ false
  pub recv : after.network.recv ≡ Queue.init
  pub logic : after.network.logic.packets ≡ []
  pub sent : after.network.send.packets ≡ outgoing s.network ++ new
  pub send_prepare : after.network.send_prepare ≡ Queue.init
  pub others :
      (after.network.recv_prepare ≡ s.network.recv_prepare)
      × (after.network.send_cache ≡ s.network.send_cache)
  pub commands : after.commands ≡ s.commands ++ replicate sends send_all
  pub seen : views after.pool new ≡ vs
  pub sized : sizes new ≡ body_sizes vs
  pub owned : Owned n after.pool (memories_of new ++ held)
  pub keeps : (m : MemoryRef) → IsHeld m held → memory_at after.pool m ≡ memory_at s.pool m

self : (n : ℕ) → (n == n) ≡ true
self n = ground arith

-- The context when the signal was seen and the packets were taken over
abbrev pub taken_over : LogicState → LogicState
taken_over s = record s {
  network = record s.network {
    signal = false;
    logic = record { packet_num = length s.network.recv.packets; packets = s.network.recv.packets };
    recv = Queue.init;
  };
}

process_network_packet-eq :
    (handle : Handler) (flush : ℕ → Bool) (s s' : LogicState)
    → s.network.signal ≡ true
    → s'.has_server ≡ true
    → process_packets handle flush (length s.network.recv.packets) 0 (taken_over s) ≡ some s'
    → process_network_packet handle flush s
      ≡ some (length s.network.recv.packets, release_logic (packets_sent s'))
unfolding process_network_packet process_signalled check_and_set_signal_actived
    copy_packets_from_net_to_logic Queue.copy_from process_network_packet_handle
    send_network_packets
process_network_packet-eq handle flush s s' active server e =
    ap
      (λ b.
        if b
        then process_signalled handle flush
            (record s { network = record s.network { signal = false } })
        else some (0, record s { network = record s.network { signal = false } }))
      active
    ∙ rw (self (length s.network.recv.packets)) (rw e (rw server refl))

module _ (handle : Handler) (a : Answer) (law : Responds handle a) (flush : ℕ → Bool) (n : ℕ) where
  -- With the server started and the signal set, the packets that were received are answered.
  process_network_packet-Processed :
      (s : LogicState) (held : List MemoryRef)
      → s.has_server ≡ true
      → s.network.signal ≡ true
      → IsCounted s.network.send
      → Owned n s.pool (memories_of s.network.recv.packets ++ held)
      → fits (answers a s.pool 0 s.network.recv.packets) ≡ true
      → Processed n s s.network.recv.packets held
          (answers a s.pool 0 s.network.recv.packets)
          (flushes flush 0 (length s.network.recv.packets) + 1)
          (process_network_packet handle flush s)
  unfolding release_logic
  process_network_packet-Processed s held server active counted o f =
      let ks = s.network.recv.packets in
      let r =
        process_packets-Replied handle a law flush n 0 [] ks (taken_over s) (memories_of ks ++ held)
          refl refl (λ m i. IsHeld-append_left m (memories_of ks) held i) server counted o f in
      let s₁ = packets_sent r.after in
      let d = packets_sent-Handed r.after r.counted in
      let (sent, emptied) = packets_sent_lem r.after r.counted in
      let logic : s₁.network.logic.packets ≡ ks =
        ap (λ (q : NetPacketQueue). q.packets) (d.kept.2 ∙ r.kept.2) in
      let all : Owned n s₁.pool
          (memories_of s₁.network.logic.packets ++ (memories_of r.new ++ held)) =
        subst
          (λ (l : List NetPacket). Owned n s₁.pool (memories_of l ++ (memories_of r.new ++ held)))
          (sym logic)
          (subst (λ (p : MemoryPool). Owned n p (memories_of ks ++ (memories_of r.new ++ held)))
            (sym d.pool)
            (subst (Owned n r.after.pool) (append_assoc (memories_of ks) (memories_of r.new) held)
              (Owned-swap n r.after.pool (memories_of ks) (memories_of r.new) held r.owned))) in
      let (o', empty, num, keeps) =
        release_all_packets-Owned n s₁.pool s₁.network.logic (memories_of r.new ++ held) all in
      let still : (m : MemoryRef)
          → IsHeld m (memories_of r.new ++ held)
          → memory_at (release_logic s₁).pool m ≡ memory_at r.after.pool m =
        λ m i. keeps m i ∙ ap (λ (p : MemoryPool). memory_at p m) d.pool in
      record {
        after = release_logic s₁;
        new = r.new;
        returned =
            process_network_packet-eq handle flush s r.after active (r.server ∙ server) r.returned;
        server = d.server ∙ r.server ∙ server;
        signal = d.kept.4 ∙ r.kept.4;
        recv = d.kept.1 ∙ r.kept.1;
        logic = empty;
        sent = sent ∙ r.queued;
        send_prepare = emptied;
        others = (d.kept.0 ∙ r.kept.0, d.kept.3 ∙ r.kept.3);
        commands =
            d.commands
            ∙ ap (◌++ send_all ∷ []) r.commands
            ∙ append_assoc s.commands (replicate (flushes flush 0 (length ks)) send_all)
                (send_all ∷ [])
            ∙ ap (◌++◌ s.commands) (sym (replicate-add (flushes flush 0 (length ks)) 1 send_all));
        seen =
            views-same r.after.pool (release_logic s₁).pool r.new
              (λ m i. still m (IsHeld-append_left m (memories_of r.new) held i))
            ∙ r.seen;
        sized = r.sized;
        owned = o';
        keeps = λ m i.
            still m (IsHeld-append m (memories_of r.new) held i)
            ∙ r.keeps m (IsHeld-append m (memories_of ks) held i);
      }

flushes-later :
    (i left : ℕ) → 0 < i → flushes is_thousandth i left ≡ (i + left - 1) / 1000 - (i - 1) / 1000
unfolding flushes is_thousandth
flushes-later i zero h = omega arith
flushes-later i (suc left) h = ground (arith, flushes-later (i + 1) left (omega arith))

flushes-thousandths : (left : ℕ) → flushes is_thousandth 0 left ≡ (left - 1) / 1000
unfolding flushes is_thousandth
flushes-thousandths zero = refl
flushes-thousandths (suc left) = omega (arith, flushes-later 1 left (omega arith))

flushes-never : (i left : ℕ) → flushes never i left ≡ 0
unfolding flushes
flushes-never i zero = refl
flushes-never i (suc left) = omega (arith, flushes-never (i + 1) left)

-- With the server started, the signal set, and where each reply is serialised to at most `max_size` bytes,
-- `_ProcessCSNetworkPacket` returns the number of packets received. It clears the signal, takes all packets
-- out of the receive queue and gives their memories back; it answers each hello of a client with one
-- packet for this client, and no other packet, in the order in which they came; the answers, each
-- in a memory of its own, stand behind what was to be sent before; and it sends one command at the end and
-- one behind each packet whose index is a positive multiple of 1000. What others hold keeps its bytes.
pub process_cs_network_packet-Processed :
    (m : Messages) (clock : ℕ → ℕ) (n : ℕ) (s : LogicState) (held : List MemoryRef)
    → s.has_server ≡ true
    → s.network.signal ≡ true
    → IsCounted s.network.send
    → Owned n s.pool (memories_of s.network.recv.packets ++ held)
    → fits (answers (cs_answer m clock) s.pool 0 s.network.recv.packets) ≡ true
    → Processed n s s.network.recv.packets held
        (answers (cs_answer m clock) s.pool 0 s.network.recv.packets)
        ((length s.network.recv.packets - 1) / 1000 + 1)
        (process_cs_network_packet m clock s)
unfolding process_cs_network_packet
process_cs_network_packet-Processed m clock n s held server active counted o f =
    subst
      (λ sends.
        Processed n s s.network.recv.packets held
          (answers (cs_answer m clock) s.pool 0 s.network.recv.packets) (sends + 1)
          (process_cs_network_packet m clock s))
      (flushes-thousandths (length s.network.recv.packets))
      (process_network_packet-Processed (handle_cs_proto m clock) (cs_answer m clock)
        (handle_cs_proto-Responds m clock) is_thousandth n s held server active counted o f)

-- With the server started, the signal set, and where each reply is serialised to at most `max_size` bytes,
-- the proxy server's call does the same with the hellos of other servers, and sends one command.
pub process_proxy_network_packet-Processed :
    (m : Messages) (clock : ℕ → ℕ) (n : ℕ) (s : LogicState) (held : List MemoryRef)
    → s.has_server ≡ true
    → s.network.signal ≡ true
    → IsCounted s.network.send
    → Owned n s.pool (memories_of s.network.recv.packets ++ held)
    → fits (answers (ss_answer m clock) s.pool 0 s.network.recv.packets) ≡ true
    → Processed n s s.network.recv.packets held
        (answers (ss_answer m clock) s.pool 0 s.network.recv.packets)
        1
        (process_proxy_network_packet m clock s)
unfolding process_proxy_network_packet
process_proxy_network_packet-Processed m clock n s held server active counted o f =
    subst
      (λ sends.
        Processed n s s.network.recv.packets held
          (answers (ss_answer m clock) s.pool 0 s.network.recv.packets) (sends + 1)
          (process_proxy_network_packet m clock s))
      (flushes-never 0 (length s.network.recv.packets))
      (process_network_packet-Processed (handle_ss_proto m clock) (ss_answer m clock)
        (handle_ss_proto-Responds m clock) never n s held server active counted o f)
