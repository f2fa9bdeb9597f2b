-- ===== src/Logic/Replies/Handled.antt =====
-- service/gamesvr/gamelogic.cpp, `_ProcessCSNetworkPacket` where nothing waits to be sent, whether or not
-- the signal is set.
use game_server.Prelude.{
  ℕ, ◌≡◌, refl, sym, ap, ap₂, ◌∙◌, subst, inl, inr, List, [], ◌++◌, length, Option, some, true,
  false, Bool-cases, arith,
}
use game_server.Memory.{MemoryRef, memory_at}
use game_server.Memory.Ownership.{Owned}
use game_server.Memory.Contents.{IsHeld}
use game_server.Packet.{NetPacket}
use game_server.Queue.{NetPacketQueue}
use game_server.Queue.Ownership.{memories_of}
use game_server.Network.Receive.{View, views}
use game_server.Signal.{check_and_set_signal_actived}
use game_server.Logic.{Messages, LogicState, process_network_packet, process_cs_network_packet}
use game_server.Logic.Answers.{answers, cs_answer, fits, sizes, body_sizes}
use game_server.Logic.Servers.{process_cs_network_packet-Processed}

-- What the logic thread has done where nothing waited to be sent, whether there was a signal or not.
pub record Handled (n : ℕ) (s : LogicState) (held : List MemoryRef) (vs : List View)
    (result : Option (ℕ × LogicState)) : Type 0 where
  pub count : ℕ
  pub after : LogicState
  pub new : List NetPacket
  pub returned : result ≡ some (count, after)
  pub sent : after.network.send.packets ≡ new
  pub send_prepare : after.network.send_prepare.packets ≡ []
  pub recv : after.network.recv.packets ≡ []
  pub others :
      (after.network.recv_prepare ≡ s.network.recv_prepare)
      × (after.network.send_cache ≡ s.network.send_cache)
  pub seen : views after.pool new ≡ vs
  pub sized : sizes new ≡ body_sizes vs
  pub owned : Owned n after.pool (memories_of new ++ held)
  pub keeps : (m : MemoryRef) → IsHeld m held → memory_at after.pool m ≡ memory_at s.pool m

module _ (m : Messages) (clock : ℕ → ℕ) (n : ℕ) (s : LogicState) (held : List MemoryRef)
    (server : s.has_server ≡ true) (send : s.network.send.packets ≡ [])
    (prepare : s.network.send_prepare.packets ≡ [])
    (o : Owned n s.pool (memories_of s.network.recv.packets ++ held)) where
  signalled :
      s.network.signal ≡ true
      → fits (answers (cs_answer m clock) s.pool 0 s.network.recv.packets) ≡ true
      → Handled n s held
          (answers (cs_answer m clock) s.pool 0 s.network.recv.packets)
          (process_cs_network_packet m clock s)
  signalled active f =
      let p =
        process_cs_network_packet-Processed m clock n s held server active
          (omega (arith, ap length send)) o f in
      record {
        count = length s.network.recv.packets;
        after = p.after;
        new = p.new;
        returned = p.returned;
        sent = p.sent ∙ ap₂ (λ ks ls. (ks ++ ls) ++ p.new) send prepare;
        send_prepare = ap (λ (q : NetPacketQueue). q.packets) p.send_prepare;
        recv = ap (λ (q : NetPacketQueue). q.packets) p.recv;
        others = p.others;
        seen = p.seen;
        sized = p.sized;
        owned = p.owned;
        keeps = p.keeps;
      }

  unsignalled :
      s.network.signal ≡ false
      → s.network.recv.packets ≡ []
      → Handled n s held
          (answers (cs_answer m clock) s.pool 0 s.network.recv.packets)
          (process_cs_network_packet m clock s)
  unfolding process_cs_network_packet process_network_packet check_and_set_signal_actived answers
  unsignalled down none_received = record {
    count = 0;
    after = record s { network = record s.network { signal = false } };
    new = [];
    returned = rw down refl;
    sent = send;
    send_prepare = prepare;
    recv = none_received;
    others = (refl, refl);
    seen = ap (λ ks. answers (cs_answer m clock) s.pool 0 ks) (sym none_received);
    sized = ap (λ ks. body_sizes (answers (cs_answer m clock) s.pool 0 ks)) (sym none_received);
    owned = subst (λ ks. Owned n s.pool (memories_of ks ++ held)) none_received o;
    keeps = λ r i. refl;
  }

  pub handled :
      (s.network.signal ≡ false → s.network.recv.packets ≡ [])
      → fits (answers (cs_answer m clock) s.pool 0 s.network.recv.packets) ≡ true
      → Handled n s held
          (answers (cs_answer m clock) s.pool 0 s.network.recv.packets)
          (process_cs_network_packet m clock s)
  handled noticed f = elim (Bool-cases s.network.signal) [
    | inl active ↦ signalled active f
    | inr down ↦ unsignalled down (noticed down)
  ]
