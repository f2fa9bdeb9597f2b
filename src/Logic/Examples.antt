-- ===== src/Logic/Examples.antt =====
-- A server that has received one hello, with a message format that is its content: the reply is the
-- content and the two times.
use game_server.Prelude.{
  ℕ, ◌≡◌, refl, ap, true, false, ◌&&◌, leb, map, List, [], ◌∷◌, ◌++◌, arith, length, take,
}
use game_server.Prelude.Int.{pos}
use game_server.Memory.{new_pool, get_free_packet_memory, max_size, memory_at, get_buffer}
use game_server.Memory.Ownership.{Owned-new_pool, get_free_packet_memory-Owned}
use game_server.Packet.{NetPacket, net_packet, packet_body}
use game_server.Network.{new_context, packet_recv_prepare, copy_packets_from_net_to_logic}
use game_server.Logic.{
  Messages, LogicState, cs_hello_reply, is_thousandth, process_cs_network_packet,
  process_proxy_network_packet,
}
use game_server.Logic.Wakeup.{
  Shared, shared, Run, stay, go, unpacks, raises, checks, takes, raise, check, recv_prepared,
}
use game_server.Logic.Wakeup.Taken.{all_taken}
use game_server.Signal.{check_and_set_signal_actived}
use game_server.Queue.{copy_from}
use game_server.Logic.Answers.{answers, cs_answer, ss_answer, fits}
use game_server.Logic.Servers.{
  Processed, process_cs_network_packet-Processed, process_proxy_network_packet-Processed,
}

abbrev echo : Messages
echo = record {
  CsHello = List ℕ;
  parse_cs_hello = λ bytes. bytes;
  id = λ hello. pos 5;
  content = λ hello. hello;
  cs_hello_rsp = λ i content unpacked handled. content ++ unpacked ∷ handled ∷ [];
  ss_hello_rsp = λ now. now ∷ [];
}

thousandths : map is_thousandth (0 ∷ 1000 ∷ 1001 ∷ []) ≡ false ∷ true ∷ false ∷ []
unfolding is_thousandth
thousandths = refl

-- The packet holds the first memory of a pool of two.
abbrev hello_packet : ℕ → NetPacket
hello_packet proto = net_packet 70 3 (pos proto) 2 9 (get_free_packet_memory (new_pool 2)).0

abbrev received_one : ℕ → LogicState
received_one proto = record {
  has_server = true;
  pool = (get_free_packet_memory (new_pool 2)).1;
  network = record new_context {
    recv = record { packet_num = 1; packets = hello_packet proto ∷ [] };
    signal = true;
  };
  commands = [];
}

short : (bytes : List ℕ) → leb (length (take 2 bytes ++ 9 ∷ 0 ∷ [])) max_size ≡ true
short [] = refl
short (a ∷ []) = refl
short (a ∷ b ∷ bytes) = refl

cs_fits :
    fits (answers (cs_answer echo (λ i. i)) (received_one 1).pool 0 (hello_packet 1 ∷ [])) ≡ true
unfolding fits answers cs_answer cs_hello_reply packet_body
cs_fits =
    ap (λ b. b && true)
      (short (get_buffer (memory_at (received_one 1).pool (hello_packet 1).memory)))

ss_fits :
    fits (answers (ss_answer echo (λ i. i)) (received_one 20001).pool 0 (hello_packet 20001 ∷ []))
    ≡ true
unfolding fits answers ss_answer
ss_fits = refl

process_cs_network_packet-Processed_example :
    Processed 2
      (received_one 1)
      (hello_packet 1 ∷ [])
      []
      (answers (cs_answer echo (λ i. i)) (received_one 1).pool 0 (hello_packet 1 ∷ []))
      1
      (process_cs_network_packet echo (λ i. i) (received_one 1))
process_cs_network_packet-Processed_example =
    process_cs_network_packet-Processed echo (λ i. i) 2 (received_one 1) [] refl refl (omega arith)
      (get_free_packet_memory-Owned 2 (new_pool 2) [] (Owned-new_pool 2)) cs_fits

process_proxy_network_packet-Processed_example :
    Processed 2
      (received_one 20001)
      (hello_packet 20001 ∷ [])
      []
      (answers (ss_answer echo (λ i. i)) (received_one 20001).pool 0 (hello_packet 20001 ∷ []))
      1
      (process_proxy_network_packet echo (λ i. i) (received_one 20001))
process_proxy_network_packet-Processed_example =
    process_proxy_network_packet-Processed echo (λ i. i) 2 (received_one 20001) [] refl refl
      (omega arith) (get_free_packet_memory-Owned 2 (new_pool 2) [] (Owned-new_pool 2)) ss_fits

-- The network thread unpacks a packet and raises the signal; the logic thread sees it and takes the packet.
once : (s : Shared) × Run shared s
unfolding check check_and_set_signal_actived raise recv_prepared packet_recv_prepare
once =
    let s₁ = unpacks (hello_packet 1 ∷ []) shared refl in
    let s₂ = raises 1 _ refl in
    let s₃ = checks _ refl in (_, go (go (go (go (stay shared) s₁) s₂) s₃) (takes _ refl))

all_taken_example : once.0.taken ≡ once.0.unpacked
unfolding once raise check check_and_set_signal_actived recv_prepared packet_recv_prepare
    copy_packets_from_net_to_logic copy_from
all_taken_example = all_taken once.0 once.1 refl refl refl
