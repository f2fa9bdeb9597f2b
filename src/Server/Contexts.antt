-- ===== src/Server/Contexts.antt =====
-- network/context.h: `ExecuteCmdSendAllPacket` of `ServerContext`, which sends each packet to the client
-- that it is for, and of `ConnectorContext`, which sends all to the server.
use game_server.Prelude.{
  ℕ, ◌-◌, ◌^◌, ap, sym, ◌≡◌, refl, List, [], ◌∷◌, ◌++◌, append-nil, Option, Option-cases, none,
  some, inl, inr,
}
use game_server.Memory.{MemoryRef}
use game_server.Memory.Ownership.{Owned}
use game_server.Packet.{NetPacket, packet_buffer_send, prepare_header, prepare_tail}
use game_server.Queue.Laws.{IsCounted}
use game_server.Queue.Ownership.{memories_of}
use game_server.Clients.{Client, Clients, get_client, seq_at}
use game_server.Clients.Consistency.{IsConsistent}
use game_server.Server.{
  Sent, SendState, target_of, send_to, send_found, send_to_clients, send_to_server,
  execute_cmd_send_all_packet, connector_execute_cmd_send_all_packet,
}
use game_server.Server.Sending.{Output, Sends, taken, AllSent}
use game_server.Server.Rounds.{execute-AllSent}

-- The bytes on the wire: header, body and tail.
abbrev pub frame : NetPacket → List ℕ → ℕ → List ℕ
frame k body now = prepare_header k ++ (body ++ prepare_tail now)

sent_of : Option Client → ℕ → NetPacket → List ℕ → ℕ → List Sent
sent_of none r k body now = []
sent_of (some c) r k body now =
    record { target = target_of c.kind r k; bytes = frame k body now } ∷ []

-- A packet goes to the client with its number, if there is one.
output_of : Clients → (ℕ → ℕ) → NetPacket → List ℕ → ℕ → Option ℕ → List Sent
unfolding sent_of
output_of cs clock k body i none = []
output_of cs clock k body i (some r) = sent_of (cs.store r) r k body (clock i)

unfoldable pub client_output : Clients → (ℕ → ℕ) → Output
unfolding output_of
client_output cs clock k body i = output_of cs clock k body i (get_client cs k.client_seq)

-- What is sent for a packet whose client is alive
pub client_output_lem :
    (cs : Clients) (clock : ℕ → ℕ) (k : NetPacket) (body : List ℕ) (i r : ℕ) (c : Client)
    → get_client cs k.client_seq ≡ some r
    → cs.store r ≡ some c
    → client_output cs clock k body i
      ≡ record { target = target_of c.kind r k; bytes = frame k body (clock i) } ∷ []
unfolding client_output
client_output_lem cs clock k body i r c g e = rw (g, output_of) (rw (e, sent_of) refl)

unfoldable pub server_output : Client → ℕ → (ℕ → ℕ) → Output
server_output c r clock k body i =
    record { target = target_of c.kind r k; bytes = frame k body (clock i) } ∷ []

stored :
    (cs : Clients) (seq r : ℕ)
    → seq_at (cs.store r) ≡ some seq
    → (c : Client) × (cs.store r ≡ some c)
unfolding seq_at
stored cs seq r h = there (cs.store r) h
  where
    there : (o : Option Client) → seq_at o ≡ some seq → (c : Client) × (o ≡ some c)
    there none h = absurd (cc)
    there (some c) h = (c, refl)

send_to_clients-Sends :
    (cs : Clients) (clock : ℕ → ℕ)
    → IsConsistent cs
    → Sends (send_to_clients cs clock) (client_output cs clock)
unfolding send_to_clients client_output send_to packet_buffer_send
send_to_clients-Sends cs clock v p k sent = elim (Option-cases (get_client cs k.client_seq)) [
  | inl e ↦ rw (e, send_found, output_of) (ap some (sym (append-nil sent)))
  | inr (r, e) ↦
      let (c, d) = stored cs k.client_seq r (v.by_seq k.client_seq r e) in
      rw (e, send_found, output_of) (rw (d, sent_of) refl)
]

send_to_server-Sends :
    (c : Client) (r : ℕ) (clock : ℕ → ℕ)
    → Sends (send_to_server c r clock) (server_output c r clock)
unfolding send_to_server server_output send_to packet_buffer_send
send_to_server-Sends c r clock p k sent = refl

-- With a consistent client pool, and each queued or arriving packet holding its own memory,
-- `ServerContext::ExecuteCmdSendAllPacket` ends and returns 0. It sends, in order, a frame of each packet
-- of the cache, of the send queue and of what arrives until a look finds nothing, to the client with
-- the packet's number, and skips a packet whose client is gone; the memories of these packets are given
-- back, other memories keep their bytes, the cache and the send queue are empty, and the receiving
-- queues and the signal are as they were.
pub server-execute_cmd_send_all_packet :
    (n : ℕ) (cs : Clients) (clock : ℕ → ℕ) (schedule : List (List NetPacket)) (s : SendState)
    (held : List MemoryRef)
    → IsConsistent cs
    → IsCounted s.network.send_cache
    → Owned n s.pool (
        memories_of (
          (s.network.send_cache.packets ++ s.network.send.packets)
          ++ taken s.network.send_prepare.packets schedule)
        ++ held)
    → AllSent n
        (client_output cs clock)
        s
        ((s.network.send_cache.packets ++ s.network.send.packets)
          ++ taken s.network.send_prepare.packets schedule)
        held
        (execute_cmd_send_all_packet (send_to_clients cs clock) schedule s)
server-execute_cmd_send_all_packet n cs clock schedule s held v =
    execute-AllSent n (send_to_clients cs clock) (client_output cs clock) schedule s held
      (send_to_clients-Sends cs clock v)

-- `ConnectorContext::ExecuteCmdSendAllPacket` does the same with all packets sent to its one client, if it
-- has one and each packet holds its own memory; without a client it returns -1 and does nothing.
pub connector-execute_cmd_send_all_packet :
    (n : ℕ) (c : Client) (r : ℕ) (clock : ℕ → ℕ) (schedule : List (List NetPacket)) (s : SendState)
    (held : List MemoryRef)
    → IsCounted s.network.send_cache
    → Owned n s.pool (
        memories_of (
          (s.network.send_cache.packets ++ s.network.send.packets)
          ++ taken s.network.send_prepare.packets schedule)
        ++ held)
    → (AllSent n
        (server_output c r clock)
        s
        ((s.network.send_cache.packets ++ s.network.send.packets)
          ++ taken s.network.send_prepare.packets schedule)
        held
        (connector_execute_cmd_send_all_packet (some (c, r)) clock schedule s))
      × (connector_execute_cmd_send_all_packet none clock schedule s ≡ some (2 ^ 64 - 1, s))
unfolding connector_execute_cmd_send_all_packet
connector-execute_cmd_send_all_packet n c r clock schedule s held counted o = (
  execute-AllSent n (send_to_server c r clock) (server_output c r clock) schedule s held
      (send_to_server-Sends c r clock) counted o,
  refl,
)
