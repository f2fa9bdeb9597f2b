-- ===== src/Logic/Replies/Sends.antt =====
-- network/context.h, `ExecuteCmdSendAllPacket` of the server, where all that is to be sent is for one
-- libevent client.
use game_server.Prelude.{
  ℕ, ◌≡◌, sym, ap, ap₂, subst, ◌∙◌, List, [], ◌++◌, append-nil, length, some, arith,
}
use game_server.Memory.{MemoryPool, MemoryRef}
use game_server.Memory.Ownership.{Owned}
use game_server.Packet.{NetPacket}
use game_server.Queue.Ownership.{memories_of}
use game_server.Network.{NetworkContext}
use game_server.Network.Receive.{View, views}
use game_server.Clients.{Client, Clients, libevent_client, get_client}
use game_server.Clients.Consistency.{IsConsistent}
use game_server.Server.{SendState, send_to_clients, execute_cmd_send_all_packet}
use game_server.Server.Sending.{AllSent, all_sent, taken}
use game_server.Server.Contexts.{client_output, server-execute_cmd_send_all_packet}
use game_server.Logic.Answers.{sizes, body_sizes}
use game_server.Logic.Replies.{sent_views}
use game_server.Logic.Replies.Frames.{AllFor, all_sent-sent_views}

module _ (cs : Clients) (clock : ℕ → ℕ) (seq r : ℕ) (c : Client)
    (found : get_client cs seq ≡ some r) (live : cs.store r ≡ some c)
    (kind : c.kind ≡ libevent_client) (consistent : IsConsistent cs) where
  pub sends :
      (n : ℕ) (p : MemoryPool) (network : NetworkContext) (held : List MemoryRef)
      (new : List NetPacket) (vs : List View)
      → network.send_cache.packets ≡ []
      → network.send.packets ≡ new
      → AllFor seq vs
      → views p new ≡ vs
      → sizes new ≡ body_sizes vs
      → Owned n p (memories_of new ++ held)
      → let start : SendState = record { pool = p; network = network; sent = [] } in
        (x : AllSent n
          (client_output cs clock)
          start
          ((network.send_cache.packets ++ network.send.packets)
            ++ taken network.send_prepare.packets [])
          held
          (execute_cmd_send_all_packet (send_to_clients cs clock) [] start))
        × (x.after.sent ≡ sent_views clock r 0 vs)
  unfolding taken
  sends n p network held new vs cache send for seen sized o =
      let start : SendState = record { pool = p; network = network; sent = [] } in
      let queue : (network.send_cache.packets ++ network.send.packets) ++ [] ≡ new =
        append-nil (network.send_cache.packets ++ network.send.packets) ∙ ap₂ ◌++◌ cache send in
      let x =
        server-execute_cmd_send_all_packet n cs clock [] start held consistent
          (omega (arith, ap length cache))
          (subst (λ ks. Owned n p (memories_of ks ++ held)) (sym queue) o) in
      (
        x,
        x.sent
            ∙ ap (λ ks. all_sent (client_output cs clock) p ks []) queue
            ∙ all_sent-sent_views cs clock seq r c found live kind p new vs [] for seen sized,
      )
