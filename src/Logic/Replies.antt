-- ===== src/Logic/Replies.antt =====
-- A client's bytes on their way through the server: `OnBufferEventRead` of
-- network/libevent/libevent_handle.cpp unpacks them, `_ProcessCSNetworkPacket` of
-- service/gamesvr/gamelogic.cpp answers them, and `ExecuteCmdSendAllPacket` of network/context.h sends the
-- answers.
pub mod Answered
pub mod Frames
pub mod Clients
pub mod Handled
pub mod Sends
pub mod Reading
pub mod Whole
mod Examples
use game_server.Prelude.{
  ℕ, zero, suc, ◌+◌, ◌*◌, ◌%◌, ◌^◌, ◌≤◌, ◌≡◌, List, [], ◌∷◌, ◌++◌, Option, some, ◌>>=◌, true,
  length, if◌then◌else◌,
}
use game_server.Prelude.Int.{ℤ, pos}
use game_server.Memory.{max_size}
use game_server.Wire.{pack_int}
use game_server.Packet.{NetPacket, header_size, tail_size, to_int16, prepare_tail}
use game_server.Network.{NetworkContext}
use game_server.Network.Receive.{View}
use game_server.Server.{Sent, to_event, send_to_clients, execute_cmd_send_all_packet}
use game_server.Handlers.{ServerState}
use game_server.Handlers.Libevent.{on_buffer_event_read}
use game_server.Logic.{Messages, cs_hello, is_proto, process_cs_network_packet}

-- For a server that has started: the network thread's callback, a round of the logic thread, and the network thread's execution of the
-- command that this round sends: the server after it, what is sent, and what is left to be read.
unfoldable pub answer_client :
    {E : Type 0}
    → (E → ℕ → List ℕ × E)
    → ℕ
    → (ℕ → ℕ → ℕ)
    → Messages
    → (ℕ → ℕ)
    → (ℕ → ℕ)
    → ServerState
    → ℕ
    → E
    → Option (ServerState × List Sent × E)
answer_client read fuel clock m handled sent s client_fd e = do
  (s', e') ← on_buffer_event_read read fuel clock s client_fd e
  (count, l) ←
      process_cs_network_packet m handled
        (record { has_server = true; pool = s'.pool; network = s'.network; commands = [] })
  (total, t) ←
      execute_cmd_send_all_packet (send_to_clients s'.clients sent) []
        (record { pool = l.pool; network = l.network; sent = [] })
  some (record { pool = t.pool; network = t.network; clients = s'.clients }, t.sent, e')

-- The body of the reply to a hello with this body, unpacked and handled at these times
abbrev pub reply : Messages → List ℕ → ℕ → ℕ → List ℕ
reply m body unpacked handled =
    m.cs_hello_rsp (m.id (m.parse_cs_hello body)) (m.content (m.parse_cs_hello body)) unpacked
      handled

-- The answers to frames from index i on, unpacked at these times: one to each hello, and none to others.
abbrev pub hello_answers : Messages → (ℕ → ℕ) → ℕ → ℕ → ℕ → List ℕ → List (ℤ × List ℕ) → List View
hello_answers m handled seq fd i [] fs = []
hello_answers m handled seq fd i (t ∷ ts) [] = []
hello_answers m handled seq fd i (t ∷ ts) ((proto, body) ∷ fs) =
    (if is_proto cs_hello proto
      then (seq, fd, pos cs_hello, reply m body t (handled (2 * i))) ∷ []
      else [])
    ++ hello_answers m handled seq fd (i + 1) ts fs

-- The bytes of a packet on the wire
abbrev pub wire : ℤ → List ℕ → ℕ → List ℕ
wire proto body now =
    (pack_int 2 ((length body + header_size + tail_size) % 2 ^ 16) ++ pack_int 2 (to_int16 proto))
    ++ (body ++ prepare_tail now)

-- The packets sent to the client at r, from the j-th reading of the clock on.
abbrev pub sent_views : (ℕ → ℕ) → ℕ → ℕ → List View → List Sent
sent_views sent r j [] = []
sent_views sent r j ((seq, fd, proto, body) ∷ vs) =
    record { target = to_event r; bytes = wire proto body (sent j) } ∷ sent_views sent r (j + 1) vs

-- The reply to each hello fits in a packet memory, whatever the times in it.
pub data AllFit (m : Messages) : List (ℤ × List ℕ) → Type 0 where
  no_frame : AllFit m []
  one_more :
      {proto : ℤ} {body : List ℕ} {fs : List (ℤ × List ℕ)}
      → (is_proto cs_hello proto ≡ true → (t t' : ℕ) → length (reply m body t t') ≤ max_size)
      → AllFit m fs
      → AllFit m ((proto, body) ∷ fs)

-- No packet is on its way.
pub record IsIdle (c : NetworkContext) : Type 0 where
  pub recv : c.recv.packets ≡ []
  pub recv_prepare : c.recv_prepare.packets ≡ []
  pub send : c.send.packets ≡ []
  pub send_prepare : c.send_prepare.packets ≡ []
  pub send_cache : c.send_cache.packets ≡ []
