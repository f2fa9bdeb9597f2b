-- ===== src/Logic/Replies/Whole.antt =====
-- A client's bytes on their way through the server, as a whole.
use game_server.Prelude.{
  ℕ, ◌<◌, ◌≡◌, refl, sym, ap, ◌∙◌, true, ◌⊎◌, inl, inr, List, [], ◌++◌, length, Option, some, arith,
}
use game_server.Memory.{MemoryRef, memory_at}
use game_server.Memory.Ownership.{Owned}
use game_server.Memory.Contents.{IsHeld}
use game_server.Queue.{NetPacketQueue}
use game_server.Network.Buffer.{ClientBuffer, IsSized, capacity, pending}
use game_server.Network.Framing.{finished, parse_all}
use game_server.Network.Views.{length-frames}
use game_server.Clients.{Client, libevent_client, get_client, get_client_by_fd, seq_at}
use game_server.Clients.Consistency.{IsConsistent}
use game_server.Server.{Sent, SendState, send_to_clients, execute_cmd_send_all_packet}
use game_server.Handlers.{ServerState}
use game_server.Handlers.Libevent.{on_buffer_event_read}
use game_server.Handlers.Libevent.Draining.{IsReader}
use game_server.Handlers.Libevent.Turn.{IsUpdated}
use game_server.Handlers.Libevent.Loop.{on_buffer_event_read-Drained}
use game_server.Logic.{Messages, LogicState, process_cs_network_packet}
use game_server.Logic.Replies.Reading.{some_fit, handled_read}
use game_server.Logic.Replies.Handled.{handled}
use game_server.Logic.Replies.Sends.{sends}
use game_server.Logic.Replies.{answer_client, hello_answers, sent_views, AllFit, IsIdle}
use game_server.Logic.Replies.Answered.{create_times, length-create_times}
use game_server.Logic.Replies.Frames.{hello_answers-AllFor}
use game_server.Logic.Replies.Clients.{
  get_client_seq-libevent, get_client_kept, IsUpdated-IsConsistent,
}

-- What has been done for a client: `used` are the bytes that were read, and its hellos are answered.
pub record Served {E : Type 0} (input : E → List ℕ) (n : ℕ) (m : Messages) (handled sent : ℕ → ℕ)
    (s : ServerState) (r : ℕ) (c : Client) (held : List MemoryRef) (e : E)
    (result : Option (ServerState × List Sent × E)) : Type 0 where
  pub after : ServerState
  pub rest : E
  pub used : List ℕ
  pub times : List ℕ
  pub context : ClientBuffer
  pub returned :
      result
      ≡ some (
        after,
        sent_views sent r 0 (
            hello_answers m handled c.context.client_seq c.context.client_fd 0 times
              (parse_all (pending c.context ++ used)).frames),
        rest,
      )
  pub each_time : length times ≡ length (parse_all (pending c.context ++ used)).frames
  pub split : input e ≡ used ++ input rest
  pub stops : (input rest ≡ []) ⊎ (context.buffer_size ≡ capacity)
  pub waits : pending context ≡ (parse_all (pending c.context ++ used)).rest
  pub sized : IsSized context
  pub updated : IsUpdated s.clients after.clients r c context
  pub consistent : IsConsistent after.clients
  pub idle : IsIdle after.network
  pub owned : Owned n after.pool held
  pub keeps : (a : MemoryRef) → IsHeld a held → memory_at after.pool a ≡ memory_at s.pool a

answer_client-eq :
    {E : Type 0} (read : E → ℕ → List ℕ × E) (fuel : ℕ) (clock : ℕ → ℕ → ℕ) (m : Messages)
    (handled sent : ℕ → ℕ) (s : ServerState) (client_fd : ℕ) (e : E) {s' : ServerState} {e' : E}
    {count total : ℕ} {l : LogicState} {t : SendState}
    → on_buffer_event_read read fuel clock s client_fd e ≡ some (s', e')
    → process_cs_network_packet m handled
        (record { has_server = true; pool = s'.pool; network = s'.network; commands = [] })
      ≡ some (count, l)
    → execute_cmd_send_all_packet
        (send_to_clients s'.clients sent)
        []
        (record { pool = l.pool; network = l.network; sent = [] })
      ≡ some (total, t)
    → answer_client read fuel clock m handled sent s client_fd e
      ≡ some (record { pool = t.pool; network = t.network; clients = s'.clients }, t.sent, e')
unfolding answer_client
answer_client-eq read fuel clock m handled sent s client_fd e a b c = rw a (rw b (rw c refl))

module _ {E : Type 0} (read : E → ℕ → List ℕ × E) (input : E → List ℕ) (law : IsReader read input)
    (n : ℕ) (clock : ℕ → ℕ → ℕ) (m : Messages) (times sent : ℕ → ℕ) (r : ℕ) where
  -- For a libevent client of a started server with a consistent pool, where no packet is on its way, no frame in the client's bytes
  -- is bad and the reply to each of its hellos fits in a packet memory: the callback for received bytes, the
  -- logic thread's round and the execution of its command all return. They read until there is nothing
  -- left or the buffer is full with an unfinished frame; to this client they send one frame for each hello in
  -- the waiting and the read bytes, in order, with the hello's id and content and the times at which it
  -- was unpacked and handled, and nothing else to anybody. Then again no packet is on its way, the
  -- pool is consistent, all packet memories that were taken are given back, the unfinished bytes wait, and
  -- what others hold keeps its bytes.
  pub answer_client-Served :
      (fuel client_fd : ℕ) (s : ServerState) (c : Client) (held : List MemoryRef) (e : E)
      → get_client_by_fd s.clients client_fd ≡ some r
      → s.clients.store r ≡ some c
      → c.kind ≡ libevent_client
      → IsConsistent s.clients
      → IsSized c.context
      → IsIdle s.network
      → Owned n s.pool held
      → (parse_all (pending c.context ++ input e)).status ≡ finished
      → AllFit m (parse_all (pending c.context ++ input e)).frames
      → length (input e) < fuel
      → Served input n m times sent s r c held e
          (answer_client read fuel clock m times sent s client_fd e)
  answer_client-Served fuel client_fd s c held e f live kind v z idle o done fit h =
      let d =
        on_buffer_event_read-Drained read input law n clock r fuel client_fd s c held e f live z
          (omega (arith, ap length idle.recv)) o done h in
      let frames = (parse_all (pending c.context ++ d.used)).frames in
      let fit_used = some_fit m c d.used (input d.rest) (input e) d.split done fit in
      let g =
        handled_read n m times s c held e (on_buffer_event_read read fuel clock s client_fd e) d
          idle fit_used in
      let consistent =
        IsUpdated-IsConsistent s.clients d.after.clients r c d.context d.updated live kind
          d.same_client v in
      let found : get_client d.after.clients c.context.client_seq ≡ some r =
        get_client_kept s.clients d.after.clients r c d.context d.updated live kind d.same_client
          c.context.client_seq
        ∙ v.seq_listed r c.context.client_seq
            (unfold seq_at in ap seq_at live ∙ ap some (get_client_seq-libevent c kind)) in
      let (x, written) =
        sends d.after.clients sent c.context.client_seq r (record c { context = d.context }) found
          d.updated.stored kind consistent n g.after.pool g.after.network held g.new
          (hello_answers m times c.context.client_seq c.context.client_fd 0 (create_times d.new)
            frames)
          (ap (λ (q : NetPacketQueue). q.packets) (g.others.1 ∙ d.others.3) ∙ idle.send_cache)
          g.sent
          (hello_answers-AllFor m times c.context.client_seq c.context.client_fd 0
            (create_times d.new) frames)
          g.seen g.sized g.owned in
      record {
        after = record {
          pool = x.after.pool;
          network = x.after.network;
          clients = d.after.clients;
        };
        rest = d.rest;
        used = d.used;
        times = create_times d.new;
        context = d.context;
        returned =
            answer_client-eq read fuel clock m times sent s client_fd e d.returned g.returned
              x.returned
            ∙ ap
                (λ w. some (
                  record {
                    pool = x.after.pool;
                    network = x.after.network;
                    clients = d.after.clients;
                  },
                  w,
                  d.rest,
                ))
                written;
        each_time =
            length-create_times d.new
            ∙ sym (length-frames d.after.pool d.new c.context frames d.seen);
        split = d.split;
        stops = d.stops;
        waits = d.waits;
        sized = d.sized;
        updated = d.updated;
        consistent = consistent;
        idle = record {
          recv = ap (λ (q : NetPacketQueue). q.packets) x.others.1 ∙ g.recv;
          recv_prepare =
              ap (λ (q : NetPacketQueue). q.packets) (x.others.0 ∙ g.others.0 ∙ d.prepare);
          send = ap (λ (q : NetPacketQueue). q.packets) x.send_empty;
          send_prepare = elim x.prepared [
            | inl kept ↦ ap (λ (q : NetPacketQueue). q.packets) kept ∙ g.send_prepare
            | inr moved ↦ ap (λ (q : NetPacketQueue). q.packets) moved
          ];
          send_cache = x.cache_empty;
        };
        owned = x.owned;
        keeps = λ a i. x.keeps a i ∙ g.keeps a i ∙ d.keeps a i;
      }
