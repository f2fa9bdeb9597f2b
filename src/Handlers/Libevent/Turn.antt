-- ===== src/Handlers/Libevent/Turn.antt =====
-- network/libevent/libevent_handle.cpp, `OnBufferEventRead`: one round of its loop.
use game_server.Prelude.{
  ℕ, zero, suc, ◌<◌, ◌≡◌, ◌≢◌, refl, sym, ap, ap₂, ◌∙◌, ◌⊎◌, inl, inr, List, [], ◌∷◌, ◌++◌,
  append_assoc, length, Option, some, ◌>>=◌, Bool, true, false, if◌then◌else◌, ltb, arith,
}
use game_server.Prelude.Int.{ℤ, pos, negsuc}
use game_server.Memory.{MemoryRef, memory_at}
use game_server.Memory.Ownership.{Owned}
use game_server.Memory.Contents.{IsHeld}
use game_server.Packet.{NetPacket}
use game_server.Queue
use game_server.Queue.Laws.{IsCounted}
use game_server.Queue.Ownership.{memories_of}
use game_server.Network.Buffer.{ClientBuffer, IsSized, capacity, pending}
use game_server.Network.Framing.{Parsed, finished, parse_all}
use game_server.Network.Framing.Prefixes.{parse_all-prefix}
use game_server.Network.{NetworkContext}
use game_server.Network.Receive.{views, expected}
use game_server.Network.Views.{length-frames}
use game_server.Network.Unpack.{unpack_packet_to_recv_queue-delivers}
use game_server.Clients.{Client, Clients}
use game_server.Handlers.{ServerState, set_context, unpacked, execute_cmd_recv_all_packet}
use game_server.Handlers.Libevent.{read_into, while_read, read_again, received, read_round}
use game_server.Handlers.Libevent.Draining.{IsReader, is_positive, fetched}

-- The number and the descriptor
abbrev pub AreSame : ClientBuffer → ClientBuffer → Type 0
AreSame b c = (b.client_seq ≡ c.client_seq) × (b.client_fd ≡ c.client_fd)

-- Only the context at r has changed, and its buffer is b.
pub record IsUpdated (s s' : Clients) (r : ℕ) (c : Client) (b : ClientBuffer) : Type 0 where
  pub stored : s'.store r ≡ some (record c { context = b })
  pub others : (q : ℕ) → q ≢ r → s'.store q ≡ s.store q
  pub maps : (s'.seq_pool ≡ s.seq_pool) × (s'.fd_pool ≡ s.fd_pool)
  pub next : s'.next_client ≡ s.next_client

set_context-once :
    (s : Clients) (r : ℕ) (c : Client) (b : ClientBuffer) → IsUpdated s (set_context s r c b) r c b
unfolding set_context
set_context-once s r c b = record {
  stored = ground arith;
  others = λ q ne. ground (arith, ne);
  maps = (refl, refl);
  next = refl;
}

pub set_context-IsUpdated :
    (s s' : Clients) (r : ℕ) (c : Client) (b b' : ClientBuffer)
    → IsUpdated s s' r c b
    → IsUpdated s (set_context s' r (record c { context = b }) b') r c b'
unfolding set_context
set_context-IsUpdated s s' r c b b' u = record {
  stored = ground arith;
  others = λ q ne. ground (arith, ne, u.others q ne);
  maps = u.maps;
  next = u.next;
}

-- The queues that the network thread does not touch when it receives
abbrev pub AreUnread : NetworkContext → NetworkContext → Type 0
AreUnread c c' =
    (c'.logic ≡ c.logic)
    × (c'.send_prepare ≡ c.send_prepare)
    × (c'.send ≡ c.send)
    × (c'.send_cache ≡ c.send_cache)

-- What a round has done: `first` was read before the frames were taken out, and `second` after it.
pub record Turn {E : Type 0} (input : E → List ℕ) (n : ℕ) (s : ServerState) (r : ℕ) (c : Client)
    (held : List MemoryRef) (e : E) (again : ServerState → E → Option (ServerState × E))
    (result : Option (ServerState × E)) : Type 0 where
  pub state : ServerState
  pub buffer : ClientBuffer
  pub rest : E
  pub first : List ℕ
  pub second : List ℕ
  pub new : List NetPacket
  pub split : input e ≡ first ++ (second ++ input rest)
  pub whole : (parse_all (pending c.context ++ first)).status ≡ finished
  pub waits : pending buffer ≡ (parse_all (pending c.context ++ first)).rest ++ second
  pub sized : IsSized buffer
  pub same_client : AreSame buffer c.context
  pub updated : IsUpdated s.clients state.clients r c buffer
  pub queued :
      state.network.recv.packets ≡ s.network.recv.packets ++ (s.network.recv_prepare.packets ++ new)
  pub prepare : state.network.recv_prepare ≡ Queue.init
  pub counted : IsCounted state.network.recv
  pub signal : state.network.signal ≡ (if ltb 0 (length new) then true else s.network.signal)
  pub others : AreUnread s.network state.network
  pub seen :
      views state.pool new ≡ expected c.context (parse_all (pending c.context ++ first)).frames
  pub owned : Owned n state.pool (memories_of new ++ held)
  pub keeps : (m : MemoryRef) → IsHeld m held → memory_at state.pool m ≡ memory_at s.pool m
  pub goes :
      ((0 < length second) × (result ≡ again state rest))
      ⊎ ((second ≡ [])
          × (result ≡ some (state, rest))
          × ((input rest ≡ []) ⊎ (buffer.buffer_size ≡ capacity)))

while_read_lem :
    {E : Type 0} (read : E → ℕ → List ℕ × E) (again : ServerState → E → Option (ServerState × E))
    (k : ℤ) (s : ServerState) (e : E)
    → while_read read again k s e ≡ (if is_positive k then again s e else some (s, e))
unfolding while_read
while_read_lem read again (pos zero) s e = refl
while_read_lem read again (pos (suc k)) s e = refl
while_read_lem read again (negsuc k) s e = refl

pub expected-same :
    (b c : ClientBuffer) (fs : List (ℤ × List ℕ)) → AreSame b c → expected b fs ≡ expected c fs
expected-same b c [] h = refl
expected-same b c ((proto, body) ∷ fs) h =
    ap₂ ◌∷◌ (ap₂ (λ (i j : ℕ). (i, j, proto, body)) h.0 h.1) (expected-same b c fs h)

module _ {E : Type 0} (read : E → ℕ → List ℕ × E) (input : E → List ℕ) (law : IsReader read input)
    (n : ℕ) (clock : ℕ → ℕ) (r : ℕ) (again : ServerState → E → Option (ServerState × E)) where
  pub read_round-Turn :
      (s : ServerState) (c : Client) (held : List MemoryRef) (e : E)
      → IsSized c.context
      → IsCounted s.network.recv
      → Owned n s.pool held
      → (parse_all (pending c.context ++ input e)).status ≡ finished
      → Turn input n s r c held e again (read_round read again clock s r e c)
  unfolding read_round received read_again execute_cmd_recv_all_packet unpacked
  read_round-Turn s c held e z counted o done =
      let (_, b₁, e₁) = read_into read c.context e in
      let (first, f₁) = fetched read input law c.context e z in
      let whole : (parse_all (pending c.context ++ first)).status ≡ finished =
        parse_all-prefix (pending c.context ++ first) (input e₁) (
          ap (λ bytes. (parse_all bytes).status)
            (append_assoc (pending c.context) first (input e₁)
              ∙ ap (◌++◌ (pending c.context)) (sym f₁.split))
          ∙ done) in
      let same : parse_all (pending b₁) ≡ parse_all (pending c.context ++ first) =
        ap parse_all f₁.waits in
      let (p₁, net₁, c₁, new, run, d) =
        unpack_packet_to_recv_queue-delivers n s.pool s.network b₁ held clock f₁.sized counted o
          (ap (λ (q : Parsed). q.status) same ∙ whole) in
      let s₁ : ServerState = record {
        pool = p₁;
        network = net₁;
        clients = set_context s.clients r c c₁;
      } in
      let (k, b₂, e₂) = read_into read c₁ e₁ in
      let (second, f₂) = fetched read input law c₁ e₁ d.sized in
      let s₂ : ServerState = record s₁ {
        clients = set_context s₁.clients r (record c { context = c₁ }) b₂;
      } in
      let once : IsUpdated s.clients s₁.clients r c c₁ = set_context-once s.clients r c c₁ in
      let runs : read_round read again clock s r e c ≡ while_read read again k s₂ e₂ =
        ap (λ q. (q >>= λ result. some (unpacked s r c result)) >>= received read again r e₁) run
        ∙ ap (λ o'. o' >>= read_again read again r e₁ s₁) once.stored in
      let ends : (b : Bool)
          → is_positive k ≡ b
          → read_round read again clock s r e c ≡ (if b then again s₂ e₂ else some (s₂, e₂)) =
        λ b h.
          runs
          ∙ (while_read_lem read again k s₂ e₂
              ∙ ap (λ b. if b then again s₂ e₂ else some (s₂, e₂)) h) in
      record {
        state = s₂;
        buffer = b₂;
        rest = e₂;
        first = first;
        second = second;
        new = new;
        split = f₁.split ∙ ap (◌++◌ first) f₂.split;
        whole = whole;
        waits = f₂.waits ∙ ap (◌++ second) (d.bytes ∙ ap (λ (q : Parsed). q.rest) same);
        sized = f₂.sized;
        same_client = (
          f₂.same_client.0 ∙ d.same_client.0 ∙ f₁.same_client.0,
          f₂.same_client.1 ∙ d.same_client.1 ∙ f₁.same_client.1,
        );
        updated = set_context-IsUpdated s.clients s₁.clients r c c₁ b₂ once;
        queued = d.queued;
        prepare = d.prepare;
        counted = omega (arith, d.counted);
        signal =
            d.signal
            ∙ ap (λ (l : ℕ). if ltb 0 l then true else s.network.signal)
                (length-frames p₁ new b₁ (parse_all (pending b₁)).frames d.seen);
        others = d.others;
        seen =
            d.seen
            ∙ expected-same b₁ c.context (parse_all (pending b₁)).frames f₁.same_client
            ∙ ap (λ (q : Parsed). expected c.context q.frames) same;
        owned = d.owned;
        keeps = d.keeps;
        goes = elim f₂.stops [
          | inl (more, some_read) ↦ inl (some_read, ends true more)
          | inr (over, nothing, why) ↦ inr (nothing, ends false over, why)
        ];
      }
