-- ===== src/Clients.antt =====
-- network/context.h, `ClientContextPool`, with the client contexts that its maps point to: those of
-- network/libevent/libevent_ctx.h and of network/socket/socket_ctx.h. A `ClientContext*` is a number;
-- the store says which are alive.
pub mod Consistency
mod Examples
use game_server.Prelude.{
  ℕ, zero, suc, ◌+◌, ◌-◌, ◌≡◌, List, [], ◌∷◌, ◌++◌, Option, none, some, ltb, ◌==◌, if◌then◌else◌,
  take, drop, length, Bool, true, false,
}
use game_server.Prelude.Int.{ℤ, pos, negsuc}
use game_server.Prelude.Map.{Map, find, insert, erase}
use game_server.Network.Buffer
use game_server.Network.Buffer.{ClientBuffer, capacity, zeroed}

-- The two classes of client contexts.
pub data Kind : Type 0 where
  libevent_client socket_client : Kind

-- `uniq_seq` is `m_ulClientUniqSeq`, which only `SocketClientCtx` has.
pub record Client : Type 0 where
  pub kind : Kind
  pub uniq_seq : ℕ
  pub context : ClientBuffer

-- `LibeventClientCtx(iClientFd, …)`, with the number that `GenerateSeqID()` gave and the printed
-- address.
unfoldable pub new_libevent_client : ℕ → ℕ → List ℕ → Client
unfolding Buffer.construct
new_libevent_client client_fd seq_id client_ip = record {
  kind = libevent_client;
  uniq_seq = 0;
  context = record Buffer.construct {
    client_seq = seq_id;
    client_fd = client_fd;
    client_ip = client_ip;
  };
}

-- `SocketClientCtx(iClientFd, …)`: the number goes to `m_ulClientUniqSeq`.
unfoldable pub new_socket_client : ℕ → ℕ → Client
unfolding Buffer.construct
new_socket_client client_fd seq_id = record {
  kind = socket_client;
  uniq_seq = seq_id;
  context = record Buffer.construct { client_fd = client_fd };
}

-- `SetClientIP`
unfoldable pub set_client_ip : Client → List ℕ → ℕ → Client
unfolding zeroed
set_client_ip c ip size =
    let n = if ltb 64 size then 64 else size in
    record c { context = record c.context { client_ip = take n ip ++ drop n (zeroed 64) } }

-- `GetClientSeq()`
unfoldable pub get_client_seq : Client → ℕ
get_client_seq c = elim c.kind [
  | libevent_client ↦ c.context.client_seq
  | socket_client ↦ c.uniq_seq
]

-- `GetClientFd()`
abbrev pub get_client_fd : Client → ℕ
get_client_fd c = c.context.client_fd

-- `ClientContextPool`, and the contexts that `new` made and `delete` has not freed.
pub record Clients : Type 0 where
  pub store : ℕ → Option Client
  pub next_client : ℕ
  pub seq_pool : Map ℕ
  pub fd_pool : Map ℕ

abbrev pub no_clients : Clients
no_clients = record { store = λ _. none; next_client = 0; seq_pool = []; fd_pool = [] }

abbrev pub store_set : (ℕ → Option Client) → ℕ → Option Client → ℕ → Option Client
store_set store r c s = if r == s then c else store s

-- `new` and `delete`
unfoldable pub new_client : Clients → Client → ℕ × Clients
new_client cs c =
    let r = cs.next_client in
    (r, record cs { store = store_set cs.store r (some c); next_client = r + 1 })

unfoldable pub delete_client : Clients → ℕ → Clients
delete_client cs r = record cs { store = store_set cs.store r none }

-- `GetClient` and `GetClientByFd`
unfoldable pub get_client : Clients → ℕ → Option ℕ
get_client cs client_seq = find client_seq cs.seq_pool

unfoldable pub get_client_by_fd : Clients → ℕ → Option ℕ
get_client_by_fd cs client_fd = find client_fd cs.fd_pool

-- `AddClient`, for the context at `r`, whose `GetClientFd()` is read.
unfoldable pub add_client : Clients → ℕ → ℕ → Client → Clients
add_client cs client_seq r c = record cs {
  seq_pool = insert client_seq r cs.seq_pool;
  fd_pool = insert (get_client_fd c) r cs.fd_pool;
}

-- `RemoveClientByFd`: the map after it. (The value that it returns is read through the erased
-- iterator, and nobody uses it.)
unfoldable pub remove_client_by_fd : Clients → ℕ → Clients
remove_client_by_fd cs client_fd = record cs { fd_pool = erase client_fd cs.fd_pool }

-- The number and the descriptor of the context at a pointer.
unfoldable pub seq_at : Option Client → Option ℕ
seq_at none = none
seq_at (some c) = some (get_client_seq c)

unfoldable pub fd_at : Option Client → Option ℕ
fd_at none = none
fd_at (some c) = some (get_client_fd c)

remove_fd : Clients → Option ℕ → Clients
unfolding remove_client_by_fd
remove_fd cs none = cs
remove_fd cs (some fd) = remove_client_by_fd cs fd

remove_found : Clients → ℕ → Option ℕ → Option ℕ × Clients
unfolding remove_fd fd_at
remove_found cs client_seq none = (none, cs)
remove_found cs client_seq (some r) =
    let cs' = remove_fd cs (fd_at (cs.store r)) in
    (some r, record cs' { seq_pool = erase client_seq cs'.seq_pool })

-- `RemoveClient`: the pointer that it found, if any
unfoldable pub remove_client : Clients → ℕ → Option ℕ × Clients
unfolding remove_found
remove_client cs client_seq = remove_found cs client_seq (find client_seq cs.seq_pool)

-- `CloseClient` of libevent_handle.cpp: out of the pool, then freed.
unfoldable pub close_client : Clients → ℕ → Clients
unfolding seq_at
close_client cs r = elim (seq_at (cs.store r)) [
  | none ↦ cs
  | some seq ↦ delete_client (remove_client cs seq).1 r
]
