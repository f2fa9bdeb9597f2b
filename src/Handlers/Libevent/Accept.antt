-- ===== src/Handlers/Libevent/Accept.antt =====
-- network/libevent/libevent_handle.cpp, `OnListenerAcceptConnect`: a new connection on a descriptor.
use game_server.Prelude.{
  ℕ, ◌≡◌, ◌≢◌, refl, List, Option, none, some, true, Option-cases, inl, inr, arith,
}
use game_server.Clients.{
  Client, Clients, new_libevent_client, new_client, add_client, get_client, get_client_by_fd,
  get_client_seq, get_client_fd, fd_at,
}
use game_server.Clients.Consistency.{
  IsConsistent, connect-IsConsistent, connect_lem, close_client-IsConsistent, close_client_lem,
}
use game_server.Handlers.{ServerState}
use game_server.Handlers.Libevent.{closed_last, on_listener_accept_connect}

with_fd :
    (o : Option Client) (fd : ℕ)
    → fd_at o ≡ some fd
    → (c : Client) × (o ≡ some c) × (get_client_fd c ≡ fd)
unfolding fd_at
with_fd none fd h = absurd (cc)
with_fd (some c) fd h = (c, refl, ground arith)

-- The pool without the descriptor's last client
record Freed (cs cs' : Clients) (fd seq : ℕ) : Type 0 where
  consistent : IsConsistent cs'
  no_seq : get_client cs' seq ≡ none
  no_fd : get_client_by_fd cs' fd ≡ none
  others : (fd' : ℕ) → fd' ≢ fd → get_client_by_fd cs' fd' ≡ get_client_by_fd cs fd'

closed_last-Freed :
    (s : ServerState) (fd seq : ℕ)
    → IsConsistent s.clients
    → get_client s.clients seq ≡ none
    → Freed s.clients (closed_last s (get_client_by_fd s.clients fd)).clients fd seq
unfolding closed_last
closed_last-Freed s fd seq v fresh = elim (Option-cases (get_client_by_fd s.clients fd)) [
  | inl e ↦ rw (e) (record { consistent = v; no_seq = fresh; no_fd = e; others = λ fd' ne. refl })
  | inr (r, e) ↦
      let (c, live, same) = with_fd (s.clients.store r) fd (v.by_fd fd r e) in
      rw (e) (record {
        consistent = close_client-IsConsistent s.clients r c v live;
        no_seq = ground (arith, (close_client_lem s.clients r c seq fd v live).0, fresh);
        no_fd = ground (arith, (close_client_lem s.clients r c seq fd v live).1, same);
        others =
            λ fd' ne. ground (arith, (close_client_lem s.clients r c seq fd' v live).1, same, ne);
      })
]

-- What a new connection leaves: the descriptor and the number find the new client.
pub record Accepted (s s' : ServerState) (fd seq : ℕ) (ip : List ℕ) : Type 0 where
  pub client : ℕ
  pub consistent : IsConsistent s'.clients
  pub stored : s'.clients.store client ≡ some (new_libevent_client fd seq ip)
  pub by_fd : get_client_by_fd s'.clients fd ≡ some client
  pub by_seq : get_client s'.clients seq ≡ some client
  pub others :
      (fd' : ℕ) → fd' ≢ fd → get_client_by_fd s'.clients fd' ≡ get_client_by_fd s.clients fd'

-- In consistent maps, with a number that no client has, a connection that libevent and the socket options
-- accept closes the client that still has the descriptor, if there is one, and adds the new client; the maps
-- stay consistent, and every other descriptor finds what it found before.
pub on_listener_accept_connect-Accepted :
    (s : ServerState) (fd seq : ℕ) (ip : List ℕ)
    → IsConsistent s.clients
    → get_client s.clients seq ≡ none
    → Accepted s (on_listener_accept_connect s fd seq ip true true) fd seq ip
unfolding on_listener_accept_connect new_libevent_client new_client add_client get_client_seq
on_listener_accept_connect-Accepted s fd seq ip v fresh =
    let f = closed_last-Freed s fd seq v fresh in
    let cs = (closed_last s (get_client_by_fd s.clients fd)).clients in
    let c = new_libevent_client fd seq ip in
    record {
      client = cs.next_client;
      consistent = connect-IsConsistent cs c f.consistent f.no_seq f.no_fd;
      stored = ground arith;
      by_fd = ground (arith, (connect_lem cs c seq fd f.no_seq f.no_fd).1);
      by_seq = ground (arith, (connect_lem cs c seq fd f.no_seq f.no_fd).0);
      others = λ fd' ne.
          ground (arith, (connect_lem cs c seq fd' f.no_seq f.no_fd).1, ne, f.others fd' ne);
    }
