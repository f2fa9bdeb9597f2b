-- ===== src/Clients/Consistency.antt =====
-- The two maps of the client pool agree with each other and with the contexts that are alive.
use game_server.Prelude.{ℕ, ◌≤◌, ◌≡◌, refl, none, some, arith, ◌==◌, if◌then◌else◌}
use game_server.Prelude.Map.{find, erase, find-erase, find-insert_new}
use game_server.Clients.{
  Client, Clients, get_client_seq, get_client_fd, seq_at, close_client, no_clients, new_client,
  delete_client, get_client, get_client_by_fd, add_client, remove_client, fd_at, store_set,
}

-- Every entry points to a live context with that number or descriptor, and every live context is in
-- both maps.
pub record IsConsistent (cs : Clients) : Type 0 where
  pub by_seq : (seq r : ℕ) → get_client cs seq ≡ some r → seq_at (cs.store r) ≡ some seq
  pub by_fd : (fd r : ℕ) → get_client_by_fd cs fd ≡ some r → fd_at (cs.store r) ≡ some fd
  pub seq_listed : (r seq : ℕ) → seq_at (cs.store r) ≡ some seq → get_client cs seq ≡ some r
  pub fd_listed : (r fd : ℕ) → fd_at (cs.store r) ≡ some fd → get_client_by_fd cs fd ≡ some r
  pub fresh : (r : ℕ) → cs.next_client ≤ r → cs.store r ≡ none

pub no_clients-IsConsistent : IsConsistent no_clients
unfolding get_client get_client_by_fd find seq_at fd_at
no_clients-IsConsistent = record {
  by_seq = λ seq r h. cc;
  by_fd = λ fd r h. cc;
  seq_listed = λ r seq h. cc;
  fd_listed = λ r fd h. cc;
  fresh = λ r h. refl;
}

-- `new` and `AddClient`, as the accept handlers call them.
abbrev pub connect : Clients → Client → Clients
connect cs c = let (r, cs') = new_client cs c in add_client cs' (get_client_seq c) r c

-- A new context whose number and descriptor are free joins both maps, which stay consistent.
pub connect-IsConsistent :
    (cs : Clients) (c : Client)
    → IsConsistent cs
    → get_client cs (get_client_seq c) ≡ none
    → get_client_by_fd cs (get_client_fd c) ≡ none
    → IsConsistent (connect cs c)
unfolding new_client add_client get_client get_client_by_fd seq_at fd_at
connect-IsConsistent cs c v s f = record {
  by_seq = λ seq r h. ground (
    arith,
    v.by_seq seq r,
    v.fresh cs.next_client,
    find-insert_new (get_client_seq c) seq cs.next_client cs.seq_pool s,
  );
  by_fd = λ fd r h. ground (
    arith,
    v.by_fd fd r,
    v.fresh cs.next_client,
    find-insert_new (get_client_fd c) fd cs.next_client cs.fd_pool f,
  );
  seq_listed = λ r seq h. ground (
    arith,
    v.seq_listed r seq,
    find-insert_new (get_client_seq c) seq cs.next_client cs.seq_pool s,
  );
  fd_listed = λ r fd h.
      ground
        (arith, v.fd_listed r fd, find-insert_new (get_client_fd c) fd cs.next_client cs.fd_pool f);
  fresh = λ r h. ground (arith, v.fresh r);
}

-- Where neither the client's number nor its socket is in the maps, a client that is added is found by
-- both, and every other number and socket finds what it found before.
pub connect_lem :
    (cs : Clients) (c : Client) (seq fd : ℕ)
    → get_client cs (get_client_seq c) ≡ none
    → get_client_by_fd cs (get_client_fd c) ≡ none
    → (get_client (connect cs c) seq
        ≡ (if get_client_seq c == seq then some cs.next_client else get_client cs seq))
      × (get_client_by_fd (connect cs c) fd
          ≡ (if get_client_fd c == fd then some cs.next_client else get_client_by_fd cs fd))
unfolding new_client add_client get_client get_client_by_fd
connect_lem cs c seq fd s f = (
  find-insert_new (get_client_seq c) seq cs.next_client cs.seq_pool s,
  find-insert_new (get_client_fd c) fd cs.next_client cs.fd_pool f,
)

close_client-eq :
    (cs : Clients) (r : ℕ) (c : Client)
    → cs.store r ≡ some c
    → get_client cs (get_client_seq c) ≡ some r
    → close_client cs r ≡ record cs {
      store = store_set cs.store r none;
      seq_pool = erase (get_client_seq c) cs.seq_pool;
      fd_pool = erase (get_client_fd c) cs.fd_pool;
    }
unfolding close_client remove_client delete_client get_client
close_client-eq cs r c e g = rw (e, close_client) (rw (g, remove_client) (rw (e, remove_client)))

-- `CloseClient` takes a live context out of both maps and frees it; the maps stay consistent.
pub close_client-IsConsistent :
    (cs : Clients) (r : ℕ) (c : Client)
    → IsConsistent cs
    → cs.store r ≡ some c
    → IsConsistent (close_client cs r)
unfolding get_client get_client_by_fd seq_at fd_at
close_client-IsConsistent cs r c v e =
    rw (close_client-eq cs r c e (unfold seq_at in v.seq_listed r (get_client_seq c) (rw e)))
      (record {
        by_seq = λ seq t h.
            ground (arith, find-erase (get_client_seq c) seq cs.seq_pool, v.by_seq seq t);
        by_fd = λ fd t h. ground (arith, find-erase (get_client_fd c) fd cs.fd_pool, v.by_fd fd t);
        seq_listed = λ t seq h. ground (
          arith,
          find-erase (get_client_seq c) seq cs.seq_pool,
          v.seq_listed t seq,
          v.seq_listed r (get_client_seq c),
        );
        fd_listed = λ t fd h. ground (
          arith,
          find-erase (get_client_fd c) fd cs.fd_pool,
          v.fd_listed t fd,
          v.fd_listed r (get_client_fd c),
        );
        fresh = λ t h. ground (arith, v.fresh t);
      })

-- In consistent maps, closing a live client takes it out of both and deletes it, and every other number
-- and socket finds what it found before.
pub close_client_lem :
    (cs : Clients) (r : ℕ) (c : Client) (seq fd : ℕ)
    → IsConsistent cs
    → cs.store r ≡ some c
    → (get_client (close_client cs r) seq
        ≡ (if get_client_seq c == seq then none else get_client cs seq))
      × (get_client_by_fd (close_client cs r) fd
          ≡ (if get_client_fd c == fd then none else get_client_by_fd cs fd))
      × ((close_client cs r).store r ≡ none)
unfolding get_client get_client_by_fd
close_client_lem cs r c seq fd v e =
    rw (close_client-eq cs r c e (unfold seq_at in v.seq_listed r (get_client_seq c) (rw e))) (
      find-erase (get_client_seq c) seq cs.seq_pool,
      find-erase (get_client_fd c) fd cs.fd_pool,
      ground arith,
    )
