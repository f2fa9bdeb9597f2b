-- ===== src/Logic/Replies/Clients.antt =====
-- The client pool when only a context's buffer has changed, as the callback for received bytes leaves it.
use game_server.Prelude.{
  ℕ, ◌≡◌, refl, sym, ap, subst, none, ◌∙◌, some, Bool-cases, inl, inr, ◌==◌, arith,
}
use game_server.Prelude.Map.{find}
use game_server.Network.Buffer.{ClientBuffer}
use game_server.Clients.{
  Client, Clients, libevent_client, get_client, get_client_by_fd, get_client_seq, seq_at, fd_at,
}
use game_server.Clients.Consistency.{IsConsistent}
use game_server.Handlers.Libevent.Turn.{AreSame, IsUpdated}

-- A libevent client's number
pub get_client_seq-libevent :
    (c : Client) → c.kind ≡ libevent_client → get_client_seq c ≡ c.context.client_seq
unfolding get_client_seq
get_client_seq-libevent c e = rw e refl

module _ (s s' : Clients) (r : ℕ) (c : Client) (b : ClientBuffer) (u : IsUpdated s s' r c b)
    (live : s.store r ≡ some c) (kind : c.kind ≡ libevent_client) (same : AreSame b c.context) where
  seq_at_r : seq_at (s'.store r) ≡ seq_at (s.store r)
  unfolding seq_at
  seq_at_r =
      ap seq_at u.stored
      ∙ ap some (
          get_client_seq-libevent (record c { context = b }) kind
          ∙ same.0
          ∙ sym (get_client_seq-libevent c kind))
      ∙ sym (ap seq_at live)

  fd_at_r : fd_at (s'.store r) ≡ fd_at (s.store r)
  unfolding fd_at
  fd_at_r = ap fd_at u.stored ∙ ap some same.1 ∙ sym (ap fd_at live)

  seq_kept : (q : ℕ) → seq_at (s'.store q) ≡ seq_at (s.store q)
  seq_kept q = elim (Bool-cases (r == q)) [
    | inl e ↦ subst (λ o. seq_at (s'.store o) ≡ seq_at (s.store o)) (ground (arith, e)) seq_at_r
    | inr e ↦ ap seq_at (u.others q (λ d. ground (arith, d, e)))
  ]

  fd_kept : (q : ℕ) → fd_at (s'.store q) ≡ fd_at (s.store q)
  fd_kept q = elim (Bool-cases (r == q)) [
    | inl e ↦ subst (λ o. fd_at (s'.store o) ≡ fd_at (s.store o)) (ground (arith, e)) fd_at_r
    | inr e ↦ ap fd_at (u.others q (λ d. ground (arith, d, e)))
  ]

  pub get_client_kept : (seq : ℕ) → get_client s' seq ≡ get_client s seq
  unfolding get_client
  get_client_kept seq = ap (find seq) u.maps.0

  pub IsUpdated-IsConsistent : IsConsistent s → IsConsistent s'
  unfolding get_client_by_fd
  IsUpdated-IsConsistent v = record {
    by_seq = λ seq q h. seq_kept q ∙ v.by_seq seq q (sym (get_client_kept seq) ∙ h);
    by_fd = λ fd q h. fd_kept q ∙ v.by_fd fd q (sym (ap (find fd) u.maps.1) ∙ h);
    seq_listed = λ q seq h. get_client_kept seq ∙ v.seq_listed q seq (sym (seq_kept q) ∙ h);
    fd_listed = λ q fd h. ap (find fd) u.maps.1 ∙ v.fd_listed q fd (sym (fd_kept q) ∙ h);
    fresh = λ q h. ended q (v.fresh q (omega (arith, u.next, h)));
  }
    where
      ended : (q : ℕ) → s.store q ≡ none → s'.store q ≡ none
      ended q e = u.others q (λ d. absurd (cc (live, e, ap s.store d))) ∙ e
