-- ===== src/Server/Rounds.antt =====
-- network/context.h, `ExecuteCmdSendAllPacket`: the loop ends, sends what is queued and what arrives, and
-- gives the memories back.
use game_server.Prelude.{
  ℕ, ◌∙◌, ap, sym, subst, ◌≡◌, refl, ◌+◌, List, [], ◌∷◌, ◌++◌, append-nil, append_assoc, Option,
  none, some, ◌>>=◌, length, inl, inr,
}
use game_server.Memory.{MemoryRef, memory_at}
use game_server.Memory.Ownership.{Owned}
use game_server.Memory.Contents.{IsHeld}
use game_server.Packet.{NetPacket}
use game_server.Queue
use game_server.Queue.{NetPacketQueue, copy_from, release_all_packets}
use game_server.Queue.Laws.{IsCounted, copy_from_lem, copy_from-init}
use game_server.Queue.Ownership.{
  memories_of, memories_of-append, IsHeld-append, IsHeld-append_left, release_all_packets-Owned,
}
use game_server.Network.{NetworkContext, packet_send_prepare, packet_send_prepare_cache}
use game_server.Server.{
  Sender, SendState, send_round, arrive, look, loop_while, send_loop, execute_cmd_send_all_packet,
}
use game_server.Server.Sending.{
  Output, Sends, all_sent, all_sent-append, all_sent-same, send_packets-eq, taken, found_with,
  AllSent, IsPrepared, refill, look-refill, arrive-send,
}

-- The state after one round
abbrev rounded : Output → SendState → SendState
rounded w s =
    let (pool, cache) = release_all_packets s.pool s.network.send_cache in
    record {
      pool = pool;
      network = record s.network { send_cache = cache };
      sent = all_sent w s.pool s.network.send_cache.packets s.sent;
    }

send_round-eq :
    (send : Sender) (w : Output)
    → Sends send w
    → (s : SendState) → send_round send s ≡ some (rounded w s)
unfolding send_round
send_round-eq send w h s =
    ap
      (λ o. o >>= λ sent.
        let (pool, cache) = release_all_packets s.pool s.network.send_cache in
        some
          (record { pool = pool; network = record s.network { send_cache = cache }; sent = sent }))
      (send_packets-eq send w h s.pool s.network.send_cache.packets s.sent)

module _ (n : ℕ) (send : Sender) (w : Output) (h : Sends send w) where
  round-Owned :
      (s : SendState) (held : List MemoryRef)
      → Owned n s.pool (memories_of s.network.send_cache.packets ++ held)
      → Owned n (rounded w s).pool held
        × ((rounded w s).network.send_cache.packets ≡ [])
        × ((m : MemoryRef) → IsHeld m held → memory_at (rounded w s).pool m ≡ memory_at s.pool m)
  round-Owned s held o =
      let (o', e, _, keeps) = release_all_packets-Owned n s.pool s.network.send_cache held o in
      (o', e, keeps)

  -- The loop stops: nothing is in the send queue when it looks.
  stops :
      (s : SendState) (c : NetworkContext) (held : List MemoryRef)
      (again : SendState → Option (ℕ × SendState))
      → Owned n s.pool (memories_of s.network.send_cache.packets ++ held)
      → c.send_cache.packets ≡ []
      → c.send.packets ≡ []
      → (c.recv_prepare ≡ s.network.recv_prepare)
        × (c.recv ≡ s.network.recv)
        × (c.logic ≡ s.network.logic)
        × (c.signal ≡ s.network.signal)
        × IsPrepared s.network c
      → AllSent n w s s.network.send_cache.packets held (loop_while (look (rounded w s) c) again)
  unfolding loop_while look packet_send_prepare_cache
  stops s c held again o e e' same = record {
    after = (look (rounded w s) c).1;
    returned =
        ap (λ t. loop_while (t, (look (rounded w s) c).1) again) ((refill c e).1 ∙ ap length e');
    sent = refl;
    owned = (round-Owned s held o).0;
    keeps = (round-Owned s held o).2;
    cache_empty = (refill c e).0 ∙ e';
    send_empty = (refill c e).2;
    prepared = same.4;
    others = (same.0, same.1, same.2, same.3);
  }

  -- The loop goes on with what has arrived.
  goes_on :
      (s : SendState) (c : NetworkContext) (ks more : List NetPacket) (held : List MemoryRef)
      (again : SendState → Option (ℕ × SendState)) (k : NetPacket) (arrived : List NetPacket)
      → Owned n s.pool
          (memories_of s.network.send_cache.packets ++ (memories_of (ks ++ more) ++ held))
      → c.send_cache.packets ≡ []
      → c.send.packets ≡ ks
      → ks ≡ k ∷ arrived
      → (c.recv_prepare ≡ s.network.recv_prepare)
        × (c.recv ≡ s.network.recv)
        × (c.logic ≡ s.network.logic)
        × (c.signal ≡ s.network.signal)
        × IsPrepared s.network c
      → AllSent n w (look (rounded w s) c).1 (ks ++ more) held (again (look (rounded w s) c).1)
      → AllSent n w s
          (s.network.send_cache.packets ++ (ks ++ more))
          held
          (loop_while (look (rounded w s) c) again)
  unfolding loop_while look packet_send_prepare_cache
  goes_on s c ks more held again k arrived o e e' q same a = record {
    after = a.after;
    returned =
        ap (λ t. loop_while (t, (look (rounded w s) c).1) again)
          ((refill c e).1 ∙ ap length (e' ∙ q))
        ∙ a.returned;
    sent =
        a.sent
        ∙ all_sent-same w s.pool (rounded w s).pool (ks ++ more) (rounded w s).sent
            (λ m i. r.2 m (IsHeld-append_left m (memories_of (ks ++ more)) held i))
        ∙ sym (all_sent-append w s.pool s.network.send_cache.packets (ks ++ more) s.sent);
    owned = a.owned;
    keeps = λ m i. a.keeps m i ∙ r.2 m (IsHeld-append m (memories_of (ks ++ more)) held i);
    cache_empty = a.cache_empty;
    send_empty = a.send_empty;
    prepared = elim a.prepared [
      | inl e ↦ elim same.4 [ inl q ↦ inl (e ∙ q) | inr q ↦ inr (e ∙ q) ]
      | inr e ↦ inr e
    ];
    others = (a.others.0 ∙ same.0, a.others.1 ∙ same.1, a.others.2 ∙ same.2, a.others.3 ∙ same.3);
  }
    where
      r :
          Owned n (rounded w s).pool (memories_of (ks ++ more) ++ held)
          × ((rounded w s).network.send_cache.packets ≡ [])
          × ((m : MemoryRef)
              → IsHeld m (memories_of (ks ++ more) ++ held)
              → memory_at (rounded w s).pool m ≡ memory_at s.pool m)
      r = round-Owned s (memories_of (ks ++ more) ++ held) o

  round_then :
      (s : SendState) (f : NetworkContext → NetworkContext)
      (again : SendState → Option (ℕ × SendState))
      → (send_round send s >>= λ s'. loop_while (look s' (f s'.network)) again)
        ≡ loop_while (look (rounded w s) (f (rounded w s).network)) again
  round_then s f again =
      ap (λ o. o >>= λ s'. loop_while (look s' (f s'.network)) again) (send_round-eq send w h s)

  arrive-others :
      (ks : List NetPacket) (c : NetworkContext)
      → ((arrive ks c).recv_prepare ≡ c.recv_prepare)
        × ((arrive ks c).recv ≡ c.recv)
        × ((arrive ks c).logic ≡ c.logic)
        × ((arrive ks c).signal ≡ c.signal)
        × ((arrive ks c).send_cache ≡ c.send_cache)
        × IsPrepared c (arrive ks c)
        × ((arrive ks c).send_prepare ≡ Queue.init)
  unfolding arrive packet_send_prepare
  arrive-others ks c = let e = copy_from-init c.send _ in (refl, refl, refl, refl, refl, inr e, e)

  none_left :
      (ks : List NetPacket) (s : SendState) (held : List MemoryRef)
      (result : Option (ℕ × SendState))
      → AllSent n w s ks held result
      → AllSent n w s (ks ++ []) held result
  none_left ks s held result = subst (λ xs. AllSent n w s xs held result) (sym (append-nil ks))

  -- What a look finds decides whether the loop goes on.
  looked :
      (ks : List NetPacket) (later : List (List NetPacket)) (s : SendState) (held : List MemoryRef)
      (xs : List NetPacket)
      → s.network.send_prepare.packets ++ ks ≡ xs
      → s.network.send ≡ Queue.init
      → Owned n s.pool (
          memories_of s.network.send_cache.packets
          ++ (memories_of (found_with xs (taken [] later)) ++ held))
      → ((s' : SendState)
          → s'.network.send_prepare.packets ≡ []
          → s'.network.send ≡ Queue.init
          → Owned n s'.pool
              (memories_of s'.network.send_cache.packets ++ (memories_of (taken [] later) ++ held))
          → AllSent n w s'
              (s'.network.send_cache.packets ++ taken [] later)
              held
              (send_loop send later s'))
      → AllSent n w s
          (s.network.send_cache.packets ++ found_with xs (taken [] later))
          held
          (send_loop send (ks ∷ later) s)
  unfolding send_loop
  looked ks later s held [] q e o ih =
      let c = arrive ks (rounded w s).network in
      let (a, b, d, f, g, t, p) = arrive-others ks (rounded w s).network in
      none_left s.network.send_cache.packets s held (send_loop send (ks ∷ later) s) (
        subst (AllSent n w s s.network.send_cache.packets held)
          (sym (round_then s (arrive ks) (send_loop send later)))
          (stops s c held (send_loop send later) o
            (ap (λ (q : NetPacketQueue). q.packets) g ∙ (round-Owned s held o).1)
            (arrive-send ks (rounded w s).network e ∙ q) (a, b, d, f, t)))
  looked ks later s held (x ∷ xs) q e o ih =
      let c = arrive ks (rounded w s).network in
      let (a, b, d, f, g, t, p) = arrive-others ks (rounded w s).network in
      let r = round-Owned s (memories_of ((x ∷ xs) ++ taken [] later) ++ held) o in
      let empty : c.send_cache.packets ≡ [] = ap (λ (q : NetPacketQueue). q.packets) g ∙ r.1 in
      let there : c.send.packets ≡ x ∷ xs = arrive-send ks (rounded w s).network e ∙ q in
      let next = (look (rounded w s) c).1 in
      let cache : next.network.send_cache.packets ≡ x ∷ xs =
        (look-refill (rounded w s) c empty).0 ∙ there in
      let owned : Owned n next.pool
          (memories_of next.network.send_cache.packets ++ (memories_of (taken [] later) ++ held)) =
        subst (λ ys. Owned n next.pool (memories_of ys ++ (memories_of (taken [] later) ++ held)))
          (sym cache)
          (subst (λ p. Owned n p (memories_of (x ∷ xs) ++ (memories_of (taken [] later) ++ held)))
            (sym (look-refill (rounded w s) c empty).2)
            (subst (Owned n (rounded w s).pool)
              (ap (◌++ held) (memories_of-append (x ∷ xs) (taken [] later))
                ∙ append_assoc (memories_of (x ∷ xs)) (memories_of (taken [] later)) held)
              r.0)) in
      let prepared : next.network.send_prepare.packets ≡ [] =
        unfold look in
        unfold packet_send_prepare_cache in ap (λ (q : NetPacketQueue). q.packets) p in
      subst (AllSent n w s (s.network.send_cache.packets ++ ((x ∷ xs) ++ taken [] later)) held)
        (sym (round_then s (arrive ks) (send_loop send later)))
        (goes_on s c (x ∷ xs) (taken [] later) held (send_loop send later) x xs o empty there refl
          (a, b, d, f, t)
          (subst (λ ys. AllSent n w next (ys ++ taken [] later) held (send_loop send later next))
            cache (ih next prepared (look-refill (rounded w s) c empty).1 owned)))

  send_loop-AllSent :
      (schedule : List (List NetPacket)) (s : SendState) (held : List MemoryRef)
      (waiting : List NetPacket)
      → s.network.send_prepare.packets ≡ waiting
      → s.network.send ≡ Queue.init
      → Owned n s.pool (
          memories_of s.network.send_cache.packets
          ++ (memories_of (taken waiting schedule) ++ held))
      → AllSent n w s
          (s.network.send_cache.packets ++ taken waiting schedule)
          held
          (send_loop send schedule s)
  unfolding send_loop taken
  send_loop-AllSent [] s held waiting q e o =
      none_left s.network.send_cache.packets s held (send_loop send [] s) (
        subst (AllSent n w s s.network.send_cache.packets held)
          (sym (round_then s (λ c. c) (λ _. none)))
          (stops s (rounded w s).network held (λ _. none) o (round-Owned s held o).1
            (ap (λ (q : NetPacketQueue). q.packets) e) (refl, refl, refl, refl, inl refl)))
  send_loop-AllSent (ks ∷ later) s held waiting q e o =
      looked ks later s held (waiting ++ ks) (ap (◌++ ks) q) e o
        (λ s' q' e' o'. send_loop-AllSent later s' held [] q' e' o')

-- The call as a whole, for a sender that sends `w`.
pub execute-AllSent :
    (n : ℕ) (send : Sender) (w : Output) (schedule : List (List NetPacket)) (s : SendState)
    (held : List MemoryRef)
    → Sends send w
    → IsCounted s.network.send_cache
    → Owned n s.pool (
        memories_of (
          (s.network.send_cache.packets ++ s.network.send.packets)
          ++ taken s.network.send_prepare.packets schedule)
        ++ held)
    → AllSent n w s
        ((s.network.send_cache.packets ++ s.network.send.packets)
          ++ taken s.network.send_prepare.packets schedule)
        held
        (execute_cmd_send_all_packet send schedule s)
unfolding execute_cmd_send_all_packet packet_send_prepare_cache
execute-AllSent n send w schedule s held h counted o = record {
  after = a.after;
  returned = a.returned;
  sent =
      a.sent
      ∙ ap (λ ks. all_sent w s.pool (ks ++ taken s.network.send_prepare.packets schedule) s.sent)
          l.0;
  owned = a.owned;
  keeps = a.keeps;
  cache_empty = a.cache_empty;
  send_empty = a.send_empty;
  prepared = a.prepared;
  others = a.others;
}
  where
    start : SendState
    start = record s { network = (packet_send_prepare_cache s.network).1 }

    l :
        (start.network.send_cache.packets ≡ s.network.send_cache.packets ++ s.network.send.packets)
        × ((copy_from s.network.send_cache s.network.send).0
            ≡ length s.network.send_cache.packets + length s.network.send.packets)
        × (start.network.send_cache.packet_num ≡ (copy_from s.network.send_cache s.network.send).0)
        × (start.network.send ≡ Queue.init)
    l = copy_from_lem s.network.send_cache s.network.send counted

    a :
        AllSent n w start
          (start.network.send_cache.packets ++ taken s.network.send_prepare.packets schedule)
          held
          (send_loop send schedule start)
    a = send_loop-AllSent n send w h schedule start held s.network.send_prepare.packets refl l.3 (
        subst (Owned n s.pool)
          (ap (◌++ held) (
              memories_of-append (s.network.send_cache.packets ++ s.network.send.packets)
                (taken s.network.send_prepare.packets schedule))
            ∙ append_assoc (memories_of (s.network.send_cache.packets ++ s.network.send.packets))
                (memories_of (taken s.network.send_prepare.packets schedule)) held
            ∙ ap
                (λ ks.
                  memories_of ks
                  ++ (memories_of (taken s.network.send_prepare.packets schedule) ++ held))
                (sym l.0))
          o)
