-- ===== src/Logic/Loop.antt =====
-- service/gamesvr/gamelogic.cpp, the loop of `_ProcessCSNetworkPacketHandle` and
-- `_ProcessSSNetworkPacketHandle`: packet after packet, at any handler that answers.
use game_server.Prelude.{
  ℕ, suc, ◌+◌, ◌≡◌, refl, sym, ap, ap₂, subst, ◌∙◌, List, [], ◌∷◌, ◌++◌, append-nil, append_assoc,
  Option, some, ◌>>=◌, Bool, true, false, if◌then◌else◌, length, length-append, get_elem?,
  replicate, arith,
}
use game_server.Memory.{MemoryPool, MemoryRef, memory_at}
use game_server.Memory.Ownership.{Owned}
use game_server.Memory.Contents.{IsHeld}
use game_server.Packet.{NetPacket, packet_body}
use game_server.Queue.{NetPacketQueue}
use game_server.Queue.Laws.{IsCounted}
use game_server.Queue.Ownership.{
  memories_of, memories_of-append, IsHeld-cons, IsHeld-append, IsHeld-append_left,
}
use game_server.Network.{NetworkContext}
use game_server.Network.Receive.{View}
use game_server.Network.Views.{views-append, views-same, Owned-swap}
use game_server.Connector.Commands.{send_all}
use game_server.Logic.{Handler, LogicState, packets_sent, send_network_packets, process_packets}
use game_server.Logic.Answers.{Answer, answers, fits, Responded, Responds}
use game_server.Logic.Packets.{
  outgoing, flushes, Replied, Handed, flushed, get_elem?-behind, replicate-add, fits-append,
  answers-same, sizes-append, body_sizes-append,
}

Replied-nil :
    (n : ℕ) (s : LogicState) (held : List MemoryRef)
    → IsCounted s.network.send
    → Owned n s.pool held
    → Replied n s held [] 0 (some s)
Replied-nil n s held counted o = record {
  after = s;
  new = [];
  returned = refl;
  server = refl;
  queued = sym (append-nil (outgoing s.network));
  counted = counted;
  kept = (refl, refl, refl, refl, refl);
  commands = sym (append-nil s.commands);
  seen = refl;
  sized = refl;
  owned = o;
  keeps = λ m i. refl;
}

-- The state once a handler has answered
abbrev answered : (s : LogicState) → MemoryPool → NetPacketQueue → LogicState
answered s p q = record s { pool = p; network = record s.network { send_prepare = q } }

-- A packet's round in front of those that follow
Replied-cons :
    (n : ℕ) (s : LogicState) (held : List MemoryRef) (vs ws : List View) (sends later : ℕ)
    (answer : Option (MemoryPool × NetworkContext)) (s' : LogicState) (result : Option LogicState)
    → (r : Responded n s.pool s.network held vs answer)
    → Handed (answered s r.pool r.queue) s' sends
    → Replied n s' (memories_of r.new ++ held) ws later result
    → Replied n s held (vs ++ ws) (sends + later) result
Replied-cons n s held vs ws sends later answer s' result r d l = record {
  after = l.after;
  new = r.new ++ l.new;
  returned = l.returned;
  server = l.server ∙ d.server;
  queued =
      l.queued
      ∙ ap (◌++ l.new) (
          d.queued
          ∙ ap (◌++◌ s.network.send.packets) r.packets
          ∙ sym (append_assoc s.network.send.packets s.network.send_prepare.packets r.new))
      ∙ append_assoc (outgoing s.network) r.new l.new;
  counted = l.counted;
  kept = (
    l.kept.0 ∙ d.kept.0,
    l.kept.1 ∙ d.kept.1,
    l.kept.2 ∙ d.kept.2,
    l.kept.3 ∙ d.kept.3,
    l.kept.4 ∙ d.kept.4,
  );
  commands =
      l.commands
      ∙ ap (◌++ replicate later send_all) d.commands
      ∙ append_assoc s.commands (replicate sends send_all) (replicate later send_all)
      ∙ ap (◌++◌ s.commands) (sym (replicate-add sends later send_all));
  seen =
      views-append l.after.pool r.new l.new
      ∙ ap₂ ◌++◌
          (views-same r.pool l.after.pool r.new
              (λ m i. still m (IsHeld-append_left m (memories_of r.new) held i))
            ∙ r.seen)
          l.seen;
  sized = sizes-append r.new l.new ∙ ap₂ ◌++◌ r.sized l.sized ∙ sym (body_sizes-append vs ws);
  owned =
      rw (memories_of-append r.new l.new)
        (Owned-swap n l.after.pool (memories_of r.new) (memories_of l.new) held l.owned);
  keeps = λ m i. still m (IsHeld-append m (memories_of r.new) held i) ∙ r.keeps m i;
}
  where
    still :
        (m : MemoryRef)
        → IsHeld m (memories_of r.new ++ held)
        → memory_at l.after.pool m ≡ memory_at r.pool m
    still m i = l.keeps m i ∙ ap (λ (p : MemoryPool). memory_at p m) d.pool

flush_sent :
    (b : Bool) (s : LogicState)
    → s.has_server ≡ true
    → (if b then send_network_packets s else some s) ≡ some (if b then packets_sent s else s)
unfolding send_network_packets
flush_sent true s server = rw server refl
flush_sent false s server = refl

process_packets-step :
    (handle : Handler) (flush : ℕ → Bool) (left i : ℕ) (s : LogicState) (k : NetPacket)
    (p : MemoryPool) (c : NetworkContext)
    → get_elem? s.network.logic.packets i ≡ some k
    → handle i k s.pool s.network ≡ some (p, c)
    → s.has_server ≡ true
    → let s' : LogicState = record s { pool = p; network = c } in
      process_packets handle flush (suc left) i s
      ≡ process_packets handle flush left (i + 1) (if flush i then packets_sent s' else s')
unfolding process_packets
process_packets-step handle flush left i s k p c e r server =
    rw (e, process_packets)
      (rw r (
        ap (λ o. o >>= process_packets handle flush left (i + 1))
          (flush_sent (flush i) (record s { pool = p; network = c }) server)))

module _ (handle : Handler) (a : Answer) (law : Responds handle a) (flush : ℕ → Bool) (n : ℕ) where
  -- The loop from index i on, which is that of the first of `ks` in the logic queue, returns with their
  -- answers behind the packets to be sent; the server has started.
  pub process_packets-Replied :
      (i : ℕ) (done ks : List NetPacket) (s : LogicState) (held : List MemoryRef)
      → s.network.logic.packets ≡ done ++ ks
      → length done ≡ i
      → ((m : MemoryRef) → IsHeld m (memories_of ks) → IsHeld m held)
      → s.has_server ≡ true
      → IsCounted s.network.send
      → Owned n s.pool held
      → fits (answers a s.pool i ks) ≡ true
      → Replied n s held
          (answers a s.pool i ks)
          (flushes flush i (length ks))
          (process_packets handle flush (length ks) i s)
  unfolding process_packets answers flushes
  process_packets-Replied i done [] s held e at inside server counted o f =
      Replied-nil n s held counted o
  process_packets-Replied i done (k ∷ ks) s held e at inside server counted o f =
      let (f₁, f₂) = fits-append (a i k (packet_body s.pool k)) (answers a s.pool (i + 1) ks) f in
      let r = law n i k s.pool s.network held o f₁ in
      let s₁ = answered s r.pool r.queue in
      let s₂ : LogicState = if flush i then packets_sent s₁ else s₁ in
      let d = flushed (flush i) s₁ counted in
      let here : get_elem? s.network.logic.packets i ≡ some k =
        ap₂ (λ (l : List NetPacket) (j : ℕ). get_elem? l j) e (sym at)
        ∙ get_elem?-behind done k ks in
      let same : answers a s₂.pool (i + 1) ks ≡ answers a s.pool (i + 1) ks =
        answers-same a s.pool s₂.pool (i + 1) ks (λ m j.
          ap (λ (p : MemoryPool). memory_at p m) d.pool
          ∙ r.keeps m (inside m (IsHeld-cons m k.memory (memories_of ks) j))) in
      let later =
        process_packets-Replied (i + 1) (done ++ k ∷ []) ks s₂ (memories_of r.new ++ held)
          (ap (λ (q : NetPacketQueue). q.packets) d.kept.2
            ∙ e
            ∙ sym (append_assoc done (k ∷ []) ks))
          (omega (arith, length-append done (k ∷ []), at))
          (λ m j.
            IsHeld-append m (memories_of r.new) held
              (inside m (IsHeld-cons m k.memory (memories_of ks) j)))
          (d.server ∙ server) d.counted
          (subst (λ p. Owned n p (memories_of r.new ++ held)) (sym d.pool) r.owned)
          (ap fits same ∙ f₂) in
      subst
        (Replied n s held (a i k (packet_body s.pool k) ++ answers a s.pool (i + 1) ks)
          ((if flush i then 1 else 0) + flushes flush (i + 1) (length ks)))
        (sym (
          process_packets-step handle flush (length ks) i s k r.pool
            (record s.network { send_prepare = r.queue }) here r.returned server))
        (Replied-cons n s held (a i k (packet_body s.pool k)) (answers a s.pool (i + 1) ks)
          (if flush i then 1 else 0) (flushes flush (i + 1) (length ks))
          (handle i k s.pool s.network) s₂ (process_packets handle flush (length ks) (i + 1) s₂) r d
          (subst
            (λ vs.
              Replied n s₂ (memories_of r.new ++ held) vs (flushes flush (i + 1) (length ks))
                (process_packets handle flush (length ks) (i + 1) s₂))
            same later))
