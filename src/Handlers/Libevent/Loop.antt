-- ===== src/Handlers/Libevent/Loop.antt =====
-- network/libevent/libevent_handle.cpp, `OnBufferEventRead` as a whole.
use game_server.Prelude.{
  ℕ, zero, suc, ◌+◌, ◌≤◌, ◌<◌, ◌≡◌, sym, ap, ap₂, subst, ◌∙◌, ◌⊎◌, inl, inr, List, [], ◌++◌,
  append_assoc, append-nil, length, length-append, Option, some, ◌>>=◌, arith, ltb, true,
  if◌then◌else◌,
}
use game_server.Memory.{MemoryRef, memory_at}
use game_server.Memory.Ownership.{Owned}
use game_server.Memory.Contents.{IsHeld}
use game_server.Packet.{NetPacket}
use game_server.Queue
use game_server.Queue.{NetPacketQueue}
use game_server.Queue.Laws.{IsCounted}
use game_server.Queue.Ownership.{memories_of, memories_of-append, IsHeld-append, IsHeld-append_left}
use game_server.Network.Buffer.{ClientBuffer, IsSized, capacity, pending}
use game_server.Network.Framing.{Parsed, finished, prepend, parse_all}
use game_server.Network.Framing.Stream.{parse_all-append}
use game_server.Network.Receive.{views, expected}
use game_server.Clients.{Client, get_client_by_fd}
use game_server.Handlers.{ServerState}
use game_server.Handlers.Libevent.{read_loop, read_round, on_buffer_event_read, found}
use game_server.Handlers.Libevent.Draining.{IsReader}
use game_server.Network.Views.{views-append, views-same, expected-append, Owned-swap, no_packets}
use game_server.Handlers.Libevent.Turn.{
  AreSame, IsUpdated, AreUnread, Turn, read_round-Turn, expected-same,
}

-- What the callback has done: `used` was read, and its frames and those that waited are packets.
pub record Drained {E : Type 0} (input : E → List ℕ) (n : ℕ) (s : ServerState) (r : ℕ) (c : Client)
    (held : List MemoryRef) (e : E) (result : Option (ServerState × E)) : Type 0 where
  pub after : ServerState
  pub rest : E
  pub used : List ℕ
  pub context : ClientBuffer
  pub new : List NetPacket
  pub returned : result ≡ some (after, rest)
  pub split : input e ≡ used ++ input rest
  pub stops : (input rest ≡ []) ⊎ (context.buffer_size ≡ capacity)
  pub updated : IsUpdated s.clients after.clients r c context
  pub waits : pending context ≡ (parse_all (pending c.context ++ used)).rest
  pub sized : IsSized context
  pub same_client : AreSame context c.context
  pub queued :
      after.network.recv.packets ≡ s.network.recv.packets ++ (s.network.recv_prepare.packets ++ new)
  pub prepare : after.network.recv_prepare ≡ Queue.init
  pub signal : after.network.signal ≡ (if ltb 0 (length new) then true else s.network.signal)
  pub others : AreUnread s.network after.network
  pub seen :
      views after.pool new ≡ expected c.context (parse_all (pending c.context ++ used)).frames
  pub owned : Owned n after.pool (memories_of new ++ held)
  pub keeps : (m : MemoryRef) → IsHeld m held → memory_at after.pool m ≡ memory_at s.pool m

module _ {E : Type 0} (read : E → ℕ → List ℕ × E) (input : E → List ℕ) (law : IsReader read input)
    (n : ℕ) (clock : ℕ → ℕ → ℕ) (r : ℕ) where
  -- A round that is the last
  last_round :
      (s : ServerState) (c : Client) (held : List MemoryRef) (e : E)
      (again : ServerState → E → Option (ServerState × E)) (result : Option (ServerState × E))
      → (t : Turn input n s r c held e again result) → t.second ≡ []
      → result ≡ some (t.state, t.rest)
      → (input t.rest ≡ []) ⊎ (t.buffer.buffer_size ≡ capacity)
      → Drained input n s r c held e result
  last_round s c held e again result t nothing runs why = record {
    after = t.state;
    rest = t.rest;
    used = t.first;
    context = t.buffer;
    new = t.new;
    returned = runs;
    split = t.split ∙ ap (λ l. t.first ++ (l ++ input t.rest)) nothing;
    stops = why;
    updated = t.updated;
    waits =
        t.waits
        ∙ ap (λ l. (parse_all (pending c.context ++ t.first)).rest ++ l) nothing
        ∙ append-nil (parse_all (pending c.context ++ t.first)).rest;
    sized = t.sized;
    same_client = t.same_client;
    queued = t.queued;
    prepare = t.prepare;
    signal = t.signal;
    others = t.others;
    seen = t.seen;
    owned = t.owned;
    keeps = t.keeps;
  }

  -- The bytes of a round and of those after it, unpacked at once
  at_once :
      (c : Client) (first second used : List ℕ) (b : ClientBuffer)
      → (parse_all (pending c.context ++ first)).status ≡ finished
      → pending b ≡ (parse_all (pending c.context ++ first)).rest ++ second
      → parse_all (pending c.context ++ (first ++ (second ++ used)))
        ≡ prepend (parse_all (pending c.context ++ first)).frames (parse_all (pending b ++ used))
  at_once c first second used b whole waits =
      ap parse_all (sym (append_assoc (pending c.context) first (second ++ used)))
      ∙ parse_all-append (pending c.context ++ first) (second ++ used) whole
      ∙ ap (λ l. prepend (parse_all (pending c.context ++ first)).frames (parse_all l))
          (sym (append_assoc (parse_all (pending c.context ++ first)).rest second used)
            ∙ ap (◌++ used) (sym waits))

  -- A round with the rounds after it
  more_rounds :
      (s : ServerState) (c : Client) (held : List MemoryRef) (e : E)
      (again : ServerState → E → Option (ServerState × E)) (result : Option (ServerState × E))
      → (t : Turn input n s r c held e again result) → result ≡ again t.state t.rest
      → Drained input n t.state r
          (record c { context = t.buffer })
          (memories_of t.new ++ held)
          t.rest
          (again t.state t.rest)
      → Drained input n s r c held e result
  more_rounds s c held e again result t runs l =
      let both : Parsed = parse_all (pending t.buffer ++ l.used) in
      let whole_parse : parse_all (pending c.context ++ (t.first ++ (t.second ++ l.used)))
          ≡ prepend (parse_all (pending c.context ++ t.first)).frames both =
        at_once c t.first t.second l.used t.buffer t.whole t.waits in
      record {
        after = l.after;
        rest = l.rest;
        used = t.first ++ (t.second ++ l.used);
        context = l.context;
        new = t.new ++ l.new;
        returned = runs ∙ l.returned;
        split =
            t.split
            ∙ ap (λ bytes. t.first ++ (t.second ++ bytes)) l.split
            ∙ ap (◌++◌ t.first) (sym (append_assoc t.second l.used (input l.rest)))
            ∙ sym (append_assoc t.first (t.second ++ l.used) (input l.rest));
        stops = l.stops;
        updated = record {
          stored = l.updated.stored;
          others = λ q ne. l.updated.others q ne ∙ t.updated.others q ne;
          maps = (l.updated.maps.0 ∙ t.updated.maps.0, l.updated.maps.1 ∙ t.updated.maps.1);
          next = l.updated.next ∙ t.updated.next;
        };
        waits = l.waits ∙ sym (ap (λ (q : Parsed). q.rest) whole_parse);
        sized = l.sized;
        same_client = (l.same_client.0 ∙ t.same_client.0, l.same_client.1 ∙ t.same_client.1);
        queued = queues;
        prepare = l.prepare;
        signal = ground (arith, t.signal, l.signal, length-append t.new l.new);
        others = (
          l.others.0 ∙ t.others.0,
          l.others.1 ∙ t.others.1,
          l.others.2 ∙ t.others.2,
          l.others.3 ∙ t.others.3,
        );
        seen =
            views-append l.after.pool t.new l.new
            ∙ ap₂ ◌++◌
                (views-same t.state.pool l.after.pool t.new
                    (λ m i. l.keeps m (IsHeld-append_left m (memories_of t.new) held i))
                  ∙ t.seen)
                (l.seen ∙ expected-same t.buffer c.context both.frames t.same_client)
            ∙ sym (
                expected-append c.context (parse_all (pending c.context ++ t.first)).frames
                  both.frames)
            ∙ sym (ap (λ (q : Parsed). expected c.context q.frames) whole_parse);
        owned =
            rw (memories_of-append t.new l.new)
              (Owned-swap n l.after.pool (memories_of t.new) (memories_of l.new) held l.owned);
        keeps = λ m i. l.keeps m (IsHeld-append m (memories_of t.new) held i) ∙ t.keeps m i;
      }
    where
      queues :
          l.after.network.recv.packets
          ≡ s.network.recv.packets ++ (s.network.recv_prepare.packets ++ (t.new ++ l.new))
      queues =
          l.queued
          ∙ ap₂ (λ q p. q ++ (p ++ l.new)) t.queued
              (ap (λ (q : NetPacketQueue). q.packets) t.prepare ∙ no_packets)
          ∙ append_assoc s.network.recv.packets (s.network.recv_prepare.packets ++ t.new) l.new
          ∙ ap (◌++◌ s.network.recv.packets)
              (append_assoc s.network.recv_prepare.packets t.new l.new)

  module _ {again : ServerState → E → Option (ServerState × E)} {result : Option (ServerState × E)}
      (s : ServerState) (c : Client) (held : List MemoryRef) (e : E)
      (t : Turn input n s r c held e again result) where
    still :
        (parse_all (pending c.context ++ input e)).status ≡ finished
        → (parse_all (pending t.buffer ++ input t.rest)).status ≡ finished
    still done =
        sym (
          ap (λ (q : Parsed). q.status)
            (at_once c t.first t.second (input t.rest) t.buffer t.whole t.waits))
        ∙ ap (λ l. (parse_all (pending c.context ++ l)).status) (sym t.split)
        ∙ done

    shorter : length t.second + length (input t.rest) ≤ length (input e)
    shorter = omega (
      arith,
      ap length t.split,
      length-append t.first (t.second ++ input t.rest),
      length-append t.second (input t.rest),
    )

  drains :
      (fuel : ℕ) (s : ServerState) (c : Client) (held : List MemoryRef) (e : E)
      → s.clients.store r ≡ some c
      → IsSized c.context
      → IsCounted s.network.recv
      → Owned n s.pool held
      → (parse_all (pending c.context ++ input e)).status ≡ finished
      → length (input e) < fuel
      → Drained input n s r c held e (read_loop read fuel clock r s e)
  unfolding read_loop
  drains zero s c held e live z counted o done h = absurd (omega arith)
  drains (suc fuel) s c held e live z counted o done h =
      let t =
        read_round-Turn read input law n (clock fuel) r (read_loop read fuel clock r) s c held e z
          counted o done in
      subst (Drained input n s r c held e)
        (sym
          (ap (λ o'. o' >>= read_round read (read_loop read fuel clock r) (clock fuel) s r e) live))
        (elim t.goes [
          | inl (some_read, runs) ↦
              more_rounds s c held e (read_loop read fuel clock r)
                (read_round read (read_loop read fuel clock r) (clock fuel) s r e c) t runs
                (drains fuel t.state (record c { context = t.buffer }) (memories_of t.new ++ held)
                  t.rest t.updated.stored t.sized t.counted t.owned (still s c held e t done)
                  (omega (arith, h, shorter s c held e t, some_read)))
          | inr (nothing, runs, why) ↦
              last_round s c held e (read_loop read fuel clock r)
                (read_round read (read_loop read fuel clock r) (clock fuel) s r e c) t nothing runs
                why
        ])

  -- If no frame in the client's bytes is bad, `OnBufferEventRead` returns, given as much fuel as there are
  -- bytes. It reads until there is nothing left or the buffer is full with an unfinished frame; the
  -- packets that it queues are the frames of the bytes that waited and of those that it read, in order,
  -- each in a memory of its own, and the unfinished bytes wait. The signal is raised if there was a
  -- packet. No other client changes, nor does a queue of packets to be sent.
  pub on_buffer_event_read-Drained :
      (fuel client_fd : ℕ) (s : ServerState) (c : Client) (held : List MemoryRef) (e : E)
      → get_client_by_fd s.clients client_fd ≡ some r
      → s.clients.store r ≡ some c
      → IsSized c.context
      → IsCounted s.network.recv
      → Owned n s.pool held
      → (parse_all (pending c.context ++ input e)).status ≡ finished
      → length (input e) < fuel
      → Drained input n s r c held e (on_buffer_event_read read fuel clock s client_fd e)
  unfolding on_buffer_event_read found
  on_buffer_event_read-Drained fuel client_fd s c held e f live z counted o done h =
      subst (Drained input n s r c held e) (sym (ap (found read fuel clock s e) f))
        (drains fuel s c held e live z counted o done h)
