-- ===== src/Network/Unpack.antt =====
-- `UnpackPacketToRecvQueue` as a whole: what it does to the queues, the signal, the packet memories
-- and the client's buffer.
use game_server.Prelude.{
  ℕ, zero, suc, ◌+◌, ◌≤◌, ◌≡◌, ◌≢◌, refl, ap, sym, subst, ◌∙◌, List, ◌++◌, some, true, ltb,
  if◌then◌else◌, arith, length, length-take, length-drop, length-append, take, drop, take-append,
  lt→ltb,
}
use game_server.Prelude.Int.{ℤ, pos}
use game_server.Memory.{MemoryPool, MemoryRef, memory_at}
use game_server.Memory.Ownership.{Owned}
use game_server.Memory.Contents.{IsHeld}
use game_server.Packet.{NetPacket}
use game_server.Queue
use game_server.Queue.{NetPacketQueue}
use game_server.Queue.Laws.{IsCounted, copy_from_lem}
use game_server.Queue.Ownership.{memories_of}
use game_server.Network.Buffer.{
  ClientBuffer, IsSized, capacity, move_buffer_ptr, pending, length-zeroed,
}
use game_server.Network.Framing.{
  Status, finished, bad_body, too_long, code, Parsed, parse, parse_all,
}
use game_server.Network.Framing.Stream.{parse-fuel}
use game_server.Network.Receive.{views, expected, Progress, unpack_loop_lem}
use game_server.Network.{
  NetworkContext, Loop, packet_recv_prepare, after_loop, finish, unpack_packet_to_recv_queue,
}

-- `MoveBufferPtr` leaves the bytes from the pointer on, and the array keeps its size.
pub move_buffer_ptr_lem :
    (c : ClientBuffer) (offset left : ℕ)
    → IsSized c
    → offset + left ≤ capacity
    → let c' = move_buffer_ptr c offset left in
      (pending c' ≡ take left (drop offset c.buffer))
      × IsSized c'
      × (c'.buffer_size ≡ left)
      × (c'.client_seq ≡ c.client_seq)
      × (c'.client_fd ≡ c.client_fd)
unfolding move_buffer_ptr
move_buffer_ptr_lem c offset zero z h =
    (refl, record { whole = length-zeroed capacity; within = omega arith }, refl, refl, refl)
move_buffer_ptr_lem c offset (suc left) z h = rw (lt→ltb 0 (suc left) (omega arith)) (
  take-append (suc left) (take (suc left) (drop offset c.buffer)) (drop (suc left) c.buffer)
      (omega (arith, moved)),
  record {
    whole = omega (
      arith,
      z.whole,
      moved,
      length-drop (suc left) c.buffer,
      length-append (take (suc left) (drop offset c.buffer)) (drop (suc left) c.buffer),
    );
    within = omega arith;
  },
  refl,
  refl,
  refl,
)
  where
    moved : length (take (suc left) (drop offset c.buffer)) ≡ suc left
    moved =
        omega (
          arith,
          length-take (suc left) (drop offset c.buffer),
          length-drop offset c.buffer,
          z.whole,
        )

-- The loop's variables at its start.
abbrev start : MemoryPool → NetworkContext → ClientBuffer → Loop
start p net c = record {
  pool = p;
  queue = net.recv_prepare;
  offset = 0;
  left = c.buffer_size;
  total = 0;
}

-- The function is its loop and what follows it; the loop does what `parse_all` says.
unpack-run :
    (n : ℕ) (clock : ℕ → ℕ) (p : MemoryPool) (net : NetworkContext) (c : ClientBuffer)
    (held : List MemoryRef)
    → IsSized c
    → Owned n p held
    → (out : Status × Loop) × (new : List NetPacket) × (unpack_packet_to_recv_queue clock p net c
        ≡ some (after_loop net c out))
      × Progress n c held (start p net c) (parse_all (pending c)) out new
unfolding unpack_packet_to_recv_queue
unpack-run n clock p net c held z o =
    let (out, new, run, g) =
      unpack_loop_lem (c.buffer_size + 1) n clock c (start p net c) held (omega arith)
        (record { inside = omega (arith, z.whole, z.within) }) o in
    (
      out,
      new,
      ap (finish net c) run,
      subst (λ r. Progress n c held (start p net c) r out new) enough g,
    )
  where
    enough : parse (c.buffer_size + 1) (pending c) ≡ parse_all (pending c)
    enough =
        unfold parse_all in
        parse-fuel (c.buffer_size + 1) (length (pending c) + 1) (pending c)
          (omega (arith, length-take c.buffer_size c.buffer)) (omega arith)

-- What a call has done that returns 0: `new` are the packets it made of the frames in the buffer.
pub record Delivered (n : ℕ) (p : MemoryPool) (net : NetworkContext) (c : ClientBuffer)
    (held : List MemoryRef) (r : Parsed) (p' : MemoryPool) (net' : NetworkContext)
    (c' : ClientBuffer) (new : List NetPacket) : Type 0 where
  pub bytes : pending c' ≡ r.rest
  pub sized : IsSized c'
  pub same_client : (c'.client_seq ≡ c.client_seq) × (c'.client_fd ≡ c.client_fd)
  pub queued : net'.recv.packets ≡ net.recv.packets ++ (net.recv_prepare.packets ++ new)
  pub counted : net'.recv.packet_num ≡ length net'.recv.packets
  pub prepare : net'.recv_prepare ≡ Queue.init
  pub signal : net'.signal ≡ (if ltb 0 (length r.frames) then true else net.signal)
  pub others :
      (net'.logic ≡ net.logic)
      × (net'.send_prepare ≡ net.send_prepare)
      × (net'.send ≡ net.send)
      × (net'.send_cache ≡ net.send_cache)
  pub seen : views p' new ≡ expected c r.frames
  pub owned : Owned n p' (memories_of new ++ held)
  pub keeps : (m : MemoryRef) → IsHeld m held → memory_at p' m ≡ memory_at p m

-- What a call has done that returns -2 or -3: the packets before the bad one wait in the prepare
-- queue, and the buffer is as it was.
pub record Refused (n : ℕ) (p : MemoryPool) (net : NetworkContext) (c : ClientBuffer)
    (held : List MemoryRef) (r : Parsed) (p' : MemoryPool) (net' : NetworkContext)
    (new : List NetPacket) : Type 0 where
  pub queued : net'.recv_prepare.packets ≡ net.recv_prepare.packets ++ new
  pub others :
      (net'.recv ≡ net.recv)
      × (net'.logic ≡ net.logic)
      × (net'.send_prepare ≡ net.send_prepare)
      × (net'.send ≡ net.send)
      × (net'.send_cache ≡ net.send_cache)
      × (net'.signal ≡ net.signal)
  pub seen : views p' new ≡ expected c r.frames
  pub owned : Owned n p' (memories_of new ++ held)
  pub keeps : (m : MemoryRef) → IsHeld m held → memory_at p' m ≡ memory_at p m

module _ (n : ℕ) (p : MemoryPool) (net : NetworkContext) (c : ClientBuffer)
    (held : List MemoryRef) where
  delivered :
      (s : Loop) (new : List NetPacket)
      → IsSized c
      → IsCounted net.recv
      → Progress n c held (start p net c) (parse_all (pending c)) (finished, s) new
      → let (result, p', net', c') = after_loop net c (finished, s) in
        (result ≡ pos 0) × Delivered n p net c held (parse_all (pending c)) p' net' c' new
  unfolding after_loop packet_recv_prepare
  delivered s new z counted g =
      let moved = move_buffer_ptr_lem c s.offset s.left z (omega (arith, g.place, z.within)) in
      let copied = copy_from_lem net.recv s.queue counted in
      (
        refl,
        record {
          bytes = moved.0 ∙ g.rest;
          sized = moved.1;
          same_client = (moved.3, moved.4);
          queued = copied.0 ∙ ap (◌++◌ net.recv.packets) g.packets;
          counted =
              copied.2
              ∙ copied.1
              ∙ sym (ap length copied.0 ∙ length-append net.recv.packets s.queue.packets);
          prepare = copied.3;
          signal =
              rw (g.total) (ap (λ (k : ℕ). if ltb 0 k then true else net.signal) (omega arith));
          others = (refl, refl, refl, refl);
          seen = g.seen;
          owned = g.owned;
          keeps = g.keeps;
        },
      )

  refused :
      (status : Status) (s : Loop) (new : List NetPacket)
      → status ≢ finished
      → Progress n c held (start p net c) (parse_all (pending c)) (status, s) new
      → (net' : NetworkContext) × (after_loop net c (status, s) ≡ (code status, s.pool, net', c))
        × Refused n p net c held (parse_all (pending c)) s.pool net' new
  unfolding after_loop
  refused finished s new ne g = absurd (ne refl)
  refused bad_body s new ne g = (
    record net { recv_prepare = s.queue },
    refl,
    record {
      queued = g.packets;
      others = (refl, refl, refl, refl, refl, refl);
      seen = g.seen;
      owned = g.owned;
      keeps = g.keeps;
    },
  )
  refused too_long s new ne g = (
    record net { recv_prepare = s.queue },
    refl,
    record {
      queued = g.packets;
      others = (refl, refl, refl, refl, refl, refl);
      seen = g.seen;
      owned = g.owned;
      keeps = g.keeps;
    },
  )

  -- If no frame in the buffer is bad, the call returns 0: every whole frame has become a packet of the
  -- receive queue, in order, with the client's sequence number and descriptor, its number and its
  -- body, in a memory that nobody held; the bytes of an unfinished frame stay; the signal is raised
  -- if there was a packet; packets held before keep their bytes.
  pub unpack_packet_to_recv_queue-delivers :
      (clock : ℕ → ℕ)
      → IsSized c
      → IsCounted net.recv
      → Owned n p held
      → (parse_all (pending c)).status ≡ finished
      → (p' : MemoryPool) × (net' : NetworkContext) × (c' : ClientBuffer) × (new : List NetPacket)
        × (unpack_packet_to_recv_queue clock p net c ≡ some (pos 0, p', net', c'))
        × Delivered n p net c held (parse_all (pending c)) p' net' c' new
  unpack_packet_to_recv_queue-delivers clock z counted o e =
      let (out, new, run, g) = unpack-run n clock p net c held z o in
      let done : out.0 ≡ finished = g.status ∙ e in
      let r = parse_all (pending c) in
      let d =
        delivered out.1 new z counted
          (subst (λ st. Progress n c held (start p net c) r (st, out.1) new) done g) in
      let after = after_loop net c (finished, out.1) in
      (
        after.1,
        after.2,
        after.3,
        new,
        run
            ∙ ap (λ st. some (after_loop net c (st, out.1))) done
            ∙ ap (λ (k : ℤ). some (k, after.1, after.2, after.3)) d.0,
        d.1,
      )

  -- If a frame in the buffer has an empty body or one above the limit, the call returns -2 or -3: the
  -- packets before it wait in the prepare queue with their memories, no other queue and no signal
  -- changes, and the buffer stays as it was.
  pub unpack_packet_to_recv_queue-refuses :
      (clock : ℕ → ℕ)
      → IsSized c
      → Owned n p held
      → (parse_all (pending c)).status ≢ finished
      → (p' : MemoryPool) × (net' : NetworkContext) × (new : List NetPacket)
        × (unpack_packet_to_recv_queue clock p net c
            ≡ some (code (parse_all (pending c)).status, p', net', c))
        × Refused n p net c held (parse_all (pending c)) p' net' new
  unpack_packet_to_recv_queue-refuses clock z o ne =
      let (out, new, run, g) = unpack-run n clock p net c held z o in
      let (net', e, d) = refused out.0 out.1 new (λ i. ne (sym g.status ∙ i)) g in
      (
        out.1.pool,
        net',
        new,
        run ∙ ap some e ∙ ap (λ st. some (code st, out.1.pool, net', c)) g.status,
        d,
      )
