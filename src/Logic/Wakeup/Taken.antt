-- ===== src/Logic/Wakeup/Taken.antt =====
-- network/context.h, common/signal.cpp and service/gamesvr/gamelogic.cpp: no packet is overlooked, however
-- the steps of the two threads are ordered.
use game_server.Prelude.{
  ℕ, zero, suc, ◌+◌, ◌≡◌, refl, sym, ap, subst, ◌∙◌, append_assoc, length-append, ◌⊎◌, inl, inr,
  List, [], ◌∷◌, ◌++◌, append-nil, Bool, true, false, ltb, if◌then◌else◌, length, arith,
}
use game_server.Packet.{NetPacket}
use game_server.Queue
use game_server.Queue.{NetPacketQueue, copy_from}
use game_server.Queue.Laws.{IsCounted, copy_from_lem}
use game_server.Network.{NetworkContext, packet_recv_prepare, copy_packets_from_net_to_logic}
use game_server.Signal.{emit, check_and_set_signal_actived}
use game_server.Logic.Wakeup.{
  NetThread, LogicThread, Shared, shared, recv_prepared, raise, check, Step, Run, outside, prepared,
  waiting, signalled, unpacks, raises, checks, takes, stay, go,
}

-- Where there are packets to take, somebody will see to it.
abbrev IsNoticed : List NetPacket → Bool → LogicThread → NetThread → Type 0
IsNoticed ks signal l t =
    (ks ≡ []) ⊎ (signal ≡ true) ⊎ (l ≡ signalled) ⊎ ((total : ℕ) × (t ≡ prepared (suc total)))

record IsWatched (s : Shared) : Type 0 where
  counted : IsCounted s.network.recv
  prepare_empty : s.network.recv_prepare.packets ≡ []
  noticed : IsNoticed s.network.recv.packets s.network.signal s.logic s.net
  all : s.unpacked ≡ s.taken ++ s.network.recv.packets

prepare_lem :
    (ks : List NetPacket) (c : NetworkContext)
    → IsCounted c.recv
    → c.recv_prepare.packets ≡ []
    → ((recv_prepared ks c).recv.packets ≡ c.recv.packets ++ ks)
      × IsCounted (recv_prepared ks c).recv
      × ((recv_prepared ks c).recv_prepare.packets ≡ [])
      × ((recv_prepared ks c).signal ≡ c.signal)
unfolding recv_prepared packet_recv_prepare
prepare_lem ks c counted empty =
    let q : NetPacketQueue = record {
      packet_num = c.recv_prepare.packet_num + length ks;
      packets = c.recv_prepare.packets ++ ks;
    } in
    let l = copy_from_lem c.recv q counted in
    (
      l.0 ∙ ap (λ ls. c.recv.packets ++ (ls ++ ks)) empty,
      omega (arith, l.1, l.2, ap length l.0, length-append c.recv.packets q.packets),
      ap (λ (p : NetPacketQueue). p.packets) l.3,
      refl,
    )

-- New packets are noticed when the thread raises the signal; without any, nothing changes.
IsNoticed-recv_prepared :
    (ks ls : List NetPacket) (signal : Bool) (l : LogicThread)
    → IsNoticed ls signal l outside
    → IsNoticed (ls ++ ks) signal l (prepared (length ks))
IsNoticed-recv_prepared (k ∷ ks) ls signal l w = inr (inr (inr (length ks, refl)))
IsNoticed-recv_prepared [] ls signal l (inl e) = inl (append-nil ls ∙ e)
IsNoticed-recv_prepared [] ls signal l (inr (inl e)) = inr (inl e)
IsNoticed-recv_prepared [] ls signal l (inr (inr (inl e))) = inr (inr (inl e))
IsNoticed-recv_prepared [] ls signal l (inr (inr (inr (total, e)))) = absurd (cc)

IsNoticed-raise :
    (total : ℕ) (ls : List NetPacket) (signal : Bool) (l : LogicThread)
    → IsNoticed ls signal l (prepared total)
    → IsNoticed ls (if ltb 0 total then emit signal else signal) l outside
IsNoticed-raise (suc total) ls signal l w = inr (inl (ground arith))
IsNoticed-raise zero ls signal l (inl e) = inl e
IsNoticed-raise zero ls signal l (inr (inl e)) = inr (inl e)
IsNoticed-raise zero ls signal l (inr (inr (inl e))) = inr (inr (inl e))
IsNoticed-raise zero ls signal l (inr (inr (inr (total, e)))) = absurd (cc)

IsNoticed-check :
    (ls : List NetPacket) (signal : Bool) (t : NetThread)
    → IsNoticed ls signal waiting t
    → IsNoticed ls false (if signal then signalled else waiting) t
IsNoticed-check ls true t w = inr (inr (inl refl))
IsNoticed-check ls false t (inl e) = inl e
IsNoticed-check ls false t (inr (inl e)) = absurd (cc)
IsNoticed-check ls false t (inr (inr (inl e))) = absurd (cc)
IsNoticed-check ls false t (inr (inr (inr e))) = inr (inr (inr e))

Step-IsWatched : {s t : Shared} → Step s t → IsWatched s → IsWatched t
unfolding raise check check_and_set_signal_actived copy_packets_from_net_to_logic
Step-IsWatched (unpacks ks s at) w =
    let (queue, counted, empty, signal) = prepare_lem ks s.network w.counted w.prepare_empty in
    record {
      counted = counted;
      prepare_empty = empty;
      noticed =
          rw (queue, signal)
            (IsNoticed-recv_prepared ks s.network.recv.packets s.network.signal s.logic
              (subst (IsNoticed s.network.recv.packets s.network.signal s.logic) at w.noticed));
      all =
          ap (◌++ ks) w.all
          ∙ append_assoc s.taken s.network.recv.packets ks
          ∙ ap (◌++◌ s.taken) (sym queue);
    }
Step-IsWatched (raises total s at) w = record {
  counted = w.counted;
  prepare_empty = w.prepare_empty;
  noticed =
      IsNoticed-raise total s.network.recv.packets s.network.signal s.logic
        (subst (IsNoticed s.network.recv.packets s.network.signal s.logic) at w.noticed);
  all = w.all;
}
Step-IsWatched (checks s at) w = record {
  counted = w.counted;
  prepare_empty = w.prepare_empty;
  noticed =
      IsNoticed-check s.network.recv.packets s.network.signal s.net
        (subst (λ l. IsNoticed s.network.recv.packets s.network.signal l s.net) at w.noticed);
  all = w.all;
}
Step-IsWatched (takes s at) w =
    let l = copy_from_lem Queue.init s.network.recv (omega arith) in
    record {
      counted = omega (arith, ap (λ (q : NetPacketQueue). length q.packets) l.3);
      prepare_empty = w.prepare_empty;
      noticed = inl (ap (λ (q : NetPacketQueue). q.packets) l.3);
      all =
          w.all
          ∙ ap (◌++◌ s.taken) (sym l.0)
          ∙ sym (append-nil (s.taken ++ (copy_from Queue.init s.network.recv).1.packets))
          ∙ ap (◌++◌ (s.taken ++ (copy_from Queue.init s.network.recv).1.packets))
              (sym (ap (λ (q : NetPacketQueue). q.packets) l.3));
    }

Run-IsWatched : {s t : Shared} → Run s t → IsWatched s → IsWatched t
Run-IsWatched (stay s) w = w
Run-IsWatched (go r step) w = Step-IsWatched step (Run-IsWatched r w)

shared-IsWatched : IsWatched shared
shared-IsWatched = record {
  counted = omega arith;
  prepare_empty = refl;
  noticed = inl refl;
  all = refl;
}

-- In a run from empty queues without a bad frame, however the steps of the two threads are ordered:
-- whenever both threads are outside their sections and the signal is down, the logic thread has taken all
-- packets that the network thread has unpacked, each once and in order.
pub all_taken :
    (s : Shared)
    → Run shared s
    → s.net ≡ outside
    → s.logic ≡ waiting
    → s.network.signal ≡ false
    → s.taken ≡ s.unpacked
all_taken s r out wait down =
    let w = Run-IsWatched r shared-IsWatched in
    let empty = nothing s.network.recv.packets (
      subst (λ t. IsNoticed s.network.recv.packets false waiting t) out
        (subst (λ l. IsNoticed s.network.recv.packets false l s.net) wait
          (subst (λ b. IsNoticed s.network.recv.packets b s.logic s.net) down w.noticed))) in
    sym (append-nil s.taken) ∙ ap (◌++◌ s.taken) (sym empty) ∙ sym w.all
  where
    nothing : (ls : List NetPacket) → IsNoticed ls false waiting outside → ls ≡ []
    nothing ls (inl e) = e
    nothing ls (inr (inl e)) = absurd (cc)
    nothing ls (inr (inr (inl e))) = absurd (cc)
    nothing ls (inr (inr (inr (total, e)))) = absurd (cc)
