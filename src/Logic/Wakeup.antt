-- ===== src/Logic/Wakeup.antt =====
-- network/context.h, common/signal.cpp and service/gamesvr/gamelogic.cpp: the network thread puts packets
-- into the receive queue and then raises the signal, while the logic thread lowers the signal and then takes
-- the queue. Each section under a lock is a step, and the steps of both threads come in any order.
pub mod Taken
use game_server.Prelude.{
  ℕ, zero, suc, ◌+◌, ◌≡◌, refl, sym, ap, subst, ◌∙◌, append_assoc, length-append, ◌⊎◌, inl, inr,
  List, [], ◌∷◌, ◌++◌, append-nil, Bool, true, false, ltb, if◌then◌else◌, length, arith,
}
use game_server.Packet.{NetPacket}
use game_server.Queue
use game_server.Queue.{NetPacketQueue, copy_from}
use game_server.Queue.Laws.{IsCounted, copy_from_lem}
use game_server.Network.{
  NetworkContext, new_context, packet_recv_prepare, copy_packets_from_net_to_logic,
}
use game_server.Signal.{emit, check_and_set_signal_actived}

-- The network thread is outside `UnpackPacketToRecvQueue`, or behind its `PacketRecvPrepare`, with that
-- many packets unpacked.
pub data NetThread : Type 0 where
  outside : NetThread
  prepared : ℕ → NetThread

-- The logic thread is outside the test of the signal and what follows it, or has seen the signal.
pub data LogicThread : Type 0 where
  waiting signalled : LogicThread

-- The queues between the threads, and all packets that were unpacked and all that were taken so far.
pub record Shared : Type 0 where
  pub network : NetworkContext
  pub net : NetThread
  pub logic : LogicThread
  pub unpacked : List NetPacket
  pub taken : List NetPacket

abbrev pub shared : Shared
shared = record { network = new_context; net = outside; logic = waiting; unpacked = []; taken = [] }

-- `PacketRecvPrepare` behind the loop that has unpacked `ks`
unfoldable pub recv_prepared : List NetPacket → NetworkContext → NetworkContext
recv_prepared ks c =
    (packet_recv_prepare (record c {
      recv_prepare = record {
        packet_num = c.recv_prepare.packet_num + length ks;
        packets = c.recv_prepare.packets ++ ks;
      };
    })).1

-- `Emit`, if packets were unpacked
unfoldable pub raise : ℕ → NetworkContext → NetworkContext
raise total c = record c { signal = if ltb 0 total then emit c.signal else c.signal }

-- `CheckAndSetSignalActived`
unfoldable pub check : NetworkContext → LogicThread × NetworkContext
check c =
    let (active, signal) = check_and_set_signal_actived c.signal in
    (if active then signalled else waiting, record c { signal = signal })

-- One step of a thread. A client's whole frames are `ks`; the early return on a bad frame is no step here.
pub data Step : Shared → Shared → Type 0 where
  unpacks :
      (ks : List NetPacket) (s : Shared)
      → s.net ≡ outside
      → Step s (record s {
        network = recv_prepared ks s.network;
        net = prepared (length ks);
        unpacked = s.unpacked ++ ks;
      })
  raises :
      (total : ℕ) (s : Shared)
      → s.net ≡ prepared total
      → Step s (record s { network = raise total s.network; net = outside })
  checks :
      (s : Shared)
      → s.logic ≡ waiting
      → Step s (record s { network = (check s.network).1; logic = (check s.network).0 })
  takes :
      (s : Shared)
      → s.logic ≡ signalled
      → Step s (record s {
        network = (copy_packets_from_net_to_logic s.network).1;
        logic = waiting;
        taken = s.taken ++ (copy_packets_from_net_to_logic s.network).1.logic.packets;
      })

pub data Run : Shared → Shared → Type 0 where
  stay : (s : Shared) → Run s s
  go : {s t u : Shared} → Run s t → Step t u → Run s u
