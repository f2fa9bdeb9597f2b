-- ===== src/Logic/Replies/Reading.antt =====
-- From the packets that `OnBufferEventRead` of network/libevent/libevent_handle.cpp has queued to the
-- logic thread's answers.
use game_server.Prelude.{
  ℕ, ◌≤◌, ◌≡◌, refl, sym, ap, ap₂, subst, ◌∙◌, List, [], ◌++◌, append_assoc, nil_of_length-zero,
  length, Option, Bool, true, false, ltb, if◌then◌else◌, arith,
}
use game_server.Memory.{MemoryRef}
use game_server.Memory.Ownership.{Owned}
use game_server.Queue.{NetPacketQueue}
use game_server.Queue.Ownership.{memories_of}
use game_server.Network.Buffer.{pending}
use game_server.Network.Framing.{Parsed, finished, parse_all}
use game_server.Network.Framing.Prefixes.{parse_all-prefix}
use game_server.Network.Framing.Stream.{parse_all-append}
use game_server.Clients.{Client}
use game_server.Handlers.{ServerState}
use game_server.Handlers.Libevent.Loop.{Drained}
use game_server.Logic.{Messages, LogicState, process_cs_network_packet}
use game_server.Logic.Answers.{answers, cs_answer, fits}
use game_server.Logic.Replies.Handled.{Handled, handled}
use game_server.Logic.Replies.{hello_answers, AllFit, IsIdle}
use game_server.Logic.Replies.Answered.{
  create_times, answers-hello_answers, AllFit-append, fits-hello_answers,
}

quiet : (k : ℕ) (was is : Bool) → is ≡ (if ltb 0 k then true else was) → is ≡ false → k ≤ 0
quiet k was is e f = ground arith

-- The frames that are read fit, since all do.
pub some_fit :
    (m : Messages) (c : Client) (used rest bytes : List ℕ)
    → bytes ≡ used ++ rest
    → (parse_all (pending c.context ++ bytes)).status ≡ finished
    → AllFit m (parse_all (pending c.context ++ bytes)).frames
    → AllFit m (parse_all (pending c.context ++ used)).frames
some_fit m c used rest bytes split done fit =
    let here = pending c.context ++ used in
    let cut : pending c.context ++ bytes ≡ here ++ rest =
      ap (◌++◌ (pending c.context)) split ∙ sym (append_assoc (pending c.context) used rest) in
    let whole : (parse_all here).status ≡ finished =
      parse_all-prefix here rest (ap (λ l. (parse_all l).status) (sym cut) ∙ done) in
    AllFit-append m (parse_all here).frames (parse_all ((parse_all here).rest ++ rest)).frames (
      subst (AllFit m)
        (ap (λ l. (parse_all l).frames) cut
          ∙ ap (λ (q : Parsed). q.frames) (parse_all-append here rest whole))
        fit)

module _ {E : Type 0} {input : E → List ℕ} (n : ℕ) (m : Messages) (times : ℕ → ℕ) {r : ℕ} where
  -- What the logic thread makes of the packets that were queued
  pub handled_read :
      (s : ServerState) (c : Client) (held : List MemoryRef) (e : E)
      (result : Option (ServerState × E))
      → (d : Drained input n s r c held e result) → IsIdle s.network
      → AllFit m (parse_all (pending c.context ++ d.used)).frames
      → let l : LogicState = record {
        pool = d.after.pool;
        network = d.after.network;
        commands = [];
        has_server = true;
      } in
        Handled n l held
          (hello_answers m times c.context.client_seq c.context.client_fd 0
            (create_times d.new)
            (parse_all (pending c.context ++ d.used)).frames)
          (process_cs_network_packet m times l)
  handled_read s c held e result d idle fit =
      let frames = (parse_all (pending c.context ++ d.used)).frames in
      let l : LogicState = record {
        pool = d.after.pool;
        network = d.after.network;
        commands = [];
        has_server = true;
      } in
      let received : l.network.recv.packets ≡ d.new =
        d.queued ∙ ap₂ (λ ks ls. ks ++ (ls ++ d.new)) idle.recv idle.recv_prepare in
      let same =
        ap (λ ks. answers (cs_answer m times) l.pool 0 ks) received
        ∙ answers-hello_answers m times l.pool c.context 0 d.new frames d.seen in
      let fits_all =
        fits-hello_answers m times c.context.client_seq c.context.client_fd 0 (create_times d.new)
          frames fit in
      subst (λ vs. Handled n l held vs (process_cs_network_packet m times l)) same
        (handled m times n l held refl
          (ap (λ (q : NetPacketQueue). q.packets) d.others.2 ∙ idle.send)
          (ap (λ (q : NetPacketQueue). q.packets) d.others.1 ∙ idle.send_prepare)
          (subst (λ ks. Owned n l.pool (memories_of ks ++ held)) (sym received) d.owned)
          (λ down.
            received
            ∙ nil_of_length-zero d.new
                (quiet (length d.new) s.network.signal l.network.signal d.signal down))
          (ap fits same ∙ fits_all))
