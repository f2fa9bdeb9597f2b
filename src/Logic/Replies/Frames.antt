-- ===== src/Logic/Replies/Frames.antt =====
-- network/context.h, `ExecuteCmdSendAllPacket`, on packets for one libevent client: the frames it writes.
use game_server.Prelude.{
  ℕ, ◌+◌, ◌*◌, ◌%◌, ◌^◌, ◌≡◌, sym, ap, ap₂, ◌∙◌, List, [], ◌∷◌, ◌++◌, append-nil, append_assoc,
  length, length-append, some, Bool, true, false, if◌then◌else◌, arith,
}
use game_server.Prelude.Int.{ℤ, pos}
use game_server.Wire.{pack_int}
use game_server.Memory.{MemoryPool}
use game_server.Packet.{NetPacket, header_size, tail_size, to_int16, prepare_tail, prepare_header}
use game_server.Network.Receive.{View, view, views}
use game_server.Clients.{Client, Clients, Kind, libevent_client, get_client}
use game_server.Server.{Sent, target_of, to_event}
use game_server.Server.Sending.{all_sent}
use game_server.Server.Contexts.{client_output, client_output_lem, frame}
use game_server.Logic.{Messages, cs_hello, is_proto}
use game_server.Logic.Answers.{sizes, body_sizes}
use game_server.Logic.Replies.{hello_answers, reply, wire, sent_views}
use game_server.Logic.Replies.Answered.{first_view, later_views}

-- All are for the client with this number.
pub data AllFor (seq : ℕ) : List View → Type 0 where
  no_view : AllFor seq []
  one_view :
      {fd : ℕ} {proto : ℤ} {body : List ℕ} {vs : List View}
      → AllFor seq vs
      → AllFor seq ((seq, fd, proto, body) ∷ vs)

pub hello_answers-AllFor :
    (m : Messages) (handled : ℕ → ℕ) (seq fd i : ℕ) (ts : List ℕ) (fs : List (ℤ × List ℕ))
    → AllFor seq (hello_answers m handled seq fd i ts fs)
hello_answers-AllFor m handled seq fd i [] fs = no_view
hello_answers-AllFor m handled seq fd i (t ∷ ts) [] = no_view
hello_answers-AllFor m handled seq fd i (t ∷ ts) ((proto, body) ∷ fs) =
    case (is_proto cs_hello proto) (hello_answers-AllFor m handled seq fd (i + 1) ts fs)
  where
    case :
        {vs : List View} (b : Bool)
        → AllFor seq vs
        → AllFor seq (
            (if b then (seq, fd, pos cs_hello, reply m body t (handled (2 * i))) ∷ [] else [])
            ++ vs)
    case true a = one_view a
    case false a = a

abbrev first_size : ℕ → List ℕ → ℕ
first_size d [] = d
first_size d (n ∷ ns) = n

abbrev later_sizes : List ℕ → List ℕ
later_sizes [] = []
later_sizes (n ∷ ns) = ns

frame-wire :
    (k : NetPacket) (body : List ℕ) (proto : ℤ) (now : ℕ)
    → k.buffer_size ≡ length body
    → k.proto_no ≡ proto
    → frame k body now ≡ wire proto body now
unfolding prepare_header
frame-wire k body proto now s e =
    ap₂
      (λ (n : ℕ) (q : ℤ).
        (pack_int 2 ((n + header_size + tail_size) % 2 ^ 16) ++ pack_int 2 (to_int16 q))
        ++ (body ++ prepare_tail now))
      s e

module _ (cs : Clients) (clock : ℕ → ℕ) (seq r : ℕ) (c : Client)
    (found : get_client cs seq ≡ some r) (live : cs.store r ≡ some c)
    (kind : c.kind ≡ libevent_client) (p : MemoryPool) where
  -- A frame of each packet is written, in order.
  pub all_sent-sent_views :
      (ks : List NetPacket) (vs : List View) (before : List Sent)
      → AllFor seq vs
      → views p ks ≡ vs
      → sizes ks ≡ body_sizes vs
      → all_sent (client_output cs clock) p ks before
        ≡ before ++ sent_views clock r (length before) vs
  unfolding all_sent
  all_sent-sent_views [] [] before a e s = sym (append-nil before)
  all_sent-sent_views [] (v ∷ vs) before a e s = absurd (cc)
  all_sent-sent_views (k ∷ ks) [] before a e s = absurd (cc)
  all_sent-sent_views (k ∷ ks) ((_, fd, proto, body) ∷ vs) before (one_view a) e s =
      let v : View = view p k in
      let h : v ≡ (seq, fd, proto, body) = ap (first_view v) e in
      let now = clock (length before) in
      let one : Sent = record { target = to_event r; bytes = wire proto body now } in
      let bytes : frame k v.3 now ≡ wire proto body now =
        ap (λ (w : View). frame k w.3 now) h
        ∙ frame-wire k body proto now (ap (first_size k.buffer_size) s)
            (ap (λ (w : View). w.2) h) in
      let target : target_of c.kind r k ≡ to_event r =
        unfold target_of in ap (λ (q : Kind). target_of q r k) kind in
      let written : client_output cs clock k v.3 (length before) ≡ one ∷ [] =
        client_output_lem cs clock k v.3 (length before) r c
          (ap (λ (w : View). get_client cs w.0) h ∙ found) live
        ∙ ap₂ (λ t b. record { target = t; bytes = b } ∷ []) target bytes in
      let place : length (before ++ one ∷ []) ≡ length before + 1 =
        omega (arith, length-append before (one ∷ [])) in
      ap (λ l. all_sent (client_output cs clock) p ks (before ++ l)) written
      ∙ all_sent-sent_views ks vs (before ++ one ∷ []) a (ap later_views e) (ap later_sizes s)
      ∙ append_assoc before (one ∷ []) (sent_views clock r (length (before ++ one ∷ [])) vs)
      ∙ ap (λ (j : ℕ). before ++ one ∷ sent_views clock r j vs) place
