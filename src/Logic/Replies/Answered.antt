-- ===== src/Logic/Replies/Answered.antt =====
-- The packets that `OnBufferEventRead` has queued are answered as the frames they hold.
use game_server.Prelude.{
  ℕ, suc, ◌+◌, ◌*◌, ◌≤◌, ◌≡◌, refl, ap, ap₂, List, [], ◌∷◌, ◌++◌, Bool, true, false, length,
  if◌then◌else◌, arith,
}
use game_server.Prelude.Int.{ℤ, pos}
use game_server.Memory.{MemoryPool, max_size}
use game_server.Packet.{NetPacket}
use game_server.Network.Buffer.{ClientBuffer}
use game_server.Network.Receive.{View, view, views, expected}
use game_server.Logic.{Messages, cs_hello, is_proto, cs_hello_reply}
use game_server.Logic.Answers.{answers, cs_answer, fits}
use game_server.Logic.Replies.{hello_answers, reply, AllFit, no_frame, one_more}

abbrev pub create_times : List NetPacket → List ℕ
create_times [] = []
create_times (k ∷ ks) = k.create_time ∷ create_times ks

pub length-create_times : (ks : List NetPacket) → length (create_times ks) ≡ length ks
length-create_times [] = refl
length-create_times (k ∷ ks) = ap suc (length-create_times ks)

abbrev pub first_view : View → List View → View
first_view v [] = v
first_view v (w ∷ ws) = w

abbrev pub later_views : List View → List View
later_views [] = []
later_views (v ∷ vs) = vs

pub answers-hello_answers :
    (m : Messages) (handled : ℕ → ℕ) (p : MemoryPool) (c : ClientBuffer) (i : ℕ)
    (ks : List NetPacket) (fs : List (ℤ × List ℕ))
    → views p ks ≡ expected c fs
    → answers (cs_answer m handled) p i ks
      ≡ hello_answers m handled c.client_seq c.client_fd i (create_times ks) fs
unfolding answers cs_answer cs_hello_reply
answers-hello_answers m handled p c i [] [] e = refl
answers-hello_answers m handled p c i [] (f ∷ fs) e = refl
answers-hello_answers m handled p c i (k ∷ ks) [] e = absurd (cc)
answers-hello_answers m handled p c i (k ∷ ks) ((proto, body) ∷ fs) e =
    let v : View = view p k in
    let h : v ≡ (c.client_seq, c.client_fd, proto, body) = ap (first_view v) e in
    ap₂ ◌++◌
      (ap
        (λ (w : View).
          if is_proto cs_hello w.2
          then (w.0, w.1, pos cs_hello, reply m w.3 k.create_time (handled (2 * i))) ∷ []
          else [])
        h)
      (answers-hello_answers m handled p c (i + 1) ks fs (ap later_views e))

pub AllFit-append : (m : Messages) (fs gs : List (ℤ × List ℕ)) → AllFit m (fs ++ gs) → AllFit m fs
AllFit-append m [] gs a = no_frame
AllFit-append m ((proto, body) ∷ fs) gs (one_more h a) = one_more h (AllFit-append m fs gs a)

fits-one :
    (b : Bool) (seq fd : ℕ) (proto : ℤ) (body : List ℕ) (vs : List View)
    → (b ≡ true → length body ≤ max_size)
    → fits vs ≡ true
    → fits ((if b then (seq, fd, proto, body) ∷ [] else []) ++ vs) ≡ true
unfolding fits
fits-one true seq fd proto body vs h f = ground (arith, h refl)
fits-one false seq fd proto body vs h f = f

pub fits-hello_answers :
    (m : Messages) (handled : ℕ → ℕ) (seq fd i : ℕ) (ts : List ℕ) (fs : List (ℤ × List ℕ))
    → AllFit m fs
    → fits (hello_answers m handled seq fd i ts fs) ≡ true
fits-hello_answers m handled seq fd i [] fs a = unfold fits in refl
fits-hello_answers m handled seq fd i (t ∷ ts) [] a = unfold fits in refl
fits-hello_answers m handled seq fd i (t ∷ ts) ((proto, body) ∷ fs) (one_more h a) =
    fits-one (is_proto cs_hello proto) seq fd (pos cs_hello) (reply m body t (handled (2 * i)))
      (hello_answers m handled seq fd (i + 1) ts fs) (λ e. h e t (handled (2 * i)))
      (fits-hello_answers m handled seq fd (i + 1) ts fs a)
