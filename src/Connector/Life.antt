-- ===== src/Connector/Life.antt =====
-- network/connector.cpp, `Create`, the tries of `ConnectorMainThread` and `Close`: which libevent objects
-- a connector makes and frees.
use game_server.Prelude.{
  ℕ, zero, suc, ◌+◌, ◌-◌, ◌<◌, ◌≡◌, refl, ap, ap₂, ◌∙◌, List, [], ◌∷◌, ◌++◌, Option, none, some,
  ◌>>=◌, Bool, true, false, ◌||◌, Bool-cases, inl, inr, if◌then◌else◌, arith,
}
use game_server.Prelude.Int.{ℤ, pos}
use game_server.Connector.{
  Status, unconnect, alive, dead, closed, Objects, new_object, release, Connector, new_connector,
  set_status, create, created, connect, close, after_connect, try_connect,
}

-- Whether one of the tries from i on succeeds, and how many are made.
abbrev pub succeeds : ℕ → (ℕ → Bool) → ℕ → Bool
succeeds zero connected i = false
succeeds (suc n) connected i = connected i || succeeds n connected (i + 1)

abbrev pub tries_made : ℕ → (ℕ → Bool) → ℕ → ℕ
tries_made zero connected i = 0
tries_made (suc n) connected i =
    let rest = tries_made n connected (i + 1) in if connected i then 1 else 1 + rest

-- A connector with a base and a `bufferevent`; `up` says whether it has connected.
abbrev holding : ℕ → ℕ → ℕ → ℤ → Option ℕ → Bool → Status → Connector
holding base buffer seq fd event up st = record {
  event_base = some base;
  buffer_evt = some buffer;
  write_event = event;
  client_ctx = if up then some buffer else none;
  has_connector_ctx = up;
  client_seq = seq;
  sock_fd = fd;
  status = if up then alive else st;
}

-- What some tries leave: only the last write event is kept, and nothing is freed.
record Tried (n : ℕ) (connected : ℕ → Bool) (i base buffer seq : ℕ) (fd : ℤ) (o : Objects)
    (result : Option (Objects × Connector)) : Type 0 where
  objects : Objects
  event : Option ℕ
  idle : Status
  returned : result ≡ some (objects, holding base buffer seq fd event (succeeds n connected i) idle)
  freed : objects.freed ≡ o.freed
  next : objects.next ≡ o.next + tries_made n connected i
  last : 0 < n → event ≡ some (objects.next - 1)
  down : 0 < n → idle ≡ dead

-- A failed try before others
failed :
    (n i base buffer seq : ℕ) (fd : ℤ) (connected : ℕ → Bool) (o : Objects) (event : Option ℕ)
    (st : Status)
    → connected i ≡ false
    → Tried n connected (i + 1) base buffer seq fd (new_object o).1 (
        try_connect n connected
          (i + 1)
          (new_object o).1
          (holding base buffer seq fd (some o.next) false dead))
    → Tried
        (suc n)
        connected
        i
        base
        buffer
        seq
        fd
        o
        (try_connect (suc n) connected i o (holding base buffer seq fd event false st))
unfolding try_connect connect after_connect set_status new_object
failed zero i base buffer seq fd connected o event st e t = record {
  objects = (new_object o).1;
  event = some o.next;
  idle = dead;
  returned = rw (e) refl;
  freed = refl;
  next = ground (arith, e);
  last = λ h. ap some (omega arith);
  down = λ h. refl;
}
failed (suc n) i base buffer seq fd connected o event st e t = record {
  objects = t.objects;
  event = t.event;
  idle = t.idle;
  returned = rw (e) t.returned;
  freed = t.freed;
  next = ground (arith, e, t.next);
  last = λ h. t.last (omega arith);
  down = λ h. t.down (omega arith);
}

try_connect-Tried :
    (n i base buffer seq : ℕ) (fd : ℤ) (connected : ℕ → Bool) (o : Objects) (event : Option ℕ)
    (st : Status)
    → Tried n connected i base buffer seq fd o
        (try_connect n connected i o (holding base buffer seq fd event false st))
unfolding try_connect connect after_connect set_status new_object
try_connect-Tried zero i base buffer seq fd connected o event st = record {
  objects = o;
  event = event;
  idle = st;
  returned = refl;
  freed = refl;
  next = omega arith;
  last = λ h. absurd (omega (arith, h));
  down = λ h. absurd (omega (arith, h));
}
try_connect-Tried (suc n) i base buffer seq fd connected o event st =
    elim (Bool-cases (connected i)) [
      | inl e ↦ record {
        objects = (new_object o).1;
        event = some o.next;
        idle = dead;
        returned = rw (e) refl;
        freed = refl;
        next = ground (arith, e);
        last = λ h. ap some (omega arith);
        down = λ h. refl;
      }
      | inr e ↦ failed n i base buffer seq fd connected o event st e (
          try_connect-Tried n (i + 1) base buffer seq fd connected (new_object o).1 (some o.next)
            dead)
    ]

-- `Close`, with whatever status the main loop has left
abbrev pub close_with : Status → Objects × Connector → Objects × Connector
close_with st (o, c) = close o (set_status st c)

-- The objects in the end: made by `Create` are the base 0 and the `bufferevent` 1.
abbrev pub at_end : ℕ → (ℕ → Bool) → Objects
at_end n connected = record {
  next = 2 + tries_made n connected 0;
  freed =
      (if succeeds n connected 0 then 1 ∷ [] else [])
      ++ ((1 + tries_made n connected 0) ∷ 0 ∷ 1 ∷ []);
}

abbrev pub gone : ℕ → ℕ → Connector
gone seq fd = record new_connector { client_seq = seq; sock_fd = pos fd; status = closed }

module _ (connected : ℕ → Bool) (seq fd : ℕ) (st : Status) where
  closed_of :
      (up : Bool) (event : ℕ) (idle : Status) (o : Objects)
      → o.freed ≡ []
      → close_with st (o, holding 0 1 seq (pos fd) (some event) up idle) ≡ (
        record { next = o.next; freed = (if up then 1 ∷ [] else []) ++ (event ∷ 0 ∷ 1 ∷ []) },
        gone seq fd,
      )
  unfolding close release set_status new_connector
  closed_of true event idle o f =
      ap (λ (l : List ℕ). (record { next = o.next; freed = 1 ∷ event ∷ 0 ∷ 1 ∷ l }, gone seq fd)) f
  closed_of false event idle o f =
      ap (λ (l : List ℕ). (record { next = o.next; freed = event ∷ 0 ∷ 1 ∷ l }, gone seq fd)) f

  run_of :
      (n : ℕ) (o : Objects)
      → 0 < n
      → o.freed ≡ []
      → o.next ≡ 2
      → (try_connect n connected 0 o (holding 0 1 seq (pos fd) none false unconnect) >>= λ r.
          some (close_with st r))
        ≡ some (at_end n connected, gone seq fd)
  run_of n o h f x =
      let t = try_connect-Tried n 0 0 1 seq (pos fd) connected o none unconnect in
      ap (λ r. r >>= λ q. some (close_with st q)) t.returned
      ∙ ap
          (λ event. some (
            close_with st
              (t.objects, holding 0 1 seq (pos fd) event (succeeds n connected 0) t.idle)))
          (t.last h)
      ∙ ap some
          (closed_of (succeeds n connected 0) (t.objects.next - 1) t.idle t.objects (t.freed ∙ f))
      ∙ ap₂
          (λ (i : ℕ) (e : ℕ). some (
            record {
              next = i;
              freed = (if succeeds n connected 0 then 1 ∷ [] else []) ++ (e ∷ 0 ∷ 1 ∷ []);
            },
            gone seq fd,
          ))
          (omega (arith, t.next, x)) (omega (arith, t.next, x))

-- A connector is created, its thread tries up to 30 times to connect, and it is closed, whatever its status
-- has become by then. If one of the tries succeeds, the `bufferevent` 1 is freed twice, once in `Close`
-- and once in the destructor of the client context, and else once; the base 0 is freed once, and of the
-- write events, one for each try, only the last. Closing again, as the destructor does, changes
-- nothing.
pub close-try_connect :
    (connected : ℕ → Bool) (seq fd : ℕ) (st : Status)
    → let (ok, o, c) = create (record { next = 0; freed = [] }) new_connector (pos fd) seq true in
      (ok ≡ true)
      × ((try_connect 30 connected 0 o c >>= λ r. some (close_with st r))
          ≡ some (at_end 30 connected, gone seq fd))
      × (close (at_end 30 connected) (gone seq fd) ≡ (at_end 30 connected, gone seq fd))
unfolding create created new_object close release set_status new_connector
close-try_connect connected seq fd st = (
  refl,
  run_of connected seq fd st 30 (record { next = 2; freed = [] }) (omega arith) refl refl,
  refl,
)
