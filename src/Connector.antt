-- ===== src/Connector.antt =====
-- network/connector.h and network/connector.cpp, `Connector`: the connection of this server to another
-- one. A libevent object is a number; `Objects` says which have been freed, the last one first. What
-- libevent and the system return is an argument. Of the connector's thread the tries to connect are
-- modelled, the callback for events and `Close`; `StartMainLoop`, which calls `HeartBeat` and libevent's
-- loop in turn, is not.
pub mod Triggers
pub mod Life
pub mod Commands
pub mod Pool
mod Examples
use game_server.Prelude.{
  ℕ, zero, suc, ◌+◌, List, [], ◌∷◌, Option, none, some, ◌>>=◌, Bool, true, false, if◌then◌else◌,
}
use game_server.Prelude.Int.{ℤ, pos, negsuc}

-- `NEWTOWK_CONNECTOR_STATUS_TYPE`
pub data Status : Type 0 where
  unconnect alive dead closed : Status

pub record Objects : Type 0 where
  pub next : ℕ
  pub freed : List ℕ

unfoldable pub new_object : Objects → ℕ × Objects
new_object o = (o.next, record o { next = o.next + 1 })

-- `if(NULL != p)` and the call that frees it
unfoldable pub release : Option ℕ → Objects → Objects
release none o = o
release (some e) o = record o { freed = e ∷ o.freed }

-- `client_ctx` is the context's own pointer to the `bufferevent`, which its destructor frees.
pub record Connector : Type 0 where
  pub event_base : Option ℕ
  pub buffer_evt : Option ℕ
  pub write_event : Option ℕ
  pub client_ctx : Option ℕ
  pub has_connector_ctx : Bool
  pub client_seq : ℕ
  pub sock_fd : ℤ
  pub status : Status

-- `Connector(stServerIPInfo)`
unfoldable pub new_connector : Connector
new_connector = record {
  event_base = none;
  buffer_evt = none;
  write_event = none;
  client_ctx = none;
  has_connector_ctx = false;
  client_seq = 0;
  sock_fd = pos 0;
  status = unconnect;
}

-- `SetAlive`, `SetDead` and `SetClosed`
unfoldable pub set_status : Status → Connector → Connector
set_status st c = record c { status = st }

-- `IsAlive`
unfoldable pub is_alive : Connector → Bool
is_alive c = elim c.status [ alive ↦ true | _ ↦ false ]

-- `Create` behind `event_base_new`, which made c's base. `allocated` says whether `bufferevent_socket_new`
-- gives an object.
created : Objects → Connector → ℤ → ℕ → Bool → Bool × Objects × Connector
created o c (negsuc n) seq allocated = (false, o, record c { sock_fd = negsuc n })
created o c (pos fd) seq false = (false, o, record c { sock_fd = pos fd; client_seq = seq })
created o c (pos fd) seq true =
    let (e, o') = new_object o in
    (true, o', record c { sock_fd = pos fd; client_seq = seq; buffer_evt = some e })

-- `Create`: `fd` is what `socket` returns and `seq` what `GenerateSeqID` gives.
unfoldable pub create : Objects → Connector → ℤ → ℕ → Bool → Bool × Objects × Connector
unfolding created
create o c fd seq allocated =
    let (e, o') = new_object o in created o' (record c { event_base = some e }) fd seq allocated

-- `Connect`; `connected` says whether `bufferevent_socket_connect` succeeds, and `none` is a failed
-- assertion.
unfoldable pub connect : Objects → Connector → Bool → Option (Bool × Objects × Connector)
connect o c connected = c.event_base >>= λ base. c.buffer_evt >>= λ buffer.
    let (e, o') = new_object o in
    let c' = record c { write_event = some e } in
    some (
      if connected
      then (true, o', record c' { client_ctx = some buffer; has_connector_ctx = true })
      else (false, o', c'))

-- `Close`
unfoldable pub close : Objects → Connector → Objects × Connector
close o c = (
  release c.client_ctx (release c.write_event (release c.event_base (release c.buffer_evt o))),
  record c {
    status = closed;
    buffer_evt = none;
    event_base = none;
    write_event = none;
    client_ctx = none;
    has_connector_ctx = false;
  },
)

-- The end of one round of the loop in `ConnectorMainThread`
after_connect :
    (Objects → Connector → Option (Objects × Connector))
    → Bool × Objects × Connector
    → Option (Objects × Connector)
after_connect again (true, o, c) = some (o, set_status alive c)
after_connect again (false, o, c) = again o (set_status dead c)

-- The loop in `ConnectorMainThread` with `tries` rounds left, the next of which is i
unfoldable pub try_connect : ℕ → (ℕ → Bool) → ℕ → Objects → Connector → Option (Objects × Connector)
unfolding after_connect
try_connect zero connected i o c = some (o, c)
try_connect (suc tries) connected i o c =
    connect o c (connected i) >>= after_connect (try_connect tries connected (i + 1))

-- The `wEvent` of `_OnConnectorBufferEventTrigger`: which of the three bits that it tests are set
pub record Trigger : Type 0 where
  pub timeout : Bool
  pub eof : Bool
  pub error : Bool

-- `_OnConnectorBufferEventTrigger`
unfoldable pub on_trigger : Connector → Trigger → Connector
on_trigger c t =
    let c = if t.timeout then set_status dead c else c in
    let c = if t.eof then set_status dead c else c in if t.error then set_status dead c else c
