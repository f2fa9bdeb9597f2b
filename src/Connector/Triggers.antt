-- ===== src/Connector/Triggers.antt =====
-- network/connector.cpp, `_OnConnectorBufferEventTrigger`: what an event of the connection does.
use game_server.Prelude.{◌≡◌, refl, Bool, true, false, ◌||◌, if◌then◌else◌}
use game_server.Connector.{dead, Connector, set_status, on_trigger}

-- A trigger with one of the three bits makes the connector dead, and another one changes nothing.
on_trigger_lem :
    (a b e : Bool) (c : Connector)
    → on_trigger c (record { timeout = a; eof = b; error = e })
      ≡ (if a || (b || e) then set_status dead c else c)
unfolding on_trigger set_status
on_trigger_lem true true true c = refl
on_trigger_lem true true false c = refl
on_trigger_lem true false true c = refl
on_trigger_lem true false false c = refl
on_trigger_lem false true true c = refl
on_trigger_lem false true false c = refl
on_trigger_lem false false true c = refl
on_trigger_lem false false false c = refl
