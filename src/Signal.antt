-- ===== src/Signal.antt =====
-- common/signal.cpp, `ST_GameSingnal`: the flag with which the network thread wakes the logic thread. Each
-- operation holds the flag's lock, and is one step. The handlers of the operating system's signals are
-- left out.
use game_server.Prelude.{Bool, true, false}

-- `Emit`
abbrev pub emit : Bool → Bool
emit has_signal = true

-- `CheckAndSetSignalActived`: whether there was a signal, and the flag after it.
unfoldable pub check_and_set_signal_actived : Bool → Bool × Bool
check_and_set_signal_actived has_signal = (has_signal, false)
