-- ===== src/Connector/Commands/Served.antt =====
-- network/connector.cpp, `ProcessSendNetworkPackets`: which commands are executed.
use game_server.Prelude.{
  ℕ, ◌≡◌, refl, ap, ◌∙◌, List, [], ◌∷◌, Option, none, some, ◌>>=◌, Bool, true, false, Bool-cases,
  inl, inr, ◌==◌, if◌then◌else◌, arith,
}
use game_server.Packet.{NetPacket}
use game_server.Server.{Sender, SendState, execute_cmd_send_all_packet}
use game_server.Connector.{dead, Connector, set_status, is_alive}
use game_server.Connector.Commands.{
  Poll, select_failed, timed_out, interrupted, read_failed, command, send_all, close_server,
  execute_command, process_polls, process_send_network_packets,
}

-- The send commands that are executed, each with what arrives meanwhile: those before the first round
-- that ends the sending.
abbrev pub served : List Poll → List (List (List NetPacket))
served [] = []
served (select_failed ∷ later) = []
served (timed_out ∷ later) = []
served (interrupted ∷ later) = served later
served (read_failed ∷ later) = []
served (command cmd schedule ∷ later) =
    let rest = served later in
    if cmd == send_all then schedule ∷ rest else if cmd == close_server then [] else rest

-- Whether the connector is dead afterwards.
abbrev pub dies : List Poll → Bool
dies [] = false
dies (select_failed ∷ later) = true
dies (timed_out ∷ later) = false
dies (interrupted ∷ later) = dies later
dies (read_failed ∷ later) = true
dies (command cmd schedule ∷ later) =
    let rest = dies later in if cmd == close_server then true else rest

abbrev pub send_rounds : Sender → List (List (List NetPacket)) → SendState → Option SendState
send_rounds send [] s = some s
send_rounds send (schedule ∷ later) s =
    execute_cmd_send_all_packet send schedule s >>= λ (total, s'). send_rounds send later s'

-- A connector that is dead executes nothing.
process_polls-dead :
    (send : Sender) (polls : List Poll) (c : Connector) (s : SendState)
    → process_polls send polls (set_status dead c) s ≡ some (set_status dead c, s)
unfolding process_polls set_status is_alive
process_polls-dead send [] c s = refl
process_polls-dead send (select_failed ∷ later) c s = refl
process_polls-dead send (timed_out ∷ later) c s = refl
process_polls-dead send (interrupted ∷ later) c s = process_polls-dead send later c s
process_polls-dead send (read_failed ∷ later) c s = refl
process_polls-dead send (command cmd schedule ∷ later) c s = refl

ending : Bool → Connector → SendState → Option (Connector × SendState)
ending dying c s = some (if dying then set_status dead c else c, s)

process_polls_lem :
    (send : Sender) (polls : List Poll) (c : Connector) (s : SendState)
    → is_alive c ≡ true
    → process_polls send polls c s ≡ (send_rounds send (served polls) s >>= ending (dies polls) c)
unfolding process_polls execute_command ending
process_polls_lem send [] c s h = refl
process_polls_lem send (select_failed ∷ later) c s h = refl
process_polls_lem send (timed_out ∷ later) c s h = refl
process_polls_lem send (interrupted ∷ later) c s h = process_polls_lem send later c s h
process_polls_lem send (read_failed ∷ later) c s h = refl
process_polls_lem send (command cmd schedule ∷ later) c s h = elim (Bool-cases (cmd == send_all)) [
  | inl e ↦
      let other : (cmd == close_server) ≡ false = ground (arith, e) in
      rw (h) (
        rw (e) (
          rw (other) (
            sent (λ s'. process_polls_lem send later c s' h)
              (execute_cmd_send_all_packet send schedule s))))
  | inr e ↦ elim (Bool-cases (cmd == close_server)) [
    | inl e' ↦ rw (h) (rw (e) (rw (e') (process_polls-dead send later c s)))
    | inr e' ↦ rw (h) (rw (e) (rw (e') (process_polls_lem send later c s h)))
  ]
]
  where
    sent :
        ((s' : SendState)
          → process_polls send later c s'
            ≡ (send_rounds send (served later) s' >>= ending (dies later) c))
        → (o : Option (ℕ × SendState))
        → ((o >>= λ (total, s'). some (c, s')) >>= λ (c', s'). process_polls send later c' s')
          ≡ ((o >>= λ (total, s'). send_rounds send (served later) s') >>= ending (dies later) c)
    sent again none = refl
    sent again (some (total, s')) = again s'

-- `ProcessSendNetworkPackets` of a connector that is alive executes the send commands up to the first round
-- that is a timeout, a failure or a close command, in order, and nothing after it; a failure or a close
-- command leaves the connector dead.
pub process_send_network_packets_lem :
    (send : Sender) (polls : List Poll) (c : Connector) (s : SendState)
    → c.has_connector_ctx ≡ true
    → is_alive c ≡ true
    → process_send_network_packets send polls c s ≡ (
        send_rounds send (served polls) s >>= λ s'.
        some (if dies polls then set_status dead c else c, s'))
unfolding process_send_network_packets ending
process_send_network_packets_lem send polls c s has h =
    ap (λ b. if b then (if is_alive c then process_polls send polls c s else some (c, s)) else none)
      has
    ∙ ap (λ b. if b then process_polls send polls c s else some (c, s)) h
    ∙ process_polls_lem send polls c s h
