-- ===== src/Clients/Examples.antt =====
-- One client that comes and goes.
use game_server.Prelude.{◌≡◌, refl, none, some, [], ◌∷◌, if◌then◌else◌, ◌==◌}
use game_server.Prelude.Map.{find}
use game_server.Clients.{
  Client, Clients, new_libevent_client, get_client_seq, get_client, get_client_by_fd, no_clients,
  new_client, add_client, close_client,
}
use game_server.Clients.Consistency.{
  IsConsistent, no_clients-IsConsistent, connect, connect-IsConsistent, connect_lem,
  close_client-IsConsistent, close_client_lem,
}

abbrev alice : Client
alice = new_libevent_client 3 70 (49 ∷ [])

nobody :
    (get_client no_clients (get_client_seq alice) ≡ none) × (get_client_by_fd no_clients 3 ≡ none)
unfolding get_client get_client_by_fd find
nobody = (refl, refl)

fd-alice : alice.context.client_fd ≡ 3
unfolding new_libevent_client
fd-alice = refl

abbrev online : Clients
online = connect no_clients alice

connect-IsConsistent_example : IsConsistent online
unfolding new_libevent_client
connect-IsConsistent_example =
    connect-IsConsistent no_clients alice no_clients-IsConsistent nobody.0 nobody.1

connect_lem_example :
    (get_client online 70 ≡ (if get_client_seq alice == 70 then some 0 else none))
    × (get_client_by_fd online 3 ≡ some 0)
unfolding new_libevent_client get_client get_client_by_fd find
connect_lem_example = connect_lem no_clients alice 70 3 nobody.0 nobody.1

online_store : online.store 0 ≡ some alice
unfolding new_client add_client
online_store = refl

close_client-IsConsistent_example : IsConsistent (close_client online 0)
close_client-IsConsistent_example =
    close_client-IsConsistent online 0 alice
      (unfold new_libevent_client in
        connect-IsConsistent no_clients alice no_clients-IsConsistent nobody.0 nobody.1)
      online_store

close_client_lem_example :
    (get_client (close_client online 0) 70
      ≡ (if get_client_seq alice == 70 then none else get_client online 70))
    × (get_client_by_fd (close_client online 0) 4
        ≡ (if alice.context.client_fd == 4 then none else get_client_by_fd online 4))
    × ((close_client online 0).store 0 ≡ none)
close_client_lem_example =
    close_client_lem online 0 alice 70 4
      (unfold new_libevent_client in
        connect-IsConsistent no_clients alice no_clients-IsConsistent nobody.0 nobody.1)
      online_store
