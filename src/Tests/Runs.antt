-- ===== src/Tests/Runs.antt =====
-- A server that has started, and a client that has connected to it, for the tests of
-- src/joebot/server.
use joebot.Prelude.{
  ℕ, Result, List, some, none, fault, err, Option, ◌≡◌, refl, true, [], ◌∷◌, false, str_eq, has, ok,
}
use joebot.Ports.{
  reserve_port, reserve_loop, get_allowed_and_free_port, get_free_port, new_ports_manager,
}
use joebot.Server.{Server, is_set, has_listener, remove_client, add_client, new_client, server_stop}
use joebot.Server.Reached.{
  reached-Changes, reached_returns, reached_stop, reached_lookup, reached_panics, reached_start,
}
use joebot.Server.Lookup.{get_client_by_id_during}
use joebot.Server.Shutdown.{survivors}
use joebot.Server.Registry.{Call, Changes, enters, leaves, serves, registry}
use joebot.Server.Runs.{Runs, begun, next, accepts, starts, tunnels}
use joebot.Server.Distinct.{All-has}
use joebot.Server.Leaving.{Ready}
use mathlib.Core.Option
use joebot.Server.Services.{
  set_session, client_start, exit_if_error, create_services, create_ssh_tunnel, create_filebrowser,
  create_gotty_web_terminal, create_novnc_websocket_tunnel, ask,
}
use joebot.Server.Startup.{start_tunnels, listen_result, new_server, server_start, accept_client}
use joebot.Server.Steps.{Returns}
use joebot.Server.Tunnel.{
  Tunnelled, call_create_tunnel, asks_nil, create_tunnel, create_locked, get_tunnel_service,
  find_tunnel, instruct,
}
use joebot.Task.{request, write, wait_task_complete_signal, read_buf}
use joebot.Task.Bytes.{le_bytes, le_value}
use joebot.Slices.{visible, append_one}
use joebot.Tests.Server.{some_gob, confirming, some_turn, four_talks, silent_talks, no_tls, started}
use joebot.Tests.System.{free_os}

abbrev pub empty_site : Server
empty_site = (server_start free_os 0 no_tls new_server 0).0.server

abbrev pub one_client : Server
one_client = accept_client empty_site 1 (1 ∷ [])

pub one_run : Runs free_os some_gob empty_site (enters (1 ∷ []) ∷ []) one_client
unfolding server_start start_tunnels new_server reserve_port reserve_loop get_allowed_and_free_port
    get_free_port new_ports_manager listen_result str_eq
one_run = next begun (accepts 1 (1 ∷ []) refl refl tt refl)

pub one_client_has : has 1 (visible one_client.clients) ≡ true
unfolding server_start start_tunnels new_server reserve_port reserve_loop get_allowed_and_free_port
    get_free_port new_ports_manager listen_result str_eq accept_client add_client append_one
one_client_has = refl

-- A client that starts gets its session, and none of its services where none of them answers.
client_start-silent :
    (s : Server) (a t : ℕ)
    → ((set_session s a).heap a).info.ssh_tunnel ≡ none
    → ((set_session s a).heap a).info.gotty_web_terminal_info ≡ none
    → ((set_session s a).heap a).info.novnc_websocket_info ≡ none
    → ((set_session s a).heap a).info.filebrowser_info ≡ none
    → client_start free_os some_gob s a (ok tt) silent_talks t ≡ some (set_session s a, t)
unfolding client_start create_services create_ssh_tunnel create_filebrowser
    create_gotty_web_terminal create_novnc_websocket_tunnel ask request Option.bind
client_start-silent s a t ssh gotty novnc filebrowser =
    rw
      (
        ssh, gotty, novnc, filebrowser, create_ssh_tunnel, create_gotty_web_terminal,
        create_novnc_websocket_tunnel, create_filebrowser,
      )
      refl

abbrev pub one_up : Server
one_up = set_session one_client 1

one_up_is : client_start free_os some_gob one_client 1 (ok tt) silent_talks 0 ≡ some (one_up, 0)
unfolding server_start start_tunnels new_server reserve_port reserve_loop get_allowed_and_free_port
    get_free_port new_ports_manager listen_result str_eq accept_client add_client append_one
    new_client
one_up_is = client_start-silent one_client 1 0 refl refl refl refl

abbrev pub up_calls : List Call
up_calls = serves (one_client.heap 1).id ∷ (enters (1 ∷ []) ∷ [])

pub one_up_run : Runs free_os some_gob empty_site up_calls one_up
one_up_run = next one_run (starts 1 (ok tt) silent_talks 0 0 one_client_has one_up_is)

pub one_up-Ready : Ready one_up
unfolding server_start start_tunnels new_server reserve_port reserve_loop get_allowed_and_free_port
    get_free_port new_ports_manager listen_result str_eq accept_client add_client append_one
    new_client
one_up-Ready a m =
    All-has (λ b. is_set (one_up.heap b).session ≡ true) (visible one_up.clients) a (refl, tt) m

pub one_up_has : has 1 (visible one_up.clients) ≡ true
unfolding server_start start_tunnels new_server reserve_port reserve_loop get_allowed_and_free_port
    get_free_port new_ports_manager listen_result str_eq accept_client add_client append_one
    new_client
one_up_has = refl

-- The client's port 22 gets a tunnel.
abbrev got : Option Tunnelled → Tunnelled
got none = record { server = one_up; result = err (fault 0); time = 0 }
got (some r) = r

abbrev served_client : Tunnelled
served_client = got (call_create_tunnel free_os some_gob one_up 1 confirming some_turn 22 1000)

served_client_is :
    call_create_tunnel free_os some_gob one_up 1 confirming some_turn 22 1000 ≡ some served_client
unfolding server_start start_tunnels new_server reserve_port reserve_loop get_allowed_and_free_port
    get_free_port new_ports_manager listen_result str_eq accept_client add_client append_one
    call_create_tunnel asks_nil create_tunnel get_tunnel_service find_tunnel request new_client
served_client_is = refl

served_run :
    Runs free_os some_gob empty_site (serves (one_up.heap 1).id ∷ up_calls) served_client.server
served_run =
    next one_up_run
      (tunnels 1 confirming some_turn 22 1000 served_client one_up_has served_client_is refl)

abbrev two_calls : List Call
two_calls = serves (one_up.heap 1).id ∷ up_calls

served_client_has : has 1 (visible served_client.server.clients) ≡ true
unfolding server_start start_tunnels new_server reserve_port reserve_loop get_allowed_and_free_port
    get_free_port new_ports_manager listen_result str_eq accept_client add_client append_one
    call_create_tunnel asks_nil create_tunnel get_tunnel_service find_tunnel request new_client
    create_locked instruct write wait_task_complete_signal read_buf le_bytes le_value
served_client_has = refl

reached-Changes_example : Changes [] two_calls (registry served_client.server)
reached-Changes_example =
    reached-Changes free_os some_gob 0 no_tls 0 started served_client.server two_calls served_run

reached_start_example :
    Returns (client_start free_os some_gob one_client 1 (ok tt) four_talks 0) (λ r.
      Runs free_os some_gob empty_site (serves (one_client.heap 1).id ∷ (enters (1 ∷ []) ∷ [])) r.0)
reached_start_example =
    reached_start free_os some_gob 0 no_tls 0 started one_client (enters (1 ∷ []) ∷ []) one_run 1
      four_talks 0 one_client_has

reached_returns_example :
    Returns
      (call_create_tunnel free_os some_gob one_up 1 confirming some_turn 22 0)
      (λ r. Runs free_os some_gob empty_site (serves (one_up.heap 1).id ∷ up_calls) r.server)
    × Returns
        (exit_if_error one_up 1)
        (λ s'. Runs free_os some_gob empty_site (leaves (one_up.heap 1).id ∷ up_calls) s')
    × Returns
        (remove_client one_up (1 ∷ []))
        (λ r. Runs free_os some_gob empty_site (leaves (1 ∷ []) ∷ up_calls) r.0)
reached_returns_example =
    reached_returns free_os some_gob 0 no_tls 0 started one_up up_calls one_up_run 1 confirming
      some_turn 22 0 (1 ∷ []) one_up_has one_up-Ready

-- A second client comes and starts.
abbrev two_connected : Server
two_connected = accept_client one_up 2 (2 ∷ [])

abbrev two_up : Server
two_up = set_session two_connected 2

abbrev two_up_calls : List Call
two_up_calls = serves (two_connected.heap 2).id ∷ (enters (2 ∷ []) ∷ up_calls)

two_up_is : client_start free_os some_gob two_connected 2 (ok tt) silent_talks 0 ≡ some (two_up, 0)
unfolding server_start start_tunnels new_server reserve_port reserve_loop get_allowed_and_free_port
    get_free_port new_ports_manager listen_result str_eq accept_client add_client append_one
    new_client
two_up_is = client_start-silent two_connected 2 0 refl refl refl refl

two_up_run : Runs free_os some_gob empty_site two_up_calls two_up
unfolding server_start start_tunnels new_server reserve_port reserve_loop get_allowed_and_free_port
    get_free_port new_ports_manager listen_result str_eq accept_client add_client append_one
    new_client
two_up_run =
    next (next one_up_run (accepts 2 (2 ∷ []) refl refl (refl, tt) refl))
      (starts 2 (ok tt) silent_talks 0 0 refl two_up_is)

two_up-Ready : Ready two_up
unfolding server_start start_tunnels new_server reserve_port reserve_loop get_allowed_and_free_port
    get_free_port new_ports_manager listen_result str_eq accept_client add_client append_one
    new_client
two_up-Ready a m =
    All-has (λ b. is_set (two_up.heap b).session ≡ true) (visible two_up.clients) a
      (refl, (refl, tt)) m

two_up_listener : has_listener two_up.listener ≡ true
unfolding server_start start_tunnels new_server reserve_port reserve_loop get_allowed_and_free_port
    get_free_port new_ports_manager listen_result str_eq accept_client add_client append_one
    new_client
two_up_listener = refl

reached_stop_example :
    (s' : Server) × (server_stop two_up ≡ some s')
    × (visible s'.clients ≡ survivors (visible two_up.clients))
reached_stop_example =
    reached_stop free_os some_gob 0 no_tls 0 started two_up two_up_calls two_up_run two_up-Ready
      two_up_listener

reached_lookup_example :
    (s' : Server) × (res : Result ℕ) × (get_client_by_id_during two_up
        (2 ∷ [])
        ([] ∷ (((1 ∷ []) ∷ []) ∷ []))
      ≡ some (s', res))
    × ((a : ℕ)
        → res ≡ ok a
        → ((two_up.heap a).id ≡ 2 ∷ []) × (has a (visible two_up.clients) ≡ true))
reached_lookup_example =
    reached_lookup free_os some_gob 0 no_tls 0 started two_up two_up_calls two_up_run (2 ∷ [])
      ([] ∷ (((1 ∷ []) ∷ []) ∷ [])) two_up-Ready

one_client_unset : is_set (one_client.heap 1).session ≡ false
unfolding server_start start_tunnels new_server reserve_port reserve_loop get_allowed_and_free_port
    get_free_port new_ports_manager listen_result str_eq accept_client add_client append_one
    new_client
one_client_unset = refl

one_client_fresh : find_tunnel 22 (one_client.heap 1).info.port_tunnels ≡ none
unfolding server_start start_tunnels new_server reserve_port reserve_loop get_allowed_and_free_port
    get_free_port new_ports_manager listen_result str_eq accept_client add_client append_one
    new_client find_tunnel
one_client_fresh = refl

port_free : (reserve_port free_os one_client.ports_manager 1000).port ≡ ok 5000
unfolding server_start start_tunnels new_server reserve_port reserve_loop get_allowed_and_free_port
    get_free_port new_ports_manager listen_result str_eq accept_client add_client append_one
    new_client
port_free = refl

-- The client before it has started.
reached_panics_example :
    (remove_client one_client (one_client.heap 1).id ≡ none)
    × (exit_if_error one_client 1 ≡ none)
    × (client_start free_os some_gob one_client 1 (err (fault 0)) four_talks 1000 ≡ none)
    × (call_create_tunnel free_os some_gob one_client 1 confirming some_turn 22 1000 ≡ none)
reached_panics_example =
    reached_panics free_os some_gob 0 no_tls 0 started one_client (enters (1 ∷ []) ∷ []) one_run 1
      confirming some_turn 22 (fault 0) four_talks 1000 5000 one_client_has one_client_unset
      one_client_fresh port_free
