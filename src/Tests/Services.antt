-- ===== src/Tests/Services.antt =====
-- The services of a client on a small server, for the tests of src/joebot/server and
-- src/joebot/client.
use joebot.Prelude.{
  ℕ, ◌≡◌, refl, arith, true, none, some, [], ◌∷◌, ◌++◌, ◌==◌, ◌||◌, if◌then◌else◌, fault, str, ok,
  err,
}
use joebot.Client.Process.{Libraries}
use joebot.Client.Tasks.{no_port_tunnel, start_gotty}
use joebot.Models.{PortTunnelInfo}
use joebot.Ports.{
  Os, reserve_port, reserve_loop, get_allowed_and_free_port, get_free_port, is_port_occupied,
}
use joebot.Server.Services.{
  create_filebrowser, create_gotty_web_terminal, create_novnc_websocket_tunnel, create_ssh_tunnel,
}
use joebot.Server.Tunnel.{find_tunnel}
use joebot.Services.{Fresh, Provides}
use joebot.Services.Filebrowser.{create_filebrowser-handle_filebrowser}
use joebot.Services.Gotty.{create_gotty_web_terminal-handle_gotty}
use joebot.Services.Novnc.{create_novnc_websocket_tunnel-handle_novnc}
use joebot.Services.Reserving.{with_port}
use joebot.Services.Ssh.{create_ssh_tunnel-handle_ssh_tunnel}
use joebot.Server.{GostTunnel}
use joebot.Strings.{itoa}
use joebot.Task.{ssh_tunnel_request, novnc_request, gotty_web_terminal_request, filebrowser_request}
use joebot.Tests.Client.{fresh, tunnel_at, got_4000}
use joebot.Tests.Server.{three_clients, some_turn}
use joebot.Tests.System.{free_os, idle}
use joebot.Tests.Tunnels.{exact_gob, some_libraries, answering, port_is_free}

-- A system on which the ports of SSH and VNC are taken.
abbrev taken_os : Os
taken_os = record free_os {
  listen = λ t p. if p == 22 || p == 5901 then err (fault 3) else free_os.listen t p;
}

abbrev taken_libraries : Libraries
taken_libraries = record some_libraries { os = taken_os }

idle-Fresh : Fresh idle
idle-Fresh = record { writes = λ n. refl; empty = refl }

abbrev only_service : GostTunnel
only_service = record { port = 9000; last_serve_time = 0 }

abbrev tunnel_to : ℕ → PortTunnelInfo
tunnel_to p = record { gost_server_port = 9000; server_port = 4000; client_port = p }

no_tunnel_to : (p : ℕ) → find_tunnel p (three_clients.heap 2).info.port_tunnels ≡ none
unfolding find_tunnel
no_tunnel_to p = refl

create_filebrowser-handle_filebrowser_example :
    Provides some_libraries [] filebrowser_request []
      (λ talk. create_filebrowser free_os exact_gob three_clients 2 talk 0)
      some_turn
      idle
      idle
      idle
      answering
      (record answering {
        client = record (with_port free_os fresh 0) {
          filebrowser_server = some (str ":" ++ itoa 4000);
        };
        time = (reserve_port free_os fresh.ports_manager 0).time;
      })
      (tunnel_at 4000)
      (tunnel_to 4000)
      (record {
        default_directory = [];
        filebrowser_port = 4000;
        port_tunnel_on_host = tunnel_to 4000;
      })
      (λ s'.
        (s'.heap 2).info.filebrowser_info
        ≡ some (record {
          default_directory = [];
          filebrowser_port = 4000;
          port_tunnel_on_host = tunnel_to 4000;
        }))
create_filebrowser-handle_filebrowser_example =
    create_filebrowser-handle_filebrowser free_os some_libraries (λ t. refl) (λ t. omega arith)
      three_clients 2 some_turn 0 only_service 4000 4000 answering (str ":" ++ itoa 4000)
      (tunnel_at 4000) refl got_4000 refl refl (no_tunnel_to 4000) port_is_free refl refl
      (omega arith) [] idle idle idle idle-Fresh idle-Fresh idle-Fresh idle-Fresh

gotty_starts : start_gotty free_os exact_gob some_libraries.gotty fresh.settings 4000 ≡ ok 8
unfolding start_gotty
gotty_starts = refl

create_gotty_web_terminal-handle_gotty_example :
    Provides some_libraries [] gotty_web_terminal_request []
      (λ talk. create_gotty_web_terminal free_os exact_gob three_clients 2 talk 0)
      some_turn
      idle
      idle
      idle
      answering
      (record answering {
        client = with_port free_os fresh 0;
        time = (reserve_port free_os fresh.ports_manager 0).time;
      })
      (tunnel_at 4000)
      (tunnel_to 4000)
      (record { gotty_web_terminal_port = 4000; port_tunnel_on_host = tunnel_to 4000 })
      (λ s'.
        (s'.heap 2).info.gotty_web_terminal_info
        ≡ some (record { gotty_web_terminal_port = 4000; port_tunnel_on_host = tunnel_to 4000 }))
create_gotty_web_terminal-handle_gotty_example =
    create_gotty_web_terminal-handle_gotty free_os some_libraries (λ t. refl) (λ t. omega arith)
      three_clients 2 some_turn 0 only_service 4000 4000 answering 8 (tunnel_at 4000) refl got_4000
      gotty_starts refl (no_tunnel_to 4000) port_is_free refl refl (omega arith) [] idle idle idle
      idle-Fresh idle-Fresh idle-Fresh idle-Fresh

vnc_listens : is_port_occupied taken_os 0 5901 ≡ true
unfolding is_port_occupied
vnc_listens = refl

ssh_listens : is_port_occupied taken_os 0 22 ≡ true
unfolding is_port_occupied
ssh_listens = refl

got_4001 : (reserve_port taken_os fresh.ports_manager 1).port ≡ ok 4001
unfolding reserve_port reserve_loop get_allowed_and_free_port get_free_port
got_4001 = refl

create_novnc_websocket_tunnel-handle_novnc_example :
    Provides taken_libraries [] novnc_request
      (5901 ∷ (0 ∷ []))
      (λ talk. create_novnc_websocket_tunnel free_os exact_gob three_clients 2 5901 talk 0)
      some_turn
      idle
      idle
      idle
      answering
      (record answering {
        client = record (with_port taken_os fresh 1) {
          novnc_websocket_server = some (str ":" ++ itoa 4001);
        };
        time = (reserve_port taken_os fresh.ports_manager 1).time;
      })
      (tunnel_at 4000)
      (tunnel_to 4001)
      (record {
        vnc_server_port = 5901;
        novnc_websocket_port = 4001;
        port_tunnel_on_host = tunnel_to 4001;
      })
      (λ s'.
        (s'.heap 2).info.novnc_websocket_info
        ≡ some (record {
          vnc_server_port = 5901;
          novnc_websocket_port = 4001;
          port_tunnel_on_host = tunnel_to 4001;
        }))
create_novnc_websocket_tunnel-handle_novnc_example =
    create_novnc_websocket_tunnel-handle_novnc free_os taken_libraries (λ t. refl)
      (λ t. omega arith) three_clients 2 some_turn 5901 0 only_service 4001 4000 answering
      (tunnel_at 4000) refl vnc_listens got_4001 refl (no_tunnel_to 4001) port_is_free refl refl
      refl (omega arith) (omega arith) [] idle idle idle idle-Fresh idle-Fresh idle-Fresh idle-Fresh

create_ssh_tunnel-handle_ssh_tunnel_example :
    Provides taken_libraries [] ssh_tunnel_request []
      (λ talk. create_ssh_tunnel free_os exact_gob three_clients 2 talk 0)
      some_turn
      idle
      idle
      idle
      answering
      (record answering { time = 1 })
      (tunnel_at 4000)
      (tunnel_to 22)
      (record no_port_tunnel { client_port = 22 })
      (λ s'. (s'.heap 2).info.ssh_tunnel ≡ some (tunnel_to 22))
create_ssh_tunnel-handle_ssh_tunnel_example =
    create_ssh_tunnel-handle_ssh_tunnel free_os taken_libraries (λ t. refl) (λ t. omega arith)
      three_clients 2 some_turn 0 only_service 4000 answering (tunnel_at 4000) refl ssh_listens refl
      (no_tunnel_to 22) port_is_free refl [] idle idle idle idle-Fresh idle-Fresh idle-Fresh
      idle-Fresh
