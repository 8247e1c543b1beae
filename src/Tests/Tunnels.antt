-- ===== src/Tests/Tunnels.antt =====
-- A tunnel between a server and a client, for the tests of src/joebot/server and src/joebot/client.
use joebot.Prelude.{
  ℕ, ◌≡◌, ◌++◌, refl, arith, none, some, List, [], ◌∷◌, map, fault, false, str, Result, ok, err,
}
use joebot.Client.{add_tunnel}
use joebot.Client.Process.{Running, Libraries, client_tasks, client_handler}
use joebot.Client.Tasks.{Gost, Gotty}
use joebot.Handler.{serve_stream}
use joebot.Models.{PortTunnelInfo, NovncWebsocketInfo, GottyWebTerminalInfo, FilebrowserInfo}
use joebot.Ports.{reserve_port, reserve_loop, get_allowed_and_free_port, get_free_port}
use joebot.Server.Tunnel.{Gob, Tunnelled, create_tunnel, find_tunnel}
use joebot.Task.{Writer, bytes, port_tunnel_request, request}
use joebot.Tests.Client.{fresh, tunnel_at}
use joebot.Tests.Server.{some_gob, three_clients, some_turn}
use joebot.Tests.System.{free_os, idle}
use joebot.Tunnels.{create_tunnel-port_tunnel_task}

abbrev decode_three : List ℕ → PortTunnelInfo → Result PortTunnelInfo
decode_three (g ∷ (s ∷ (c ∷ []))) old =
    ok (record { gost_server_port = g; server_port = s; client_port = c })
decode_three body old = err (fault 1)

abbrev decode_novnc : List ℕ → NovncWebsocketInfo → Result NovncWebsocketInfo
decode_novnc (v ∷ (p ∷ [])) old = ok (record old { vnc_server_port = v; novnc_websocket_port = p })
decode_novnc body old = err (fault 1)

abbrev decode_gotty : List ℕ → GottyWebTerminalInfo → Result GottyWebTerminalInfo
decode_gotty (p ∷ []) old = ok (record old { gotty_web_terminal_port = p })
decode_gotty body old = err (fault 1)

abbrev decode_filebrowser : List ℕ → FilebrowserInfo → Result FilebrowserInfo
decode_filebrowser (p ∷ directory) old =
    ok (record old { filebrowser_port = p; default_directory = directory })
decode_filebrowser body old = err (fault 1)

-- Encodings that can be decoded.
abbrev pub exact_gob : Gob
exact_gob = record some_gob {
  encode_tunnel = λ t. t.gost_server_port ∷ (t.server_port ∷ (t.client_port ∷ []));
  decode_tunnel = decode_three;
  encode_novnc = λ i. i.vnc_server_port ∷ (i.novnc_websocket_port ∷ []);
  decode_novnc = decode_novnc;
  encode_gotty = λ i. i.gotty_web_terminal_port ∷ [];
  decode_gotty = decode_gotty;
  encode_filebrowser = λ i. i.filebrowser_port ∷ i.default_directory;
  decode_filebrowser = decode_filebrowser;
}

abbrev some_gost : Gost
some_gost = record { listen_remote = λ addr port. ok (tunnel_at port) }

abbrev new_tunnel : PortTunnelInfo
new_tunnel = record { gost_server_port = 9000; server_port = 4000; client_port = 22 }

pub port_is_free : (reserve_port free_os three_clients.ports_manager 0).port ≡ ok 4000
unfolding reserve_port reserve_loop get_allowed_and_free_port get_free_port
port_is_free = refl

no_tunnel_yet : find_tunnel 22 (three_clients.heap 2).info.port_tunnels ≡ none
unfolding find_tunnel
no_tunnel_yet = refl

abbrev pub some_gotty : Gotty
some_gotty = record {
  default_options = ok tt;
  default_preferences = ok tt;
  default_backend = ok tt;
  new_factory = λ command. ok 7;
  new_server = λ factory options. ok 8;
}

abbrev pub some_libraries : Libraries
some_libraries = record {
  os = free_os;
  gob = exact_gob;
  gost = some_gost;
  gotty = some_gotty;
  start = λ port host web_port. ok (str ":" ++ port);
}

abbrev pub answering : Running
answering = record { client = fresh; successors = []; stream = idle; time = 0; exited = false }

create_tunnel-port_tunnel_task_example :
    (w' : Writer) × (v' : Writer) × (done : Tunnelled) × (request
        (ok idle)
        port_tunnel_request
        (9000 ∷ (4000 ∷ (22 ∷ [])))
      ≡ ok w')
    × (serve_stream
          (client_handler (client_tasks some_libraries))
          (map bytes w'.written)
          (record { state = answering; log = [] })
        ≡ record {
          state = record answering { client = add_tunnel (tunnel_at 4000) fresh; stream = v' };
          log = [];
        })
    × (create_tunnel free_os exact_gob three_clients 2
          (record { opened = ok idle; answers = map bytes v'.written })
          some_turn
          22
          0
        ≡ some done)
    × (done.result ≡ ok new_tunnel)
    × ((done.server.heap 2).info.port_tunnels ≡ [] ++ (new_tunnel ∷ []))
create_tunnel-port_tunnel_task_example =
    create_tunnel-port_tunnel_task free_os some_libraries (λ t. refl) (λ t. omega arith)
      three_clients 2 some_turn 22 0 (record { port = 9000; last_serve_time = 0 }) 4000 refl
      no_tunnel_yet port_is_free answering (tunnel_at 4000) refl [] idle (λ n. refl) refl
      (λ n. refl) refl
