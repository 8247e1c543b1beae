-- ===== src/Tests/Server.antt =====
-- A server with one tunnel service and some clients, for the tests of src/joebot/server.
use joebot.Prelude.{
  ℕ, ◌≡◌, refl, false, none, some, [], ◌∷◌, arith, str_eq, length, GoString, ok, err, fault,
}
use joebot.Server.{Server, opened, listening, Client, GostTunnel, empty_info}
use joebot.Ports.{
  reserve_port, reserve_loop, get_allowed_and_free_port, get_free_port, new_ports_manager,
}
use joebot.Server.Boot.{server_start_lem}
use joebot.Server.Distinct.{Distinct}
use joebot.Server.Rotation.{taken_services, round_robin, taken_services-round_robin}
use joebot.Server.Services.{Talk}
use joebot.Server.Startup.{Listening, start_tunnels, listen_result, new_server, server_start}
use joebot.Server.Tunnel.{Gob, Exchange, Turn, second}
use joebot.Slices.Removal.{over}
use joebot.Task.{bytes}
use joebot.Task.Bytes.{le_bytes}
use joebot.Tests.System.{free_os, idle}

abbrev pub some_gob : Gob
some_gob = record {
  encode_tunnel = λ i. i.client_port ∷ [];
  decode_tunnel = λ b i. ok i;
  encode_novnc = λ i. [];
  decode_novnc = λ b i. ok i;
  encode_gotty = λ i. [];
  decode_gotty = λ b i. ok i;
  encode_filebrowser = λ i. [];
  decode_filebrowser = λ b i. ok i;
  encode_client = λ i. [];
  decode_client = λ b i. ok i;
}

-- The ID of the client at an address.
abbrev pub ident : ℕ → GoString
ident a = a ∷ []

abbrev client_at : ℕ → Client
client_at a = record {
  id = ident a;
  info = empty_info (ident a);
  cancelled = false;
  session = opened;
  conn_closed = false;
}

abbrev pub three_clients : Server
three_clients = record {
  ports_manager = record { ports_in_use = 9000 ∷ []; allowed_ports = [] };
  gost_tunnels = (record { port = 9000; last_serve_time = 0 }) ∷ [];
  gost_tunnel_start_index = 0;
  clients = over (1 ∷ (2 ∷ (3 ∷ []))) [];
  heap = client_at;
  cancelled = false;
  listener = listening;
}

-- A client that confirms its tasks.
abbrev pub confirming : Exchange
confirming = record { opened = ok idle; answers = bytes (le_bytes 2 888) ∷ [] }

abbrev pub some_turn : Turn
some_turn = record { taken = 0; returned = 0 }

-- A client that answers with an empty object, and then confirms the tunnel.
abbrev pub answering : Talk
answering = record {
  asked = record { opened = ok idle; answers = bytes (le_bytes 8 0) ∷ (bytes [] ∷ []) };
  tunnel = confirming;
  turn = some_turn;
}

abbrev pub four_talks : Talk × Talk × Talk × Talk
four_talks = (answering, answering, answering, answering)

-- A client that no stream can be opened to.
abbrev silent : Talk
silent = record {
  asked = record { opened = err (fault 0); answers = [] };
  tunnel = record { opened = err (fault 0); answers = [] };
  turn = some_turn;
}

abbrev pub silent_talks : Talk × Talk × Talk × Talk
silent_talks = (silent, silent, silent, silent)

abbrev pub no_tls : Listening
no_tls = record { listened = ok tt; tls_cert = []; tls_key = []; loaded = ok tt }

pub started : (server_start free_os 0 no_tls new_server 0).0.error ≡ none
unfolding server_start start_tunnels new_server reserve_port reserve_loop get_allowed_and_free_port
    get_free_port new_ports_manager listen_result str_eq
started = refl

server_start_lem_example :
    (length (server_start free_os 0 no_tls new_server 0).0.server.gost_tunnels ≡ 30)
    × ((server_start free_os 0 no_tls new_server 0).0.server.gost_tunnel_start_index ≡ 0)
server_start_lem_example = server_start_lem free_os 0 no_tls 0 started

pub all_differ : Distinct ident (1 ∷ (2 ∷ (3 ∷ [])))
unfolding str_eq
all_differ = (((refl, refl), ((refl, refl), tt)), (((refl, refl), tt), (tt, tt)))

taken_services-round_robin_example : taken_services 3 three_clients ≡ some (round_robin 1 0 3)
taken_services-round_robin_example = taken_services-round_robin 3 three_clients (omega arith)

abbrev served_once : GostTunnel
served_once = record { port = 9000; last_serve_time = second }
