-- ===== src/Tests/Interleaved.antt =====
-- Two calls of CreateTunnel for one port of one client at once, for the tests of
-- src/joebot/server/client.go.
use joebot.Prelude.{ℕ, [], ◌∷◌}
use joebot.Models.{PortTunnelInfo}
use joebot.Server.{Server}
use joebot.Server.Interleaved.{Waiting, Asked, Busy, begin_locked, after_lock, unlocked}
use joebot.Server.Tunnel.{instruct}
use joebot.Tests.Server.{some_gob, three_clients, confirming}
use joebot.Tests.System.{free_os}

abbrev two_services : Server
two_services = record three_clients {
  ports_manager = record { ports_in_use = 9000 ∷ (9001 ∷ []); allowed_ports = [] };
  gost_tunnels =
      record { port = 9000; last_serve_time = 0 }
      ∷ (record { port = 9001; last_serve_time = 0 } ∷ []);
}

abbrev tunnel_to : ℕ → ℕ → PortTunnelInfo
tunnel_to gost_port p = record { gost_server_port = gost_port; server_port = p; client_port = 22 }

-- The goroutines of the two calls.
abbrev waits_for : ℕ → ℕ → Waiting
waits_for i gost_port = record { client = 2; client_port = 22; service = i; gost_port = gost_port }

abbrev asks_with : ℕ → PortTunnelInfo → Asked
asks_with i tunnel = record { client = 2; service = i; tunnel = tunnel }

abbrev both_waiting : Busy
both_waiting = record {
  server = two_services;
  waiting = waits_for 1 9001 ∷ (waits_for 0 9000 ∷ []);
  asked = [];
}

abbrev one_locked : Busy
one_locked =
    after_lock both_waiting (waits_for 1 9001 ∷ []) (waits_for 0 9000) 0
      (begin_locked free_os two_services 2 9000 22 0)

abbrev both_locked : Busy
both_locked =
    after_lock one_locked [] (waits_for 1 9001) 0
      (begin_locked free_os one_locked.server 2 9001 22 10)

abbrev first_ended : Busy
first_ended = record {
  server =
      unlocked ((instruct some_gob both_locked.server 2 confirming (tunnel_to 9000 4000)).0) 0 0;
  waiting = both_locked.waiting;
  asked = asks_with 1 (tunnel_to 9001 4010) ∷ [];
}

abbrev both_ended : Busy
both_ended = record {
  server =
      unlocked ((instruct some_gob first_ended.server 2 confirming (tunnel_to 9001 4010)).0) 1 0;
  waiting = first_ended.waiting;
  asked = [];
}
