-- ===== src/Tests/Client.antt =====
-- A client and its tunnels, for the tests of src/joebot/client.
use joebot.Prelude.{ℕ, ◌≡◌, refl, true, false, none, some, [], ◌∷◌, has, str, fault, wrap, ok, err}
use joebot.Client.{Client, Settings, GostServer, set_allowed_port_range, new_client}
use joebot.Client.Leaks.{handle_filebrowser-leak}
use joebot.Client.Tasks.{handle_filebrowser}
use joebot.Program.{ClientFlags, default_client_flags}
use joebot.Ports.{
  new_ports_manager, reserve_port, reserve_loop, get_allowed_and_free_port, first_free,
  get_free_port,
}
use joebot.Slices.Removal.{over}
use joebot.Strings.{pos}
use joebot.Tests.Server.{some_gob}
use joebot.Tests.System.{free_os, idle}

abbrev pub some_settings : Settings
some_settings = record {
  server_ip = str "10.0.0.9";
  server_port = 13579;
  server_web_portal_port = 8080;
  allowed_port_range_lbound = pos 0;
  allowed_port_range_ubound = pos 65535;
  tags = none;
  use_tls = false;
  ca = [];
}

abbrev pub tunnel_at : ℕ → GostServer
tunnel_at n = record { handle = n; addr = n ∷ [] }

abbrev pub fresh : Client
fresh = record {
  settings = some_settings;
  ports_manager = record { ports_in_use = []; allowed_ports = [] };
  gost_tunnels = over [] [];
  novnc_websocket_server = none;
  filebrowser_default_dir = [];
  filebrowser_server = none;
  stopped = false;
  closed = [];
  shut = [];
}

abbrev tunnelled : Client
tunnelled = record fresh {
  gost_tunnels = over (tunnel_at 1 ∷ (tunnel_at 2 ∷ (tunnel_at 3 ∷ []))) [];
  novnc_websocket_server = some (str ":6080");
  filebrowser_default_dir = str "/home";
}

pub fresh_made : new_client some_settings ≡ some fresh
unfolding new_client set_allowed_port_range new_ports_manager
fresh_made = refl

pub got_4000 : (reserve_port free_os fresh.ports_manager 0).port ≡ ok 4000
unfolding reserve_port reserve_loop get_allowed_and_free_port first_free get_free_port
got_4000 = refl

handle_filebrowser-leak_example :
    ((handle_filebrowser free_os some_gob (λ p h w. err (fault 1)) fresh idle 0).reply
      ≡ err (wrap (fault 1) (str "Failed to create filebrowser server")))
    × (has 4000
          (handle_filebrowser free_os some_gob
            (λ p h w. err (fault 1))
            fresh
            idle
            0).client.ports_manager.ports_in_use
        ≡ true)
handle_filebrowser-leak_example =
    handle_filebrowser-leak free_os some_gob fresh idle 0 4000 got_4000 (λ p h w. err (fault 1))
      (fault 1) refl

abbrev some_flags : ClientFlags
some_flags = record (default_client_flags (str "10.0.0.9")) {
  allowed_port_range_lbound = pos 8000;
  allowed_port_range_ubound = pos 8002;
}
