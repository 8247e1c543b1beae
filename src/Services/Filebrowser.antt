-- ===== src/Services/Filebrowser.antt =====
-- The file browser of a client: CreateFilebrowser of src/joebot/server/client.go and the Handle of
-- src/joebot/client/filebrowser_task.go.
use joebot.Prelude.{
  ℕ, ◌≡◌, ◌<◌, ◌^◌, refl, none, some, List, [], ◌++◌, arith, length, get_elem?, ==_refl, GoString,
  str, GoError, ok,
}
use joebot.Client.{GostServer}
use joebot.Client.Life.{client_handler_lem}
use joebot.Client.Process.{Running, Libraries, client_tasks}
use joebot.Client.Tasks.{no_port_tunnel, handle_filebrowser, filebrowser_on}
use joebot.Models.{PortTunnelInfo, FilebrowserInfo}
use joebot.Ports.{Os, reserve_port}
use joebot.Server.{GostTunnel, Server}
use joebot.Server.Services.{Talk, Served, create_filebrowser, no_tunnel, attach}
use joebot.Server.Tunnel.{Turn, Tunnelled, find_tunnel, create_tunnel}
use joebot.Services.{Fresh, Provides, create_tunnel-Provides}
use joebot.Services.Reserving.{with_port, reserving-ok, handled-ok}
use joebot.Strings.{itoa}
use joebot.Task.{Writer, filebrowser_request, request, receive_object, send_object}

-- A FilebrowserInfo that is zero.
abbrev pub no_filebrowser : FilebrowserInfo
no_filebrowser = record {
  default_directory = [];
  filebrowser_port = 0;
  port_tunnel_on_host = no_tunnel;
}

module _ (os : Os) (l : Libraries)
    (decoded : (i : PortTunnelInfo)
      → l.gob.decode_tunnel (l.gob.encode_tunnel i) no_port_tunnel ≡ ok i)
    (short : (i : PortTunnelInfo) → length (l.gob.encode_tunnel i) < 2 ^ 64) (s : Server) (a : ℕ)
    (turn : Turn) (t : ℕ) (g : GostTunnel) (p q : ℕ) (r : Running) (addr : GoString)
    (ln : GostServer) where
  -- What the client answers.
  abbrev pub offered : FilebrowserInfo
  offered = record {
    default_directory = r.client.filebrowser_default_dir;
    filebrowser_port = p;
    port_tunnel_on_host = no_port_tunnel;
  }

  -- The tunnel to it.
  abbrev pub tunnel : PortTunnelInfo
  tunnel = record { gost_server_port = g.port; server_port = q; client_port = p }

  -- The client once its file browser runs.
  abbrev pub browsing : Running
  browsing = record r {
    client = record (with_port l.os r.client r.time) { filebrowser_server = some addr };
    time = (reserve_port l.os r.client.ports_manager r.time).time;
  }

  handles :
      (v' : Writer)
      → (reserve_port l.os r.client.ports_manager r.time).port ≡ ok p
      → l.start (itoa p) r.client.settings.server_ip r.client.settings.server_web_portal_port
        ≡ ok addr
      → send_object (l.gob.encode_filebrowser offered) r.stream ≡ ok v'
      → handle_filebrowser l.os l.gob l.start r.client r.stream r.time
        ≡ record { client = browsing.client; reply = ok v'; time = browsing.time }
  unfolding handle_filebrowser
  handles v' reserves starts sends =
      reserving-ok l.os l.gob r.client browsing.client r.time p (λ e. e)
        (filebrowser_on l.os l.gob l.start r.stream) v' reserves
        (rw (starts, sends, filebrowser_on) refl)

  creates :
      (talk : Talk) (asked : Writer) (done : Tunnelled)
      → (s.heap a).info.filebrowser_info ≡ none
      → l.gob.decode_filebrowser (l.gob.encode_filebrowser offered) no_filebrowser ≡ ok offered
      → request talk.asked.opened filebrowser_request [] ≡ ok asked
      → receive_object talk.asked.answers ≡ ok (l.gob.encode_filebrowser offered)
      → create_tunnel os l.gob s a talk.tunnel talk.turn p t ≡ some done
      → done.result ≡ ok tunnel
      → (served : Served FilebrowserInfo) × (create_filebrowser os l.gob s a talk t ≡ some served)
        × (served.result ≡ ok (record offered { port_tunnel_on_host = tunnel }))
        × ((served.server.heap a).info.filebrowser_info
            ≡ some (record offered { port_tunnel_on_host = tunnel }))
  unfolding create_filebrowser attach
  creates talk asked done first decodes sent received made result =
      rw (first, sent, received, decodes, made, result, create_filebrowser, attach)
        (_, refl, refl, rw (==_refl a) refl)

  -- The file browser of a client comes up. Where the server has none for the client, the client can
  -- reserve a port and start a file browser there, the server has a tunnel service, a free port and
  -- no tunnel to that port, the client's process can listen at the service, the encodings are below
  -- 2 ^ 64 bytes and undone by the decoding, and four empty streams take every write and deliver each
  -- in one read: the client has the file browser, the manager after the reservation and the listener, and logs
  -- nothing;
  -- and CreateFilebrowser returns the client's directory and port with the tunnel to it, and records
  -- them for the client.
  pub create_filebrowser-handle_filebrowser :
      (s.heap a).info.filebrowser_info ≡ none
      → (reserve_port l.os r.client.ports_manager r.time).port ≡ ok p
      → l.start (itoa p) r.client.settings.server_ip r.client.settings.server_web_portal_port
        ≡ ok addr
      → get_elem? s.gost_tunnels s.gost_tunnel_start_index ≡ some g
      → find_tunnel p (s.heap a).info.port_tunnels ≡ none
      → (reserve_port os s.ports_manager t).port ≡ ok q
      → l.gost.listen_remote (r.client.settings.server_ip ++ (str ":" ++ itoa g.port)) q ≡ ok ln
      → l.gob.decode_filebrowser (l.gob.encode_filebrowser offered) no_filebrowser ≡ ok offered
      → length (l.gob.encode_filebrowser offered) < 2 ^ 64
      → (log : List GoError) (w x y : Writer) → Fresh w
      → Fresh r.stream
      → Fresh x
      → Fresh y
      → Provides l log filebrowser_request []
          (λ talk. create_filebrowser os l.gob s a talk t)
          turn
          w
          x
          y
          r
          browsing
          ln
          tunnel
          (record offered { port_tunnel_on_host = tunnel })
          (λ s'.
            (s'.heap a).info.filebrowser_info
            ≡ some (record offered { port_tunnel_on_host = tunnel }))
  unfolding client_tasks
  create_filebrowser-handle_filebrowser first reserves starts next new given listens decodes small
        log w x y fresh_w fresh_v fresh_x fresh_y =
      create_tunnel-Provides os l decoded short s a turn p t g q next new given r browsing ln
        listens log w x y fresh_w fresh_v fresh_x fresh_y filebrowser_request []
        (l.gob.encode_filebrowser offered) (omega arith) small
        (client_handler_lem (client_tasks l) filebrowser_request)
        (λ v' sends.
          handled-ok r _ browsing.client v' browsing.time (handles v' reserves starts sends))
        (λ talk. create_filebrowser os l.gob s a talk t)
        (record offered { port_tunnel_on_host = tunnel })
        (λ s'.
          (s'.heap a).info.filebrowser_info
          ≡ some (record offered { port_tunnel_on_host = tunnel }))
        (λ talk asked done sent received made result.
          creates talk asked done first decodes sent received made result)
