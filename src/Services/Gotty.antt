-- ===== src/Services/Gotty.antt =====
-- The web terminal of a client: CreateGottyWebTerminal of src/joebot/server/client.go and the Handle
-- of src/joebot/client/gotty_web_terminal_task.go.
use joebot.Prelude.{
  ℕ, ◌≡◌, ◌<◌, ◌^◌, refl, none, some, List, [], ◌++◌, arith, length, get_elem?, ==_refl, str,
  GoError, wrap, ok,
}
use joebot.Client.{GostServer}
use joebot.Client.Life.{client_handler_lem}
use joebot.Client.Process.{Running, Libraries, client_tasks}
use joebot.Client.Tasks.{no_port_tunnel, handle_gotty, gotty_on, start_gotty}
use joebot.Models.{PortTunnelInfo, GottyWebTerminalInfo}
use joebot.Ports.{Os, reserve_port}
use joebot.Server.{GostTunnel, Server}
use joebot.Server.Services.{Talk, Served, create_gotty_web_terminal, no_tunnel, attach}
use joebot.Server.Tunnel.{Turn, Tunnelled, find_tunnel, create_tunnel}
use joebot.Services.{Fresh, Provides, create_tunnel-Provides}
use joebot.Services.Reserving.{with_port, reserving-ok, handled-ok}
use joebot.Strings.{itoa}
use joebot.Task.{Writer, gotty_web_terminal_request, request, receive_object, send_object}

module _ (os : Os) (l : Libraries)
    (decoded : (i : PortTunnelInfo)
      → l.gob.decode_tunnel (l.gob.encode_tunnel i) no_port_tunnel ≡ ok i)
    (short : (i : PortTunnelInfo) → length (l.gob.encode_tunnel i) < 2 ^ 64) (s : Server) (a : ℕ)
    (turn : Turn) (t : ℕ) (g : GostTunnel) (p q : ℕ) (r : Running) (srv : ℕ) (ln : GostServer) where
  -- What the client answers.
  abbrev pub offered : GottyWebTerminalInfo
  offered = record { gotty_web_terminal_port = p; port_tunnel_on_host = no_port_tunnel }

  -- The tunnel to it.
  abbrev pub tunnel : PortTunnelInfo
  tunnel = record { gost_server_port = g.port; server_port = q; client_port = p }

  -- The client once its terminal runs.
  abbrev pub serving : Running
  serving = record r {
    client = with_port l.os r.client r.time;
    time = (reserve_port l.os r.client.ports_manager r.time).time;
  }

  handles :
      (v' : Writer)
      → (reserve_port l.os r.client.ports_manager r.time).port ≡ ok p
      → start_gotty l.os l.gob l.gotty r.client.settings p ≡ ok srv
      → send_object (l.gob.encode_gotty offered) r.stream ≡ ok v'
      → handle_gotty l.os l.gob l.gotty r.client r.stream r.time
        ≡ record { client = serving.client; reply = ok v'; time = serving.time }
  unfolding handle_gotty
  handles v' reserves starts sends =
      reserving-ok l.os l.gob r.client serving.client r.time p
        (λ e. wrap e (str "Unable To Find Free Port For Gotty Service"))
        (gotty_on l.os l.gob l.gotty r.stream) v' reserves (rw (starts, sends, gotty_on) refl)

  creates :
      (talk : Talk) (asked : Writer) (done : Tunnelled)
      → (s.heap a).info.gotty_web_terminal_info ≡ none
      → l.gob.decode_gotty
          (l.gob.encode_gotty offered)
          (record { gotty_web_terminal_port = 0; port_tunnel_on_host = no_tunnel })
        ≡ ok offered
      → request talk.asked.opened gotty_web_terminal_request [] ≡ ok asked
      → receive_object talk.asked.answers ≡ ok (l.gob.encode_gotty offered)
      → create_tunnel os l.gob s a talk.tunnel talk.turn p t ≡ some done
      → done.result ≡ ok tunnel
      → (served : Served GottyWebTerminalInfo) × (create_gotty_web_terminal os l.gob s a talk t
          ≡ some served)
        × (served.result ≡ ok (record offered { port_tunnel_on_host = tunnel }))
        × ((served.server.heap a).info.gotty_web_terminal_info
            ≡ some (record offered { port_tunnel_on_host = tunnel }))
  unfolding create_gotty_web_terminal attach
  creates talk asked done first decodes sent received made result =
      rw (first, sent, received, decodes, made, result, create_gotty_web_terminal, attach)
        (_, refl, refl, rw (==_refl a) refl)

  -- The web terminal of a client comes up. Where the server has none for the client, the client can
  -- reserve a port and set up Gotty there, the server has a tunnel service, a free port and no tunnel
  -- to that port, the client's process can listen at the service, the encodings are below 2 ^ 64
  -- bytes and undone by the decoding, and four empty streams take every write and deliver each in one
  -- read: the client has the manager after the reservation and the listener, and logs nothing; and
  -- CreateGottyWebTerminal returns the port with the tunnel to it, and records them for the client.
  pub create_gotty_web_terminal-handle_gotty :
      (s.heap a).info.gotty_web_terminal_info ≡ none
      → (reserve_port l.os r.client.ports_manager r.time).port ≡ ok p
      → start_gotty l.os l.gob l.gotty r.client.settings p ≡ ok srv
      → get_elem? s.gost_tunnels s.gost_tunnel_start_index ≡ some g
      → find_tunnel p (s.heap a).info.port_tunnels ≡ none
      → (reserve_port os s.ports_manager t).port ≡ ok q
      → l.gost.listen_remote (r.client.settings.server_ip ++ (str ":" ++ itoa g.port)) q ≡ ok ln
      → l.gob.decode_gotty
          (l.gob.encode_gotty offered)
          (record { gotty_web_terminal_port = 0; port_tunnel_on_host = no_tunnel })
        ≡ ok offered
      → length (l.gob.encode_gotty offered) < 2 ^ 64
      → (log : List GoError) (w x y : Writer) → Fresh w
      → Fresh r.stream
      → Fresh x
      → Fresh y
      → Provides l log gotty_web_terminal_request []
          (λ talk. create_gotty_web_terminal os l.gob s a talk t)
          turn
          w
          x
          y
          r
          serving
          ln
          tunnel
          (record offered { port_tunnel_on_host = tunnel })
          (λ s'.
            (s'.heap a).info.gotty_web_terminal_info
            ≡ some (record offered { port_tunnel_on_host = tunnel }))
  unfolding client_tasks
  create_gotty_web_terminal-handle_gotty first reserves starts next new given listens decodes small
        log w x y fresh_w fresh_v fresh_x fresh_y =
      create_tunnel-Provides os l decoded short s a turn p t g q next new given r serving ln listens
        log w x y fresh_w fresh_v fresh_x fresh_y gotty_web_terminal_request []
        (l.gob.encode_gotty offered) (omega arith) small
        (client_handler_lem (client_tasks l) gotty_web_terminal_request)
        (λ v' sends.
          handled-ok r _ serving.client v' serving.time (handles v' reserves starts sends))
        (λ talk. create_gotty_web_terminal os l.gob s a talk t)
        (record offered { port_tunnel_on_host = tunnel })
        (λ s'.
          (s'.heap a).info.gotty_web_terminal_info
          ≡ some (record offered { port_tunnel_on_host = tunnel }))
        (λ talk asked done sent received made result.
          creates talk asked done first decodes sent received made result)
