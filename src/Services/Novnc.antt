-- ===== src/Services/Novnc.antt =====
-- The VNC websocket of a client: CreateNovncWebsocketTunnel of src/joebot/server/client.go and the
-- Handle of src/joebot/client/novnc_task.go.
use joebot.Prelude.{
  ℕ, suc, ◌≡◌, ◌<◌, ◌^◌, refl, true, none, some, List, ◌++◌, length, get_elem?, ==_refl, str,
  GoError, ok,
}
use joebot.Client.{GostServer}
use joebot.Client.Life.{client_handler_lem}
use joebot.Client.Process.{Running, Libraries, client_tasks}
use joebot.Client.Tasks.{no_port_tunnel, handle_novnc, novnc_on, serve_vnc_via_websocket}
use joebot.Models.{PortTunnelInfo, NovncWebsocketInfo}
use joebot.Ports.{Os, reserve_port, is_port_occupied}
use joebot.Server.{GostTunnel, Server}
use joebot.Server.Services.{Talk, Served, create_novnc_websocket_tunnel, no_tunnel, attach}
use joebot.Server.Tunnel.{Turn, Tunnelled, find_tunnel, create_tunnel}
use joebot.Services.{Fresh, Provides, create_tunnel-Provides}
use joebot.Services.Reserving.{with_port, reserving-ok, handled-ok}
use joebot.Strings.{itoa}
use joebot.Task.{Writer, novnc_request, request, receive_object, send_object}

-- A NovncWebsocketInfo with nothing but the port of the VNC server.
abbrev pub asking : ℕ → NovncWebsocketInfo
asking vnc = record {
  vnc_server_port = vnc;
  novnc_websocket_port = 0;
  port_tunnel_on_host = no_tunnel;
}

module _ (os : Os) (l : Libraries)
    (decoded : (i : PortTunnelInfo)
      → l.gob.decode_tunnel (l.gob.encode_tunnel i) no_port_tunnel ≡ ok i)
    (short : (i : PortTunnelInfo) → length (l.gob.encode_tunnel i) < 2 ^ 64) (s : Server) (a : ℕ)
    (turn : Turn) (vnc t : ℕ) (g : GostTunnel) (p q : ℕ) (r : Running) (ln : GostServer) where
  -- What the client answers.
  abbrev pub offered : NovncWebsocketInfo
  offered = record (asking vnc) { novnc_websocket_port = p }

  -- The tunnel to it.
  abbrev pub tunnel : PortTunnelInfo
  tunnel = record { gost_server_port = g.port; server_port = q; client_port = p }

  -- The client once its websocket is served.
  abbrev pub serving : Running
  serving = record r {
    client = record (with_port l.os r.client (suc r.time)) {
      novnc_websocket_server = some (str ":" ++ itoa p);
    };
    time = (reserve_port l.os r.client.ports_manager (suc r.time)).time;
  }

  handles :
      (v' : Writer)
      → l.gob.decode_novnc (l.gob.encode_novnc (asking vnc)) (asking 0) ≡ ok (asking vnc)
      → is_port_occupied l.os r.time vnc ≡ true
      → (reserve_port l.os r.client.ports_manager (suc r.time)).port ≡ ok p
      → send_object (l.gob.encode_novnc offered) r.stream ≡ ok v'
      → handle_novnc l.os l.gob r.client (l.gob.encode_novnc (asking vnc)) r.stream r.time
        ≡ record { client = serving.client; reply = ok v'; time = serving.time }
  unfolding handle_novnc serve_vnc_via_websocket
  handles v' decodes listening reserves sends =
      rw (decodes, listening, handle_novnc)
        (reserving-ok l.os l.gob r.client serving.client (suc r.time) p (λ e. e)
          (novnc_on l.os l.gob (asking vnc) r.stream) v' reserves (rw (sends, novnc_on) refl))

  creates :
      (talk : Talk) (asked : Writer) (done : Tunnelled)
      → (s.heap a).info.novnc_websocket_info ≡ none
      → l.gob.decode_novnc (l.gob.encode_novnc offered) (asking vnc) ≡ ok offered
      → request talk.asked.opened novnc_request (l.gob.encode_novnc (asking vnc)) ≡ ok asked
      → receive_object talk.asked.answers ≡ ok (l.gob.encode_novnc offered)
      → create_tunnel os l.gob s a talk.tunnel talk.turn p t ≡ some done
      → done.result ≡ ok tunnel
      → (served : Served NovncWebsocketInfo) × (create_novnc_websocket_tunnel os l.gob s a vnc talk
            t
          ≡ some served)
        × (served.result ≡ ok (record offered { port_tunnel_on_host = tunnel }))
        × ((served.server.heap a).info.novnc_websocket_info
            ≡ some (record offered { port_tunnel_on_host = tunnel }))
  unfolding create_novnc_websocket_tunnel attach
  creates talk asked done first decodes sent received made result =
      rw (first, sent, received, decodes, made, result, create_novnc_websocket_tunnel, attach)
        (_, refl, refl, rw (==_refl a) refl)

  -- The VNC websocket of a client comes up. Where the server has none for the client, the VNC port of
  -- the client is taken, the client can reserve a port, the server has a tunnel service, a free port
  -- and no tunnel to the client's port, the client's process can listen at the service, the encodings
  -- are below 2 ^ 64 bytes and undone by the decoding, and four empty streams take every write and
  -- deliver each in one read: the client has the websocket server, the manager after the
  -- reservation and the listener, and logs nothing; and CreateNovncWebsocketTunnel returns both ports with the tunnel, and records
  -- them for the client.
  pub create_novnc_websocket_tunnel-handle_novnc :
      (s.heap a).info.novnc_websocket_info ≡ none
      → is_port_occupied l.os r.time vnc ≡ true
      → (reserve_port l.os r.client.ports_manager (suc r.time)).port ≡ ok p
      → get_elem? s.gost_tunnels s.gost_tunnel_start_index ≡ some g
      → find_tunnel p (s.heap a).info.port_tunnels ≡ none
      → (reserve_port os s.ports_manager t).port ≡ ok q
      → l.gost.listen_remote (r.client.settings.server_ip ++ (str ":" ++ itoa g.port)) q ≡ ok ln
      → l.gob.decode_novnc (l.gob.encode_novnc (asking vnc)) (asking 0) ≡ ok (asking vnc)
      → l.gob.decode_novnc (l.gob.encode_novnc offered) (asking vnc) ≡ ok offered
      → length (l.gob.encode_novnc (asking vnc)) < 2 ^ 64
      → length (l.gob.encode_novnc offered) < 2 ^ 64
      → (log : List GoError) (w x y : Writer) → Fresh w
      → Fresh r.stream
      → Fresh x
      → Fresh y
      → Provides l log novnc_request
          (l.gob.encode_novnc (asking vnc))
          (λ talk. create_novnc_websocket_tunnel os l.gob s a vnc talk t)
          turn
          w
          x
          y
          r
          serving
          ln
          tunnel
          (record offered { port_tunnel_on_host = tunnel })
          (λ s'.
            (s'.heap a).info.novnc_websocket_info
            ≡ some (record offered { port_tunnel_on_host = tunnel }))
  unfolding client_tasks
  create_novnc_websocket_tunnel-handle_novnc first listening reserves next new given listens asks
        decodes small fits log w x y fresh_w fresh_v fresh_x fresh_y =
      create_tunnel-Provides os l decoded short s a turn p t g q next new given r serving ln listens
        log w x y fresh_w fresh_v fresh_x fresh_y novnc_request (l.gob.encode_novnc (asking vnc))
        (l.gob.encode_novnc offered) small fits (client_handler_lem (client_tasks l) novnc_request)
        (λ v' sends.
          handled-ok r _ serving.client v' serving.time (handles v' asks listening reserves sends))
        (λ talk. create_novnc_websocket_tunnel os l.gob s a vnc talk t)
        (record offered { port_tunnel_on_host = tunnel })
        (λ s'.
          (s'.heap a).info.novnc_websocket_info
          ≡ some (record offered { port_tunnel_on_host = tunnel }))
        (λ talk asked done sent received made result.
          creates talk asked done first decodes sent received made result)
