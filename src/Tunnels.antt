-- ===== src/Tunnels.antt =====
-- A tunnel from CreateTunnel in src/joebot/server/client.go to the Handle of the client in
-- src/joebot/client/port_tunnel_task.go, and back.
use joebot.Prelude.{
  ℕ, ◌≡◌, ◌<◌, ◌^◌, refl, ap, ◌∙◌, none, some, List, [], ◌∷◌, ◌++◌, map, length, get_elem?, ==_refl,
  str, GoError, ok,
}
use joebot.Client.{GostServer, add_tunnel}
use joebot.Client.Life.{client_handler_lem}
use joebot.Client.Process.{Running, Libraries, client_tasks, client_handler}
use joebot.Client.Tasks.{handle_port_tunnel, no_port_tunnel}
use joebot.Handler.{serve_stream, log_result}
use joebot.Handler.Dispatch.{serve_stream-frame}
use joebot.Models.{PortTunnelInfo}
use joebot.Ports.{Os, reserve_port}
use joebot.Server.{GostTunnel, Server, update}
use joebot.Server.Outcome.{with_tunnel}
use joebot.Server.Tunnel.{
  Turn, Tunnelled, find_tunnel, instruct, create_locked, create_tunnel, get_tunnel_service,
}
use joebot.Strings.{itoa}
use joebot.Task.{
  Writer, bytes, port_tunnel_request, request, wait_task_complete_signal, confirm_task_complete,
}
use joebot.Task.Frames.{Writes, wait_task_complete_signal-confirm_task_complete}

module _ (os : Os) (l : Libraries)
    (decoded : (t : PortTunnelInfo)
      → l.gob.decode_tunnel (l.gob.encode_tunnel t) no_port_tunnel ≡ ok t)
    (short : (t : PortTunnelInfo) → length (l.gob.encode_tunnel t) < 2 ^ 64) (s : Server) (a : ℕ)
    (turn : Turn) (client_port t : ℕ) (g : GostTunnel) (p : ℕ)
    (next : get_elem? s.gost_tunnels s.gost_tunnel_start_index ≡ some g)
    (new : find_tunnel client_port (s.heap a).info.port_tunnels ≡ none)
    (given : (reserve_port os s.ports_manager t).port ≡ ok p) (r : Running) (ln : GostServer)
    (listens : l.gost.listen_remote (r.client.settings.server_ip ++ (str ":" ++ itoa g.port)) p
      ≡ ok ln) where
  abbrev pub tunnel : PortTunnelInfo
  tunnel = record { gost_server_port = g.port; server_port = p; client_port = client_port }

  port_tunnel_task-confirms :
      (v' : Writer)
      → confirm_task_complete r.stream ≡ ok v'
      → client_tasks l port_tunnel_request (l.gob.encode_tunnel tunnel) [] r
        ≡ (record r { client = add_tunnel ln r.client; stream = v' }, none)
  unfolding client_tasks handle_port_tunnel
  port_tunnel_task-confirms v' confirmed =
      rw (decoded tunnel, listens, confirmed, client_tasks, handle_port_tunnel) refl

  -- The server's side, once the client has confirmed.
  instruct-confirmed :
      (m : Server) (w w' v' : Writer)
      → request (ok w) port_tunnel_request (l.gob.encode_tunnel tunnel) ≡ ok w'
      → wait_task_complete_signal (map bytes v'.written) ≡ ok tt
      → instruct l.gob m a (record { opened = ok w; answers = map bytes v'.written }) tunnel
        ≡ (record m { heap = update m.heap a (with_tunnel (m.heap a) tunnel) }, ok tunnel)
  unfolding instruct
  instruct-confirmed m w w' v' sent done = rw (sent, done, instruct) refl

  create_tunnel-confirmed :
      (w w' v' : Writer)
      → request (ok w) port_tunnel_request (l.gob.encode_tunnel tunnel) ≡ ok w'
      → wait_task_complete_signal (map bytes v'.written) ≡ ok tt
      → (r : Tunnelled) × (create_tunnel os l.gob s a
            (record { opened = ok w; answers = map bytes v'.written })
            turn
            client_port
            t
          ≡ some r)
        × (r.result ≡ ok tunnel)
        × ((r.server.heap a).info.port_tunnels ≡ (s.heap a).info.port_tunnels ++ (tunnel ∷ []))
  unfolding create_tunnel get_tunnel_service create_locked
  create_tunnel-confirmed w w' v' sent done =
      rw (next, create_tunnel)
        (
          _,
          refl,
          rw (new, given, instruct-confirmed _ w w' v' sent done, create_locked) refl,
          rw (new, given, instruct-confirmed _ w w' v' sent done, create_locked)
              (rw (==_refl a) refl),
        )

  -- A request for a tunnel reaches the client and comes back. Where the encoding of tunnels is
  -- undone by the decoding and below 2 ^ 64 bytes, a tunnel service is next, the client has no
  -- tunnel for the port, a port is free, the client's process can listen at the service, and two
  -- empty streams take every write and deliver each in one read: the handler that the client's Start
  -- sets up adds the listener and logs nothing, CreateTunnel returns the tunnel without an error,
  -- and it is the last of the client's tunnels on the server.
  pub create_tunnel-port_tunnel_task :
      (log : List GoError) (w : Writer)
      → Writes w
      → w.written ≡ []
      → Writes r.stream
      → r.stream.written ≡ []
      → (w' : Writer) × (v' : Writer) × (done : Tunnelled) × (request
            (ok w)
            port_tunnel_request
            (l.gob.encode_tunnel tunnel)
          ≡ ok w')
        × (serve_stream
              (client_handler (client_tasks l))
              (map bytes w'.written)
              (record { state = r; log = log })
            ≡ record {
              state = record r { client = add_tunnel ln r.client; stream = v' };
              log = log;
            })
        × (create_tunnel os l.gob s a
              (record { opened = ok w; answers = map bytes v'.written })
              turn
              client_port
              t
            ≡ some done)
        × (done.result ≡ ok tunnel)
        × ((done.server.heap a).info.port_tunnels ≡ (s.heap a).info.port_tunnels ++ (tunnel ∷ []))
  create_tunnel-port_tunnel_task log w writes fresh answers empty =
      let (w', sent, served) =
        serve_stream-frame (client_handler (client_tasks l)) port_tunnel_request
          (client_tasks l port_tunnel_request) w (l.gob.encode_tunnel tunnel)
          (record { state = r; log = log }) writes fresh (short tunnel)
          (client_handler_lem (client_tasks l) port_tunnel_request) in
      let (v', confirmed, done) =
        wait_task_complete_signal-confirm_task_complete r.stream answers empty in
      let (x, returns, result, listed) = create_tunnel-confirmed w w' v' sent done in
      (
        w',
        v',
        x,
        sent,
        served ∙ ap (λ x. log_result log x) (port_tunnel_task-confirms v' confirmed),
        returns,
        result,
        listed,
      )
