-- ===== src/Services/Ssh.antt =====
-- The SSH tunnel of a client: CreateSSHTunnel of src/joebot/server/client.go and the Handle of
-- src/joebot/client/ssh_tunnel_task.go.
use joebot.Prelude.{
  ℕ, suc, ◌≡◌, ◌<◌, ◌^◌, refl, true, none, some, List, [], ◌++◌, arith, length, get_elem?, ==_refl,
  str, GoError, ok,
}
use joebot.Client.{GostServer}
use joebot.Client.Life.{client_handler_lem}
use joebot.Client.Process.{Running, Libraries, client_tasks}
use joebot.Client.Tasks.{no_port_tunnel, handle_ssh_tunnel}
use joebot.Models.{PortTunnelInfo}
use joebot.Ports.{Os, reserve_port, is_port_occupied}
use joebot.Server.{GostTunnel, Server}
use joebot.Server.Services.{Talk, Served, create_ssh_tunnel, ask, attach}
use joebot.Server.Tunnel.{Turn, Tunnelled, find_tunnel, create_tunnel}
use joebot.Services.{Fresh, Provides, create_tunnel-Provides}
use joebot.Services.Reserving.{handled-ok}
use joebot.Strings.{itoa}
use joebot.Task.{Writer, ssh_tunnel_request, request, receive_object, send_object}

module _ (os : Os) (l : Libraries)
    (decoded : (i : PortTunnelInfo)
      → l.gob.decode_tunnel (l.gob.encode_tunnel i) no_port_tunnel ≡ ok i)
    (short : (i : PortTunnelInfo) → length (l.gob.encode_tunnel i) < 2 ^ 64) (s : Server) (a : ℕ)
    (turn : Turn) (t : ℕ) (g : GostTunnel) (q : ℕ) (r : Running) (ln : GostServer) where
  -- What the client answers.
  abbrev pub offered : PortTunnelInfo
  offered = record no_port_tunnel { client_port = 22 }

  -- The tunnel to it.
  abbrev pub tunnel : PortTunnelInfo
  tunnel = record { gost_server_port = g.port; server_port = q; client_port = 22 }

  handles :
      (v' : Writer)
      → is_port_occupied l.os r.time 22 ≡ true
      → send_object (l.gob.encode_tunnel offered) r.stream ≡ ok v'
      → handle_ssh_tunnel l.os l.gob r.client r.stream r.time
        ≡ record { client = r.client; reply = ok v'; time = suc r.time }
  unfolding handle_ssh_tunnel
  handles v' listening sends = rw (listening, sends, handle_ssh_tunnel) refl

  creates :
      (talk : Talk) (asked : Writer) (done : Tunnelled)
      → (s.heap a).info.ssh_tunnel ≡ none
      → request talk.asked.opened ssh_tunnel_request [] ≡ ok asked
      → receive_object talk.asked.answers ≡ ok (l.gob.encode_tunnel offered)
      → create_tunnel os l.gob s a talk.tunnel talk.turn 22 t ≡ some done
      → done.result ≡ ok tunnel
      → (served : Served PortTunnelInfo) × (create_ssh_tunnel os l.gob s a talk t ≡ some served)
        × (served.result ≡ ok offered)
        × ((served.server.heap a).info.ssh_tunnel ≡ some tunnel)
  unfolding create_ssh_tunnel ask attach
  creates talk asked done first sent received made result =
      rw (first, sent, received, decoded offered, made, result, create_ssh_tunnel, ask, attach)
        (_, refl, refl, rw (==_refl a) refl)

  -- The SSH tunnel of a client comes up. Where the server has none for the client, port 22 of the
  -- client is taken, the server has a tunnel service, a free port and no tunnel to port 22, the
  -- client's process can listen at the service, the encoding of tunnels is below 2 ^ 64 bytes and
  -- undone by the decoding, and four empty streams take every write and deliver each in one read: the
  -- client has the listener, and logs nothing; CreateSSHTunnel records the tunnel for the client, and
  -- returns the client's answer, which names port 22 and leaves the server's ports 0.
  pub create_ssh_tunnel-handle_ssh_tunnel :
      (s.heap a).info.ssh_tunnel ≡ none
      → is_port_occupied l.os r.time 22 ≡ true
      → get_elem? s.gost_tunnels s.gost_tunnel_start_index ≡ some g
      → find_tunnel 22 (s.heap a).info.port_tunnels ≡ none
      → (reserve_port os s.ports_manager t).port ≡ ok q
      → l.gost.listen_remote (r.client.settings.server_ip ++ (str ":" ++ itoa g.port)) q ≡ ok ln
      → (log : List GoError) (w x y : Writer) → Fresh w
      → Fresh r.stream
      → Fresh x
      → Fresh y
      → Provides l log ssh_tunnel_request []
          (λ talk. create_ssh_tunnel os l.gob s a talk t)
          turn
          w
          x
          y
          r
          (record r { time = suc r.time })
          ln
          tunnel
          offered
          (λ s'. (s'.heap a).info.ssh_tunnel ≡ some tunnel)
  unfolding client_tasks
  create_ssh_tunnel-handle_ssh_tunnel first listening next new given listens log w x y fresh_w
        fresh_v fresh_x fresh_y =
      create_tunnel-Provides os l decoded short s a turn 22 t g q next new given r
        (record r { time = suc r.time }) ln listens log w x y fresh_w fresh_v fresh_x fresh_y
        ssh_tunnel_request [] (l.gob.encode_tunnel offered) (omega arith) (short offered)
        (client_handler_lem (client_tasks l) ssh_tunnel_request)
        (λ v' sends. handled-ok r _ r.client v' (suc r.time) (handles v' listening sends))
        (λ talk. create_ssh_tunnel os l.gob s a talk t) offered
        (λ s'. (s'.heap a).info.ssh_tunnel ≡ some tunnel)
        (λ talk asked done sent received made result.
          creates talk asked done first sent received made result)
