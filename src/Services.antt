-- ===== src/Services.antt =====
-- A service from its Create function in src/joebot/server/client.go to the Handle functions of
-- src/joebot/client, and back: the request for the service with the client's object, and then the
-- request for the tunnel to it.
pub mod Reserving
pub mod Filebrowser
pub mod Gotty
pub mod Novnc
pub mod Ssh
use joebot.Prelude.{
  ℕ, ◌≡◌, ◌<◌, ◌^◌, ap, ◌∙◌, Option, none, some, List, [], ◌∷◌, ◌++◌, map, length, get_elem?, str,
  GoError, Result, ok,
}
use joebot.Client.{Client, GostServer, add_tunnel}
use joebot.Client.Process.{Running, Libraries, client_tasks, client_handler}
use joebot.Client.Tasks.{no_port_tunnel}
use joebot.Handler.{find_handler, serve_stream, log_result}
use joebot.Handler.Dispatch.{serve_stream-frame}
use joebot.Models.{PortTunnelInfo}
use joebot.Ports.{Os, reserve_port}
use joebot.Server.{GostTunnel, Server}
use joebot.Server.Services.{Served, Talk}
use joebot.Server.Tunnel.{Turn, Tunnelled, find_tunnel, create_tunnel}
use joebot.Strings.{itoa}
use joebot.Task.{
  TaskType, task_code, Delivery, Writer, bytes, port_tunnel_request, request, receive_object,
  send_object,
}
use joebot.Task.Frames.{Writes, receive_object-send_object}
use joebot.Tunnels.{create_tunnel-port_tunnel_task}

-- The client's process takes a stream, changes, and logs nothing.
abbrev pub Takes : Libraries → List GoError → Running → List Delivery → Running → Type 0
Takes l log r stream r' =
    serve_stream (client_handler (client_tasks l)) stream (record { state = r; log = log })
    ≡ record { state = r'; log = log }

-- A stream that is empty and takes every write.
pub record Fresh (w : Writer) : Type 0 where
  pub writes : Writes w
  pub empty : w.written ≡ []

-- A request that the client answers with an object.
pub receive_object-client_tasks :
    (l : Libraries) (log : List GoError) (task : TaskType) (payload object : List ℕ)
    (r r' : Running) (w : Writer)
    → Fresh w
    → Fresh r.stream
    → length payload < 2 ^ 64
    → length object < 2 ^ 64
    → find_handler (task_code task) (client_handler (client_tasks l)).handlers
      ≡ some (client_tasks l task)
    → ((v' : Writer)
        → send_object object r.stream ≡ ok v'
        → client_tasks l task payload [] r ≡ (record r' { stream = v' }, none))
    → (w' : Writer) × (v' : Writer) × (request (ok w) task payload ≡ ok w')
      × Takes l log r (map bytes w'.written) (record r' { stream = v' })
      × (receive_object (map bytes v'.written) ≡ ok object)
receive_object-client_tasks l log task payload object r r' w asks answers small fits found handles =
    let (w', sent, served) =
      serve_stream-frame (client_handler (client_tasks l)) task (client_tasks l task) w payload
        (record { state = r; log = log }) asks.writes asks.empty small found in
    let (v', answered, received) =
      receive_object-send_object object r.stream answers.writes answers.empty fits in
    (w', v', sent, served ∙ ap (λ x. log_result log x) (handles v' answered), received)

-- A service that is asked for on the stream `w` and answered on that of `r`, and whose tunnel is
-- asked for on `x` and confirmed on `y`: what goes over the four streams, what becomes of the
-- client, and what the Create function returns, and records on the server.
pub record Provides {A : Type 0} (l : Libraries) (log : List GoError) (task : TaskType)
    (payload : List ℕ) (create : Talk → Option (Served A)) (turn : Turn) (w x y : Writer)
    (r r' : Running) (ln : GostServer) (tunnel : PortTunnelInfo) (info : A)
    (recorded : Server → Type 0) : Type 0 where
  pub asked : Writer
  pub answered : Writer
  pub instructed : Writer
  pub confirmed : Writer
  pub served : Served A
  pub asks : request (ok w) task payload ≡ ok asked
  pub answers : Takes l log r (map bytes asked.written) (record r' { stream = answered })
  pub instructs : request (ok x) port_tunnel_request (l.gob.encode_tunnel tunnel) ≡ ok instructed
  pub confirms :
      Takes l log
        (record r' { stream = y })
        (map bytes instructed.written)
        (record r' { client = add_tunnel ln r'.client; stream = confirmed })
  pub creates :
      create (record {
        asked = record { opened = ok w; answers = map bytes answered.written };
        tunnel = record { opened = ok x; answers = map bytes confirmed.written };
        turn = turn;
      })
      ≡ some served
  pub returns : served.result ≡ ok info
  pub records : recorded served.server

-- A service whose request the client answers with the object, and whose Create function returns
-- once the tunnel is made, is provided.
pub create_tunnel-Provides :
    {A : Type 0} (os : Os) (l : Libraries)
    → ((i : PortTunnelInfo) → l.gob.decode_tunnel (l.gob.encode_tunnel i) no_port_tunnel ≡ ok i)
    → ((i : PortTunnelInfo) → length (l.gob.encode_tunnel i) < 2 ^ 64)
    → (s : Server) (a : ℕ) (turn : Turn) (port t : ℕ) (g : GostTunnel) (q : ℕ)
    → get_elem? s.gost_tunnels s.gost_tunnel_start_index ≡ some g
    → find_tunnel port (s.heap a).info.port_tunnels ≡ none
    → (reserve_port os s.ports_manager t).port ≡ ok q
    → (r r' : Running) (ln : GostServer)
    → l.gost.listen_remote (r'.client.settings.server_ip ++ (str ":" ++ itoa g.port)) q ≡ ok ln
    → (log : List GoError) (w x y : Writer) → Fresh w
    → Fresh r.stream
    → Fresh x
    → Fresh y
    → (task : TaskType) (payload object : List ℕ) → length payload < 2 ^ 64
    → length object < 2 ^ 64
    → find_handler (task_code task) (client_handler (client_tasks l)).handlers
      ≡ some (client_tasks l task)
    → ((v' : Writer)
        → send_object object r.stream ≡ ok v'
        → client_tasks l task payload [] r ≡ (record r' { stream = v' }, none))
    → (create : Talk → Option (Served A)) (info : A) (recorded : Server → Type 0)
    → ((talk : Talk) (asked : Writer) (done : Tunnelled)
        → request talk.asked.opened task payload ≡ ok asked
        → receive_object talk.asked.answers ≡ ok object
        → create_tunnel os l.gob s a talk.tunnel talk.turn port t ≡ some done
        → done.result
          ≡ ok (record { gost_server_port = g.port; server_port = q; client_port = port })
        → (served : Served A) × (create talk ≡ some served)
          × (served.result ≡ ok info)
          × recorded served.server)
    → Provides l log task payload create turn w x y r r' ln
        (record { gost_server_port = g.port; server_port = q; client_port = port })
        info
        recorded
create_tunnel-Provides os l decoded short s a turn port t g q next new given r r' ln listens log w x
      y fresh_w fresh_v fresh_x fresh_y task payload object small fits found handles create info
      recorded creates =
    let (asked, answered, sent, taken, received) =
      receive_object-client_tasks l log task payload object r r' w fresh_w fresh_v small fits found
        handles in
    let (instructed, confirmed, done, told, made, tunnelled, result, listed) =
      create_tunnel-port_tunnel_task os l decoded short s a turn port t g q next new given
        (record r' { stream = y }) ln listens log x fresh_x.writes fresh_x.empty fresh_y.writes
        fresh_y.empty in
    let (served, created, returned, kept) = creates _ asked done sent received tunnelled result in
    record {
      asked = asked;
      answered = answered;
      instructed = instructed;
      confirmed = confirmed;
      served = served;
      asks = sent;
      answers = taken;
      instructs = told;
      confirms = made;
      creates = created;
      returns = returned;
      records = kept;
    }
