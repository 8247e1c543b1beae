-- ===== src/Server/Startup.antt =====
-- Start of src/joebot/server/server.go: the tunnel services, the listener, and the clients that
-- connect.
use joebot.Prelude.{
  ℕ, zero, suc, false, not, ◌&&◌, Option, none, some, [], ◌∷◌, ◌++◌, if◌then◌else◌, str_eq,
  GoString, str, GoError, wrap, Result, ok, err, ◌>>=◌, wrapped,
}
use joebot.Ports.{Os, reserve_port, release_port, new_ports_manager}
use joebot.Slices.{of_list}
use joebot.Server.{Server, no_listener, listening, update, new_client, add_client, server_stop}
use joebot.Server.Tunnel.{new_gost_tunnel}

-- NewServer, but for the database. No client stands at any address yet.
unfoldable pub new_server : Server
new_server = record {
  ports_manager = new_ports_manager;
  gost_tunnels = [];
  gost_tunnel_start_index = 0;
  clients = of_list [];
  heap = λ a. new_client [];
  cancelled = false;
  listener = no_listener;
}

pub record Started : Type 0 where
  pub server : Server
  pub error : Option GoError
  pub time : ℕ

-- The loop that sets up the tunnel services; `now` is the time of NewGostTunnel.
unfoldable pub start_tunnels : Os → ℕ → Server → ℕ → ℕ → Started
start_tunnels os now s t zero = record { server = s; error = none; time = t }
start_tunnels os now s t (suc rounds) =
    let r = reserve_port os s.ports_manager t in
    let s' = record s { ports_manager = r.manager } in
    elim r.port [
      | err e ↦ record {
        server = s';
        error = some (wrap e (str "Unable to find port for Gost Tunnel Server"));
        time = r.time;
      }
      | ok port ↦
          start_tunnels os now
            (record s' { gost_tunnels = s.gost_tunnels ++ (new_gost_tunnel port now ∷ []) }) r.time
            rounds
    ]

-- The certificate files, and what listening and loading them give.
pub record Listening : Type 0 where
  pub listened : Result (Unit {0})
  pub tls_cert : GoString
  pub tls_key : GoString
  pub loaded : Result (Unit {0})

pub data Channel : Type 0 where
  plain tls : Channel

-- What the listener speaks, or why there is none.
unfoldable pub listen_result : Listening → Result Channel
listen_result l = do
  raw ← wrapped l.listened (str "Unable to start server")
  if not (str_eq l.tls_cert []) && not (str_eq l.tls_key [])
      then (do pair ← wrapped l.loaded (str "invalid TLS cert/key"); ok tls)
      else ok plain

unfoldable pub server_start : Os → ℕ → Listening → Server → ℕ → Started × Option Channel
server_start os now l s t =
    let r = start_tunnels os now s t 30 in
    elim r.error [
      | some e ↦ (r, none)
      | none ↦ elim (listen_result l) [
        | err e ↦ (record r { error = some e }, none)
        | ok c ↦ (record r { server = record (r.server) { listener = listening } }, some c)
      ]
    ]

-- The goroutine of a tunnel service whose Serve returned an error: the server stops, and the
-- service's port is released.
unfoldable pub tunnel_service_failed : Server → ℕ → Option Server
tunnel_service_failed s port = elim (server_stop s) [
  | none ↦ none
  | some s' ↦ some (record s' { ports_manager = (release_port s'.ports_manager port).1 })
]

-- What the accept loop does with a connection: a new client at a fresh address. It stops once the
-- context is done.
unfoldable pub accept_client : Server → ℕ → GoString → Server
accept_client s a id =
    if s.cancelled then s else add_client (record s { heap = update s.heap a (new_client id) }) a
