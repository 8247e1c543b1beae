-- ===== src/Server/Tunnel.antt =====
-- CreateTunnel of src/joebot/server/client.go, the choice of a tunnel service in
-- src/joebot/server/server.go, and the lock of src/joebot/server/gost-tunnel.go.
use joebot.Prelude.{
  ◌≡◌, refl, true, false, Bool, Bool-cases, inl, inr, ℕ, zero, suc, ◌-◌, ◌*◌, ◌/◌, Option, none,
  some, List, [], ◌∷◌, ◌++◌, ltb, leb, ◌==◌, if◌then◌else◌, length, get_elem?, str, GoError,
  message, wrap, Result, ok, err,
}
use joebot.Models.{
  PortTunnelInfo, NovncWebsocketInfo, GottyWebTerminalInfo, FilebrowserInfo, ClientInfo,
}
use joebot.Ports.{Os, reserve_port, release_port}
use joebot.Server.{GostTunnel, Server, is_set, update}
use joebot.Task.{port_tunnel_request, Delivery, Writer, request, wait_task_complete_signal}

-- encoding/gob on the structs that are sent. Decoding into a struct keeps the fields that the bytes
-- leave out, so a decoder is given the struct that it fills.
pub record Gob : Type 0 where
  pub encode_tunnel : PortTunnelInfo → List ℕ
  pub decode_tunnel : List ℕ → PortTunnelInfo → Result PortTunnelInfo
  pub encode_novnc : NovncWebsocketInfo → List ℕ
  pub decode_novnc : List ℕ → NovncWebsocketInfo → Result NovncWebsocketInfo
  pub encode_gotty : GottyWebTerminalInfo → List ℕ
  pub decode_gotty : List ℕ → GottyWebTerminalInfo → Result GottyWebTerminalInfo
  pub encode_filebrowser : FilebrowserInfo → List ℕ
  pub decode_filebrowser : List ℕ → FilebrowserInfo → Result FilebrowserInfo
  pub encode_client : ClientInfo → List ℕ
  pub decode_client : List ℕ → ClientInfo → Result ClientInfo

-- What the yamux session does with one request: the stream that it opens, and what arrives on it.
pub record Exchange : Type 0 where
  pub opened : Result Writer
  pub answers : List Delivery

-- The times at which the lock is taken and given back, in nanoseconds.
pub record Turn : Type 0 where
  pub taken : ℕ
  pub returned : ℕ

unfoldable pub new_gost_tunnel : ℕ → ℕ → GostTunnel
new_gost_tunnel port now = record { port = port; last_serve_time = now }

abbrev pub second : ℕ
second = 1000000000

-- How long Lock sleeps: `time.Duration(10-diff)` drops the fraction of a second.
unfoldable pub lock_delay : GostTunnel → ℕ → ℕ
lock_delay g now =
    let diff = now - g.last_serve_time in
    if ltb diff (10 * second) then (10 * second - diff) / second * second else 0

unfoldable pub unlock : GostTunnel → ℕ → GostTunnel
unlock g now = record g { last_serve_time = now }

-- GetTunnelService: the index of the service, and the server with the next index. An empty list is
-- a panic.
unfoldable pub get_tunnel_service : Server → Option ((ℕ × GostTunnel) × Server)
get_tunnel_service s = elim (get_elem? s.gost_tunnels s.gost_tunnel_start_index) [
  | none ↦ none
  | some g ↦ some (
    (s.gost_tunnel_start_index, g),
    record s {
      gost_tunnel_start_index =
          if leb (length s.gost_tunnels) (suc s.gost_tunnel_start_index)
          then 0
          else suc s.gost_tunnel_start_index;
    },
  )
]

abbrev pub set_nth : List GostTunnel → ℕ → GostTunnel → List GostTunnel
set_nth [] i g = []
set_nth (x ∷ xs) zero g = g ∷ xs
set_nth (x ∷ xs) (suc i) g = x ∷ set_nth xs i g

unfoldable pub find_tunnel : ℕ → List PortTunnelInfo → Option PortTunnelInfo
find_tunnel client_port [] = none
find_tunnel client_port (t ∷ ts) =
    if t.client_port == client_port then some t else find_tunnel client_port ts

pub record Tunnelled : Type 0 where
  pub server : Server
  pub result : Result PortTunnelInfo
  pub time : ℕ

pub tunnel_refused : GoError
tunnel_refused = message (str "Client Failed To Create Tunnel | Client ID: ")

abbrev pub instruct_failed : GoError → GoError
instruct_failed e = wrap e (str "Failed To Instruct Client To Do Port Forwarding")

-- The request to the client once a port is reserved, and the release of the port if it fails.
unfoldable pub instruct :
    Gob → Server → ℕ → Exchange → PortTunnelInfo → Server × Result PortTunnelInfo
instruct gob s a link tunnel =
    let released = record s {
      ports_manager = (release_port s.ports_manager tunnel.server_port).1;
    } in
    elim (request link.opened port_tunnel_request (gob.encode_tunnel tunnel)) [
      | err e ↦ (released, err (instruct_failed e))
      | ok sent ↦ elim (wait_task_complete_signal link.answers) [
        | err e ↦ (released, err tunnel_refused)
        | ok done ↦ (
          record s {
            heap = update s.heap a (record (s.heap a) {
              info = record ((s.heap a).info) {
                port_tunnels = (s.heap a).info.port_tunnels ++ (tunnel ∷ []);
              };
            });
          },
          ok tunnel,
        )
      ]
    ]

-- CreateTunnel between the lock and the unlock of the tunnel service.
unfoldable pub create_locked : Os → Gob → Server → ℕ → Exchange → ℕ → ℕ → ℕ → Tunnelled
unfolding instruct
create_locked os gob s a link gost_port client_port t =
    elim (find_tunnel client_port (s.heap a).info.port_tunnels) [
      | some tunnel ↦ record { server = s; result = ok tunnel; time = t }
      | none ↦
          let r = reserve_port os s.ports_manager t in
          let s' = record s { ports_manager = r.manager } in
          elim r.port [
            | err e ↦ record { server = s'; result = err e; time = r.time }
            | ok port ↦
                let (s'', result) = instruct gob s' a link (record {
                  gost_server_port = gost_port;
                  server_port = port;
                  client_port = client_port;
                }) in
                record { server = s''; result = result; time = r.time }
          ]
    ]

-- CreateTunnel of the client at address `a`, which has a session; `none` is a panic.
unfoldable pub create_tunnel : Os → Gob → Server → ℕ → Exchange → Turn → ℕ → ℕ → Option Tunnelled
create_tunnel os gob s a link turn client_port t = elim (get_tunnel_service s) [
  | none ↦ none
  | some ((i, g), s') ↦
      let r = create_locked os gob s' a link g.port client_port t in
      some (record r {
        server = record (r.server) {
          gost_tunnels = set_nth r.server.gost_tunnels i (unlock g turn.returned);
        };
      })
]

-- CreateTunnel comes to the request to a client that has no session yet.
unfoldable pub asks_nil : Os → Server → ℕ → ℕ → ℕ → Bool
asks_nil os s a client_port t =
    if is_set (s.heap a).session
    then false
    else elim (find_tunnel client_port (s.heap a).info.port_tunnels) [
      | some tunnel ↦ false
      | none ↦ elim (reserve_port os s.ports_manager t).port [ err e ↦ false | ok port ↦ true ]
    ]

-- CreateTunnel of any client: `session.Open()` on a nil session is a panic.
unfoldable pub call_create_tunnel :
    Os → Gob → Server → ℕ → Exchange → Turn → ℕ → ℕ → Option Tunnelled
unfolding asks_nil
call_create_tunnel os gob s a link turn client_port t =
    if asks_nil os s a client_port t then none else create_tunnel os gob s a link turn client_port t

pub call_create_tunnel-some :
    (os : Os) (gob : Gob) (s : Server) (a : ℕ) (link : Exchange) (turn : Turn) (client_port t : ℕ)
    (r : Tunnelled)
    → call_create_tunnel os gob s a link turn client_port t ≡ some r
    → create_tunnel os gob s a link turn client_port t ≡ some r
unfolding call_create_tunnel
call_create_tunnel-some os gob s a link turn client_port t r e =
    elim (Bool-cases (asks_nil os s a client_port t)) [
      | inl nil ↦ cc (rw (nil, call_create_tunnel) at e)
      | inr asks ↦ rw (asks, call_create_tunnel) at e
    ]

pub call_create_tunnel-set :
    (os : Os) (gob : Gob) (s : Server) (a : ℕ) (link : Exchange) (turn : Turn) (client_port t : ℕ)
    → is_set (s.heap a).session ≡ true
    → call_create_tunnel os gob s a link turn client_port t
      ≡ create_tunnel os gob s a link turn client_port t
unfolding call_create_tunnel asks_nil
call_create_tunnel-set os gob s a link turn client_port t set = rw (set, asks_nil) refl
