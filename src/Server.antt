-- ===== src/Server.antt =====
-- The state of src/joebot/server/server.go and of the clients that it keeps, with the handlers of
-- the client list. Clients are pointers: the list holds addresses, and `heap` what stands there.
pub mod Clients
pub mod Tunnel
pub mod Services
pub mod Accounting
pub mod Interleaved
pub mod Startup
pub mod Rotation
pub mod Boot
pub mod Provision
pub mod Progress
pub mod Outcome
pub mod Registry
pub mod Reached
pub mod Runs
pub mod Steps
pub mod Sound
pub mod Members
pub mod Leaving
pub mod Distinct
pub mod Shutdown
pub mod Lookup
use joebot.Prelude.{
  ℕ, zero, suc, ◌+◌, ◌-◌, ◌*◌, ◌/◌, ◌%◌, ◌^◌, ◌≤◌, ◌<◌, ◌≡◌, refl, sym, ap, ◌∙◌, ◌≢◌, ◌↔◌, ◌⊎◌, inl,
  inr, Bool, true, false, not, ◌&&◌, ◌||◌, Option, none, some, List, [], ◌∷◌, ◌++◌, map, arith, ltb,
  leb, ◌==◌, if◌then◌else◌, ==_refl, ==_iff, ltb→lt, lt→ltb, leb→le, Bool-cases, Option-cases,
  Result-cases, str_eq, str_eq→eq, str_eq_refl, length, get_elem?, take, drop, replicate, All,
  length-append, length-replicate, take_all, take-append, drop-append, count, has, without,
  count-append, has→count, not_has→count, count-without_self, count-without, without_absent,
  GoString, str, GoError, fault, message, wrap, Result, ok, err, ◌>>=◌, ◌>>◌, wrapped,
}
use mathlib.Core.Option
use joebot.Models.{ClientInfo, PortTunnelInfo}
use joebot.Ports.{PortsManager, release_port}
use joebot.Slices.{Slice, visible, append_one, Removed, range_remove}

-- The session of a client: nil until Start assigns it, and then open or closed.
pub data Session : Type 0 where
  unset opened closed : Session

abbrev pub is_set : Session → Bool
is_set unset = false
is_set opened = true
is_set closed = true

-- The listener of the server: nil until Start assigns it, and then open or closed.
pub data Listener : Type 0 where
  no_listener listening shut : Listener

abbrev pub has_listener : Listener → Bool
has_listener no_listener = false
has_listener listening = true
has_listener shut = true

-- `id` is set by NewClient and never again. The connection is open or closed.
pub record Client : Type 0 where
  pub id : GoString
  pub info : ClientInfo
  pub cancelled : Bool
  pub session : Session
  pub conn_closed : Bool

pub record GostTunnel : Type 0 where
  pub port : ℕ
  pub last_serve_time : ℕ

pub record Server : Type 0 where
  pub ports_manager : PortsManager
  pub gost_tunnels : List GostTunnel
  pub gost_tunnel_start_index : ℕ
  pub clients : Slice ℕ
  pub heap : ℕ → Client
  pub cancelled : Bool
  pub listener : Listener

abbrev pub update : (ℕ → Client) → ℕ → Client → ℕ → Client
update heap a c b = if a == b then c else heap b

abbrev pub empty_info : GoString → ClientInfo
empty_info id = record {
  id = id;
  ip = [];
  host_name = [];
  tags = some [];
  username = [];
  port_tunnels = [];
  ssh_tunnel = none;
  novnc_websocket_info = none;
  gotty_web_terminal_info = none;
  filebrowser_info = none;
}

unfoldable pub new_client : GoString → Client
new_client id = record {
  id = id;
  info = empty_info id;
  cancelled = false;
  session = unset;
  conn_closed = false;
}

-- A nil list of tags leaves the tags; the other fields are always taken over.
unfoldable pub update_info : Client → ClientInfo → Client
update_info c info = record c {
  info = record (c.info) {
    tags = elim info.tags [ none ↦ c.info.tags | some tags ↦ some tags ];
    ip = info.ip;
    host_name = info.host_name;
    username = info.username;
  };
}

-- `for _, t := range PortTunnels { ReleasePort(t.ServerPort) }`, whose errors are dropped.
pub release_tunnels : PortsManager → List PortTunnelInfo → PortsManager
release_tunnels m [] = m
release_tunnels m (t ∷ ts) = release_tunnels (release_port m t.server_port).1 ts

-- Stop: the deferred function releases the ports whether or not the session was closed before.
unfoldable pub client_stopped : Client → PortsManager → Client × PortsManager
client_stopped c m = (
  record c {
    info = record (c.info) { port_tunnels = [] };
    cancelled = true;
    session = closed;
    conn_closed = elim c.session [ unset ↦ true | opened ↦ true | closed ↦ c.conn_closed ];
  },
  release_tunnels m c.info.port_tunnels,
)

-- `client.session.IsClosed()` on a nil session is a panic, `none`.
unfoldable pub client_stop : Client → PortsManager → Option (Client × PortsManager)
client_stop c m = if is_set c.session then some (client_stopped c m) else none

-- The server once the client at an address is stopped.
unfoldable pub stopped_at : ℕ → Server → Server
stopped_at a s =
    let (c, m) = client_stopped (s.heap a) s.ports_manager in
    record s { heap = update s.heap a c; ports_manager = m }

-- Stop of the client at an address, as an effect on the server. `none` is a panic.
unfoldable pub stop_at : ℕ → Server → Option Server
unfolding client_stop stopped_at
stop_at a s =
    Option.map {B = Server} (λ r. record s { heap = update s.heap a r.0; ports_manager = r.1 })
      (client_stop (s.heap a) s.ports_manager)

pub stop_at-set :
    (a : ℕ) (s : Server) → is_set (s.heap a).session ≡ true → stop_at a s ≡ some (stopped_at a s)
unfolding stop_at client_stop stopped_at
stop_at-set a s h = rw h refl

pub stop_at-unset : (a : ℕ) (s : Server) → is_set (s.heap a).session ≡ false → stop_at a s ≡ none
unfolding stop_at client_stop
stop_at-unset a s h = rw h refl

abbrev pub has_id : Server → GoString → ℕ → Bool
has_id s client_id a = str_eq (s.heap a).id client_id

pub remove_failed : GoError
remove_failed = message (str "Failed To Remove Client With ID: ")

-- The loop of RemoveClient over a list of clients. `none` is a panic.
unfoldable pub remove_from : Slice ℕ → Server → GoString → Option (Server × Result ℕ)
remove_from clients s client_id =
    Option.map
      (λ r. (
        record (r.state) { clients = r.slice },
        elim r.found [ some a ↦ ok a | none ↦ err remove_failed ],
      ))
      (range_remove stop_at (has_id s client_id) 0 clients.len
        (record { slice = clients; state = s; found = none }))

unfoldable pub remove_client : Server → GoString → Option (Server × Result ℕ)
unfolding remove_from
remove_client s client_id = remove_from s.clients s client_id

unfoldable pub add_client : Server → ℕ → Server
add_client s a = record s { clients = append_one s.clients a }

-- GetClientsList.
unfoldable pub get_clients_list : Server → List ClientInfo
get_clients_list s = map (λ a. (s.heap a).info) (visible s.clients)

pub client_not_found : GoError
client_not_found = message (str "Client ID Not Found: ")

unfoldable pub find_id : Server → GoString → List ℕ → Result ℕ
find_id s id [] = err client_not_found
find_id s id (a ∷ rest) = if has_id s id a then ok a else find_id s id rest

unfoldable pub get_client_by_id : Server → GoString → Result ℕ
get_client_by_id s id = find_id s id (visible s.clients)

-- Stop: the rounds are those of the slice as it was, the cells are read as they are.
pub stop_loop : ℕ → ℕ → Server → Option Server
stop_loop i zero s = some s
stop_loop i (suc todo) s = elim (get_elem? s.clients.cells i) [
  | none ↦ none
  | some a ↦ elim (remove_client s (s.heap a).id) [
    | none ↦ none
    | some (s', removed) ↦ stop_loop (suc i) todo s'
  ]
]

-- What follows the loop; closing a nil listener is a panic. The loop does not touch the listener.
unfoldable pub close_listener : Listener → Server → Option Server
close_listener no_listener s = none
close_listener listening s = some (record s { gost_tunnels = []; listener = shut })
close_listener shut s = some (record s { gost_tunnels = []; listener = shut })

unfoldable pub server_stop : Server → Option Server
unfolding close_listener
server_stop s =
    Option.bind (stop_loop 0 s.clients.len (record s { cancelled = true }))
      λ s'. close_listener s.listener s'
