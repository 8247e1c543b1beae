-- ===== src/Client.antt =====
-- src/joebot/client/client.go: the state of a joebot client, NewClient, its tunnels, Stop and
-- Reconnect. Its lock makes each method on the list of tunnels one step.
pub mod Tasks
pub mod Process
pub mod Keeps
pub mod Runs
pub mod Heirs
pub mod New
pub mod Reached
pub mod Ended
pub mod Outlives
pub mod Inside
pub mod Portal
pub mod Allowed
pub mod Life
pub mod Leaks
use joebot.Prelude.{
  ℕ, zero, suc, ◌+◌, ◌-◌, ◌*◌, ◌/◌, ◌%◌, ◌^◌, ◌≤◌, ◌<◌, ◌≡◌, refl, sym, ap, ◌∙◌, ◌≢◌, ◌↔◌, ◌⊎◌, inl,
  inr, Bool, true, false, not, ◌&&◌, ◌||◌, Option, none, some, List, [], ◌∷◌, ◌++◌, map, arith, ltb,
  leb, ◌==◌, if◌then◌else◌, ==_refl, ==_iff, ltb→lt, lt→ltb, leb→le, le→leb, gt→leb, Bool-cases,
  Option-cases, some-eq, Result-cases, str_eq, str_eq→eq, str_eq_refl, length, get_elem?, take,
  drop, replicate, All, length-append, All-append, All-left, All-right, length-replicate, take_all,
  take-append, drop-append, count, has, without, count-append, has→count, not_has→count,
  count-without_self, count-without, without_absent, GoString, str, GoError, fault, message, wrap,
  Result, ok, err, ◌>>=◌, ◌>>◌, wrapped,
}
use joebot.Handler.{
  IncomingRequestHandler, HandlerFunc, new_incoming_request_handler, on_error, register_task,
}
use joebot.Models.{ClientInfo}
use joebot.Ports.{PortsManager, new_ports_manager, add_allowed_port}
use joebot.Slices.{Slice, visible, of_list, append_one, range_remove, Removed}
use joebot.Strings.{ℤ, pos, negsuc, split, itoa}
use joebot.Task.{
  TaskType, port_tunnel_request, ssh_tunnel_request, novnc_request, gotty_web_terminal_request,
  filebrowser_request, client_info_update_request, request, Writer,
}

-- What NewClient is given. An int that may be negative is a ℤ.
pub record Settings : Type 0 where
  pub server_ip : GoString
  pub server_port : ℕ
  pub server_web_portal_port : ℕ
  pub allowed_port_range_lbound : ℤ
  pub allowed_port_range_ubound : ℤ
  pub tags : Option (List GoString)
  pub use_tls : Bool
  pub ca : GoString

-- A gost server: its handle, and the address of its listener.
pub record GostServer : Type 0 where
  pub handle : ℕ
  pub addr : GoString

-- The fields of Client; an HTTP server is its address. `closed` and `shut` collect what Stop has
-- closed and shut down.
pub record Client : Type 0 where
  pub settings : Settings
  pub ports_manager : PortsManager
  pub gost_tunnels : Slice GostServer
  pub novnc_websocket_server : Option GoString
  pub filebrowser_default_dir : GoString
  pub filebrowser_server : Option GoString
  pub stopped : Bool
  pub closed : List GostServer
  pub shut : List GoString

-- The loop of SetAllowedPortRange: `n` ports from `port` on.
abbrev pub allow_from : ℕ → ℕ → PortsManager → PortsManager
allow_from zero port m = m
allow_from (suc n) port m = allow_from n (suc port) (add_allowed_port m port)

-- SetAllowedPortRange; `none` is its panic.
unfoldable pub set_allowed_port_range : ℤ → ℤ → PortsManager → Option PortsManager
unfolding add_allowed_port
set_allowed_port_range (negsuc l) ubound m = none
set_allowed_port_range (pos l) (negsuc u) m = none
set_allowed_port_range (pos l) (pos u) m =
    if ltb u l
    then none
    else if l == 0 && u == 65535
    then some m
    else some (allow_from (u + 1 - l) l m)

unfoldable pub new_client : Settings → Option Client
unfolding set_allowed_port_range new_ports_manager
new_client c =
    elim (set_allowed_port_range c.allowed_port_range_lbound c.allowed_port_range_ubound
      new_ports_manager) [
        | none ↦ none
        | some m ↦ some (record {
          settings = c;
          ports_manager = m;
          gost_tunnels = of_list [];
          novnc_websocket_server = none;
          filebrowser_default_dir = [];
          filebrowser_server = none;
          stopped = false;
          closed = [];
          shut = [];
        })
      ]

unfoldable pub add_tunnel : GostServer → Client → Client
unfolding append_one
add_tunnel g c = record c { gost_tunnels = append_one c.gost_tunnels g }

abbrev pub same_addr : GostServer → GostServer → Bool
same_addr g x = str_eq x.addr g.addr

-- RemoveTunnel; `none` is a panic.
unfoldable pub remove_tunnel : GostServer → Client → Option Client
remove_tunnel g c =
    elim (range_remove {S = ℕ} (λ x s. some s) (same_addr g) 0 c.gost_tunnels.len
      (record { slice = c.gost_tunnels; state = 0; found = none })) [
        | none ↦ none
        | some r ↦ some (record c { gost_tunnels = r.slice })
      ]

abbrev pub running : Option GoString → List GoString
running none = []
running (some addr) = addr ∷ []

unfoldable pub stop : Client → Client
stop c = record c {
  closed = c.closed ++ visible c.gost_tunnels;
  gost_tunnels = of_list [];
  shut = c.shut ++ (running c.novnc_websocket_server ++ running c.filebrowser_server);
  novnc_websocket_server = none;
  filebrowser_server = none;
  stopped = true;
}

-- Reconnect: the client that is started after the pause; the old one's settings and directory.
unfoldable pub reconnect : Client → Option Client
reconnect c = elim (new_client c.settings) [
  | none ↦ none
  | some n ↦ some (record n { filebrowser_default_dir = c.filebrowser_default_dir })
]
