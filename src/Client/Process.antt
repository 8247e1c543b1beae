-- ===== src/Client/Process.antt =====
-- The process of a client of src/joebot/client/client.go: ExitIfError, UpdateClientInfo, Start, and
-- the handler that Start registers the tasks of src/joebot/client with.
use joebot.Prelude.{
  ℕ, Bool, true, false, Option, none, some, List, [], ◌∷◌, ◌++◌, if◌then◌else◌, str_eq, GoString,
  str, GoError, Result, ok, err, wrapped,
}
use joebot.Client.{Client, Settings, stop, reconnect}
use joebot.Client.Tasks.{
  Handled, Gost, Gotty, handle_ssh_tunnel, handle_port_tunnel, handle_novnc, handle_filebrowser,
  handle_gotty,
}
use joebot.Handler.{
  IncomingRequestHandler, HandlerFunc, new_incoming_request_handler, on_error, register_task,
}
use joebot.Models.{ClientInfo}
use joebot.Ports.{Os}
use joebot.Server.Tunnel.{Gob}
use joebot.Strings.{split, itoa}
use joebot.Task.{
  TaskType, port_tunnel_request, ssh_tunnel_request, novnc_request, gotty_web_terminal_request,
  filebrowser_request, client_info_update_request, request, Writer, empty_handle,
}

-- A client's process: the client, the clients that have been made to reconnect, the stream that is
-- answered on, the calls of the system made so far, and whether the process has ended.
pub record Running : Type 0 where
  pub client : Client
  pub successors : List (Option Client)
  pub stream : Writer
  pub time : ℕ
  pub exited : Bool

-- ExitIfError, and whether the caller returns.
unfoldable pub exit_if_error : Option GoError → Running → Running × Bool
unfolding stop reconnect
exit_if_error none r = (r, false)
exit_if_error (some e) r =
    (record r { client = stop r.client; successors = reconnect r.client ∷ r.successors }, true)

-- How Start dials: with TLS the certificate is not verified when no CA file is given.
pub data Transport : Type 0 where
  plain_tcp : Transport
  tls_tcp : Bool → GoString → Transport

unfoldable pub transport : Settings → Transport
transport c = if c.use_tls then tls_tcp (str_eq c.ca []) c.ca else plain_tcp

unfoldable pub server_addr : Settings → GoString
server_addr c = c.server_ip ++ (str ":" ++ itoa c.server_port)

-- What Start meets: the connection with its local address, the session, the host, and the stream of
-- the request.
pub record Surroundings : Type 0 where
  pub dial : Transport → GoString → Result GoString
  pub yamux_client : Result (Unit {0})
  pub hostname : Result GoString
  pub user : GoString
  pub opened : Result Writer
  pub encode_client : ClientInfo → List ℕ

abbrev pub text_or_empty : Result GoString → GoString
text_or_empty (ok s) = s
text_or_empty (err e) = []

abbrev pub first_part : List GoString → GoString
first_part [] = []
first_part (p ∷ ps) = p

unfoldable pub own_info : Surroundings → Client → GoString → ClientInfo
unfolding split
own_info w c local_addr = record {
  id = [];
  ip = first_part (split 58 local_addr);
  host_name = text_or_empty w.hostname;
  tags = c.settings.tags;
  username = w.user;
  port_tunnels = [];
  ssh_tunnel = none;
  novnc_websocket_info = none;
  gotty_web_terminal_info = none;
  filebrowser_info = none;
}

abbrev pub error_of {ℓ} : {A : Type ℓ} → Result A → Option GoError
error_of (ok a) = none
error_of (err e) = some e

unfoldable pub update_client_info : Surroundings → GoString → Running → Running
unfolding exit_if_error own_info
update_client_info w local_addr r =
    (exit_if_error
      (error_of (
        wrapped
          (request w.opened client_info_update_request
            (w.encode_client (own_info w r.client local_addr)))
          (str "Failed To Update Client Info")))
      r).0

-- The libraries that the tasks call; `start` is StartFilebrowserService.
pub record Libraries : Type 0 where
  pub os : Os
  pub gob : Gob
  pub gost : Gost
  pub gotty : Gotty
  pub start : GoString → GoString → ℕ → Result GoString

-- What a Handle function leaves behind. A stream on which it failed is not written to again.
abbrev pub handled : Running → Handled → Running × Option GoError
handled r h = elim h.reply [
  | ok stream ↦ (record r { client = h.client; stream = stream; time = h.time }, none)
  | err e ↦ (record r { client = h.client; time = h.time }, some e)
]

-- The Handle functions of the tasks that Start registers.
unfoldable pub client_tasks : Libraries → TaskType → HandlerFunc Running
unfolding empty_handle
client_tasks l port_tunnel_request body rest r =
    elim (handle_port_tunnel l.os l.gob l.gost r.client body r.stream r.time) [
      | none ↦ (record r { exited = true }, none)
      | some h ↦ handled r h
    ]
client_tasks l ssh_tunnel_request body rest r =
    handled r (handle_ssh_tunnel l.os l.gob r.client r.stream r.time)
client_tasks l novnc_request body rest r =
    handled r (handle_novnc l.os l.gob r.client body r.stream r.time)
client_tasks l gotty_web_terminal_request body rest r =
    handled r (handle_gotty l.os l.gob l.gotty r.client r.stream r.time)
client_tasks l filebrowser_request body rest r =
    handled r (handle_filebrowser l.os l.gob l.start r.client r.stream r.time)
client_tasks l client_info_update_request body rest r = (r, empty_handle client_info_update_request)

-- The handler that Start sets up, for the Handle functions of the five tasks.
unfoldable pub client_handler : (TaskType → HandlerFunc Running) → IncomingRequestHandler Running
unfolding exit_if_error register_task on_error new_incoming_request_handler
client_handler handle =
    register_task
      (register_task
        (register_task
          (register_task
            (register_task
              (on_error new_incoming_request_handler (λ e r. (exit_if_error (some e) r).0))
              port_tunnel_request (handle port_tunnel_request))
            ssh_tunnel_request (handle ssh_tunnel_request))
          novnc_request (handle novnc_request))
        gotty_web_terminal_request (handle gotty_web_terminal_request))
      filebrowser_request (handle filebrowser_request)

-- Start, up to the return of UpdateClientInfo; the result says whether the handler was started.
unfoldable pub start : Surroundings → Running → Running × Bool
unfolding transport server_addr
start w r =
    let addr = server_addr r.client.settings in
    elim (wrapped (w.dial (transport r.client.settings) addr)
      (str "Unable to connect to server: " ++ addr)) [
        | err e ↦ ((exit_if_error (some e) r).0, false)
        | ok local_addr ↦ elim (wrapped w.yamux_client (str "Unable to create yamux session")) [
          | err e ↦ ((exit_if_error (some e) r).0, false)
          | ok u ↦ (update_client_info w local_addr r, true)
        ]
      ]
