-- ===== src/Client/Tasks.antt =====
-- The tasks of src/joebot/client: the Handle functions of ssh_tunnel_task.go, port_tunnel_task.go,
-- novnc_task.go, filebrowser_task.go and gotty_web_terminal_task.go. Each task is made with its
-- client, so the tests for a nil client are left out.
use joebot.Prelude.{
  ℕ, suc, Bool, true, false, Option, none, some, List, ◌++◌, if◌then◌else◌, GoString, str, GoError,
  message, wrap, Result, ok, err, ◌>>=◌, wrapped,
}
use joebot.Client.{Client, Settings, GostServer, add_tunnel}
use joebot.Models.{PortTunnelInfo, NovncWebsocketInfo}
use joebot.Ports.{Os, reserve_port, is_port_occupied}
use joebot.Server.Tunnel.{Gob}
use joebot.Strings.{itoa}
use joebot.Task.{Writer, send_object, confirm_task_complete}

-- A client after a task, the stream that was written to or the error, and the calls made so far.
pub record Handled : Type 0 where
  pub client : Client
  pub reply : Result Writer
  pub time : ℕ

abbrev pub no_port_tunnel : PortTunnelInfo
no_port_tunnel = record { gost_server_port = 0; server_port = 0; client_port = 0 }

-- What the gost library gives for a chain to an address: a listener there for a port, at an address.
pub record Gost : Type 0 where
  pub listen_remote : GoString → ℕ → Result GostServer

-- The settings that Gotty is started with.
pub record GottyOptions : Type 0 where
  pub port : GoString
  pub joebot_web_portal_port : GoString
  pub joebot_web_portal_host : GoString
  pub enable_basic_auth : Bool
  pub enable_token_auth : Bool
  pub enable_tls_client_auth : Bool
  pub permit_write : Bool
  pub ws_origin : GoString
  pub enable_reconnect : Bool
  pub term : GoString
  pub ctrl_v_paste : Bool
  pub cursor_color : GoString

-- The calls of the Gotty library, whose values are handles.
pub record Gotty : Type 0 where
  pub default_options : Result (Unit {0})
  pub default_preferences : Result (Unit {0})
  pub default_backend : Result (Unit {0})
  pub new_factory : GoString → Result ℕ
  pub new_server : ℕ → GottyOptions → Result ℕ

-- A body decoded into a variable that is zero before.
module _ (os : Os) (gob : Gob) where
  unfoldable pub handle_ssh_tunnel : Client → Writer → ℕ → Handled
  unfolding is_port_occupied send_object
  handle_ssh_tunnel c stream t = record {
    client = c;
    reply =
        if is_port_occupied os t 22
        then send_object (gob.encode_tunnel (record no_port_tunnel { client_port = 22 })) stream
        else err (message (str "No SSH Service Listening On Port: " ++ itoa 22));
    time = suc t;
  }

  -- The exit of the process by log.Fatal is `none`.
  unfoldable pub handle_port_tunnel : Gost → Client → List ℕ → Writer → ℕ → Option Handled
  unfolding add_tunnel confirm_task_complete
  handle_port_tunnel gost c body stream t = elim (gob.decode_tunnel body no_port_tunnel) [
    | err e ↦ some (record {
      client = c;
      reply = err (wrap e (str "Unable to decode request body into PortTunnelInfo object"));
      time = t;
    })
    | ok tunnel ↦
        elim (gost.listen_remote (c.settings.server_ip ++ (str ":" ++ itoa tunnel.gost_server_port))
          tunnel.server_port) [
            | err e ↦ none
            | ok ln ↦ some (record {
              client = add_tunnel ln c;
              reply = confirm_task_complete stream;
              time = t;
            })
          ]
  ]

  -- ReservePort on the client's manager, and what follows a port that is reserved.
  abbrev pub reserving :
      Client → ℕ → (GoError → GoError) → (Client → ℕ → Client × Result Writer) → Handled
  reserving c t refused use_port =
      let r = reserve_port os c.ports_manager t in
      let c' : Client = record c { ports_manager = r.manager } in
      elim r.port [
        | err e ↦ record { client = c'; reply = err (refused e); time = r.time }
        | ok p ↦
            let (d, reply) = use_port c' p in record { client = d; reply = reply; time = r.time }
      ]

  -- ServeVncViaWebsocket has no error: a server at an address is started in any case.
  unfoldable pub serve_vnc_via_websocket : GoString → GoString → Result GoString
  serve_vnc_via_websocket vnc_server_addr websocket_addr = ok websocket_addr

  -- Each Handle with a reserved port, after the reservation.
  abbrev pub novnc_on : NovncWebsocketInfo → Writer → Client → ℕ → Client × Result Writer
  novnc_on info stream d p =
      elim (serve_vnc_via_websocket (str ":" ++ itoa info.vnc_server_port) (str ":" ++ itoa p)) [
        | err e ↦ (d, err (wrap e (str "Failed to ServeVncViaWebsocket")))
        | ok server ↦ (
          record d { novnc_websocket_server = some server },
          send_object (gob.encode_novnc (record info { novnc_websocket_port = p })) stream,
        )
      ]

  unfoldable pub handle_novnc : Client → List ℕ → Writer → ℕ → Handled
  unfolding is_port_occupied send_object serve_vnc_via_websocket
  handle_novnc c body stream t =
      elim (gob.decode_novnc body (record {
        vnc_server_port = 0;
        novnc_websocket_port = 0;
        port_tunnel_on_host = no_port_tunnel;
      })) [
        | err e ↦ record {
          client = c;
          reply = err (wrap e (str "Unable to decode request body into NovncWebsocketInfo object"));
          time = t;
        }
        | ok info ↦ elim (is_port_occupied os t info.vnc_server_port) [
          | false ↦ record {
            client = c;
            reply =
                err (message (str "No VNC Server Listening On Port " ++ itoa info.vnc_server_port));
            time = suc t;
          }
          | true ↦ reserving c (suc t) (λ e. e) (novnc_on info stream)
        ]
      ]

  -- `start` is StartFilebrowserService.
  abbrev pub filebrowser_on :
      (GoString → GoString → ℕ → Result GoString) → Writer → Client → ℕ → Client × Result Writer
  filebrowser_on start stream d p =
      elim (start (itoa p) d.settings.server_ip d.settings.server_web_portal_port) [
        | err e ↦ (d, err (wrap e (str "Failed to create filebrowser server")))
        | ok server ↦ (
          record d { filebrowser_server = some server },
          send_object
              (gob.encode_filebrowser (record {
                default_directory = d.filebrowser_default_dir;
                filebrowser_port = p;
                port_tunnel_on_host = no_port_tunnel;
              }))
              stream,
        )
      ]

  unfoldable pub handle_filebrowser :
      (GoString → GoString → ℕ → Result GoString) → Client → Writer → ℕ → Handled
  unfolding send_object
  handle_filebrowser start c stream t = reserving c t (λ e. e) (filebrowser_on start stream)

  abbrev pub gotty_options : Settings → ℕ → GottyOptions
  gotty_options c p = record {
    port = itoa p;
    joebot_web_portal_port = itoa c.server_web_portal_port;
    joebot_web_portal_host = c.server_ip;
    enable_basic_auth = false;
    enable_token_auth = true;
    enable_tls_client_auth = false;
    permit_write = true;
    ws_origin = str ".*?";
    enable_reconnect = true;
    term = str "hterm";
    ctrl_v_paste = true;
    cursor_color = str "rgba(255, 255, 255, 0.5)";
  }

  unfoldable pub start_gotty : Gotty → Settings → ℕ → Result ℕ
  start_gotty gotty c p = do
    options ← wrapped gotty.default_options (str "Gotty Configuration Failed: appOptions")
    preferences ←
        wrapped gotty.default_preferences (str "Gotty Configuration Failed: appOptions.Preferences")
    backend ← wrapped gotty.default_backend (str "Gotty Configuration Failed: backendOptions")
    factory ← wrapped (gotty.new_factory (str "bash")) (str "Gotty Configuration Failed: factory")
    wrapped (gotty.new_server factory (gotty_options c p)) (str "Gotty Server Init Failed")

  abbrev pub gotty_on : Gotty → Writer → Client → ℕ → Client × Result Writer
  gotty_on gotty stream d p = elim (start_gotty gotty d.settings p) [
    | err e ↦ (d, err e)
    | ok srv ↦ (
      d,
      send_object
          (gob.encode_gotty
            (record { gotty_web_terminal_port = p; port_tunnel_on_host = no_port_tunnel }))
          stream,
    )
  ]

  unfoldable pub handle_gotty : Gotty → Client → Writer → ℕ → Handled
  unfolding send_object
  handle_gotty gotty c stream t =
      reserving c t (λ e. wrap e (str "Unable To Find Free Port For Gotty Service"))
        (gotty_on gotty stream)
