-- ===== src/Server/Services.antt =====
-- The services of a client in src/joebot/server/client.go (CreateSSHTunnel, CreateFilebrowser,
-- CreateGottyWebTerminal, CreateNovncWebsocketTunnel), its Start and ExitIfError, and the handler of
-- src/joebot/server/client_info_update_task.go.
use joebot.Prelude.{
  ℕ, Option, none, some, List, [], GoString, str, GoError, message, wrap, Result, ok, err, ◌>>=◌,
  wrapped,
}
use mathlib.Core.Option
use joebot.Models.{
  PortTunnelInfo, NovncWebsocketInfo, GottyWebTerminalInfo, FilebrowserInfo, ClientInfo,
}
use joebot.Ports.{Os}
use joebot.Server.{Server, update, update_info, opened, stop_at, remove_client, empty_info}
use joebot.Server.Tunnel.{Gob, Exchange, Turn, Tunnelled, create_tunnel}
use joebot.Task.{
  TaskType, ssh_tunnel_request, novnc_request, gotty_web_terminal_request, filebrowser_request,
  request, receive_object,
}

pub record Served (A : Type 0) : Type 0 where
  pub server : Server
  pub result : Result A
  pub time : ℕ

-- Changes the information about the client at an address.
abbrev pub set_info : Server → ℕ → (ClientInfo → ClientInfo) → Server
set_info s a f = record s {
  heap = update s.heap a (record (s.heap a) { info = f (s.heap a).info });
}

-- The request for a service, and the object that answers it.
unfoldable pub ask : Exchange → TaskType → List ℕ → GoString → GoString → Result (List ℕ)
ask link task payload asking waiting = do
  stream ← wrapped (request link.opened task payload) asking
  wrapped (receive_object link.answers) waiting

-- After CreateTunnel: an error is wrapped, a tunnel is recorded.
unfoldable pub attach :
    {A : Type 0}
    → Option Tunnelled
    → GoString
    → (Server → PortTunnelInfo → Server × A)
    → Option (Served A)
attach tunnelled text record_it = elim tunnelled [
  | none ↦ none
  | some r ↦ elim r.result [
    | err e ↦ some (record { server = r.server; result = err (wrap e text); time = r.time })
    | ok tunnel ↦
        let (s, a) = record_it r.server tunnel in
        some (record { server = s; result = ok a; time = r.time })
  ]
]

abbrev pub no_tunnel : PortTunnelInfo
no_tunnel = record { gost_server_port = 0; server_port = 0; client_port = 0 }

-- The exchanges of a service: its own request, and that of CreateTunnel, with the turn of the lock.
pub record Talk : Type 0 where
  pub asked : Exchange
  pub tunnel : Exchange
  pub turn : Turn

module _ (os : Os) (gob : Gob) where
  unfoldable pub create_ssh_tunnel : Server → ℕ → Talk → ℕ → Option (Served PortTunnelInfo)
  unfolding ask attach
  create_ssh_tunnel s a talk t = elim (s.heap a).info.ssh_tunnel [
    | some old ↦ some (record {
      server = s;
      result = err (message (str "Failed to create SSH tunnel | tunnel already exists"));
      time = t;
    })
    | none ↦
        elim (ask talk.asked ssh_tunnel_request [] (str "SSH Tunnel Request Failed")
            (str "Failed To Locate Client's SSH")
          >>= λ body. gob.decode_tunnel body no_tunnel) [
            | err e ↦ some (record { server = s; result = err e; time = t })
            | ok ssh ↦
                attach (create_tunnel os gob s a talk.tunnel talk.turn ssh.client_port t)
                  (str "Failed To Create SSH Tunnel")
                  (λ s' tunnel. (set_info s' a (λ i. record i { ssh_tunnel = some tunnel }), ssh))
          ]
  ]

  unfoldable pub create_filebrowser : Server → ℕ → Talk → ℕ → Option (Served FilebrowserInfo)
  unfolding ask attach
  create_filebrowser s a talk t = elim (s.heap a).info.filebrowser_info [
    | some old ↦ some (record {
      server = s;
      result = err (message (str "Failed to create web filebrowser | service already exists"));
      time = t;
    })
    | none ↦
        elim (request talk.asked.opened filebrowser_request [] >>= λ sent.
        wrapped (receive_object talk.asked.answers)
          (str "Failed To Receive Web filebrowser From Client")
        >>= λ body. gob.decode_filebrowser body (record {
          default_directory = [];
          filebrowser_port = 0;
          port_tunnel_on_host = no_tunnel;
        })) [
          | err e ↦ some (record { server = s; result = err e; time = t })
          | ok fb ↦
              attach (create_tunnel os gob s a talk.tunnel talk.turn fb.filebrowser_port t)
                (str "Failed To Create Tunnel To Web filebrowser")
                (λ s' tunnel.
                  let fb' = record fb { port_tunnel_on_host = tunnel } in
                  (set_info s' a (λ i. record i { filebrowser_info = some fb' }), fb'))
        ]
  ]

  unfoldable pub create_gotty_web_terminal :
      Server → ℕ → Talk → ℕ → Option (Served GottyWebTerminalInfo)
  unfolding ask attach
  create_gotty_web_terminal s a talk t = elim (s.heap a).info.gotty_web_terminal_info [
    | some old ↦ some (record {
      server = s;
      result =
          err (message (str "Failed to create Gotty web terminal tunnel | service already exists"));
      time = t;
    })
    | none ↦
        elim (request talk.asked.opened gotty_web_terminal_request [] >>= λ sent.
        wrapped (receive_object talk.asked.answers)
          (str "Failed To Receive Web Terminal Info From Client")
        >>= λ body.
            gob.decode_gotty body
              (record { gotty_web_terminal_port = 0; port_tunnel_on_host = no_tunnel })) [
                | err e ↦ some (record { server = s; result = err e; time = t })
                | ok wt ↦
                    attach
                      (create_tunnel os gob s a talk.tunnel talk.turn wt.gotty_web_terminal_port t)
                      (str "Failed To Create Tunnel To Gotty Web Terminal")
                      (λ s' tunnel.
                        let wt' = record wt { port_tunnel_on_host = tunnel } in
                        (set_info s' a (λ i. record i { gotty_web_terminal_info = some wt' }), wt'))
              ]
  ]

  unfoldable pub create_novnc_websocket_tunnel :
      Server → ℕ → ℕ → Talk → ℕ → Option (Served NovncWebsocketInfo)
  unfolding attach
  create_novnc_websocket_tunnel s a client_vnc_port talk t =
      elim (s.heap a).info.novnc_websocket_info [
        | some old ↦ some (record {
          server = s;
          result = err (message (str "Failed to create novnc tunnel | service already exists"));
          time = t;
        })
        | none ↦
            let asked : NovncWebsocketInfo = record {
              vnc_server_port = client_vnc_port;
              novnc_websocket_port = 0;
              port_tunnel_on_host = no_tunnel;
            } in
            elim (request talk.asked.opened novnc_request (gob.encode_novnc asked) >>= λ sent.
            receive_object talk.asked.answers >>= λ body. gob.decode_novnc body asked) [
              | err e ↦ some (record { server = s; result = err e; time = t })
              | ok nv ↦
                  attach (create_tunnel os gob s a talk.tunnel talk.turn nv.novnc_websocket_port t)
                    (str "Failed To Create Tunnel To NoVNC Websocket")
                    (λ s' tunnel.
                      let nv' = record nv { port_tunnel_on_host = tunnel } in
                      (set_info s' a (λ i. record i { novnc_websocket_info = some nv' }), nv'))
            ]
      ]

  -- Start after the yamux session is set up: the four services, whose errors are logged only.
  unfoldable pub create_services :
      Server → ℕ → (Talk × Talk × Talk × Talk) → ℕ → Option (Server × ℕ)
  create_services s a talks t = Option.bind (create_ssh_tunnel s a talks.0 t) λ r.
      Option.bind (create_gotty_web_terminal r.server a talks.1 r.time) λ r'.
        Option.bind (create_novnc_websocket_tunnel r'.server a 5901 talks.2 r'.time) λ q.
          Option.bind (create_filebrowser q.server a talks.3 q.time) λ q'. some (q'.server, q'.time)

-- ExitIfError with an error: the client is stopped, and the server removes it. `none` is a panic.
unfoldable pub exit_if_error : Server → ℕ → Option Server
exit_if_error s a = elim (stop_at a s) [
  | none ↦ none
  | some s' ↦ elim (remove_client s' (s.heap a).id) [ none ↦ none | some (s'', removed) ↦ some s'' ]
]

-- `client.session = session`.
abbrev pub set_session : Server → ℕ → Server
set_session s a = record s { heap = update s.heap a (record (s.heap a) { session = opened }) }

-- Start: a yamux session is assigned before the services; without one the client goes.
unfoldable pub client_start :
    Os
    → Gob
    → Server
    → ℕ
    → Result (Unit {0})
    → (Talk × Talk × Talk × Talk)
    → ℕ
    → Option (Server × ℕ)
client_start os gob s a session talks t = elim session [
  | err e ↦ elim (exit_if_error s a) [ none ↦ none | some s' ↦ some (s', t) ]
  | ok made ↦ create_services os gob (set_session s a) a talks t
]

-- A ClientInfo that is zero, whose list of tags is nil.
abbrev pub zero_info : ClientInfo
zero_info = record (empty_info []) { tags = none }

-- The handler of a client's information.
unfoldable pub client_info_update : Gob → Server → ℕ → List ℕ → Server × Option GoError
client_info_update gob s a body = elim (gob.decode_client body zero_info) [
  | err e ↦ (s, some (wrap e (str "Unable to decode request body into ClientInfo object")))
  | ok info ↦ (record s { heap = update s.heap a (update_info (s.heap a) info) }, none)
]
