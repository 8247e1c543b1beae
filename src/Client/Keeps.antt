-- ===== src/Client/Keeps.antt =====
-- What the Handle functions of src/joebot/client leave as it was, and what they do to the ports.
use joebot.Prelude.{
  ok, ℕ, suc, ◌≡◌, refl, false, inl, inr, List, ◌∷◌, ◌++◌, arith, Result-cases, Bool-cases, has,
  str, GoString, GoError, Result,
}
use joebot.Client.{Client, add_tunnel}
use joebot.Client.Process.{Running, Libraries, client_tasks, handled}
use joebot.Client.Tasks.{
  Handled, Gotty, no_port_tunnel, reserving, novnc_on, filebrowser_on, gotty_on, handle_ssh_tunnel,
  handle_port_tunnel, handle_novnc, handle_filebrowser, handle_gotty, serve_vnc_via_websocket,
}
use joebot.Models.{NovncWebsocketInfo}
use joebot.Ports.{Os, PortsManager, reserve_port, is_port_occupied}
use joebot.Ports.Reserve.{reserved, refused, reserve_port-Reserves}
use joebot.Server.Tunnel.{Gob}
use joebot.Strings.{itoa}
use joebot.Task.{
  TaskType, Delivery, Writer, port_tunnel_request, ssh_tunnel_request, novnc_request,
  gotty_web_terminal_request, filebrowser_request, client_info_update_request,
}

-- At most one port more is in use, and one that was not; the allowed ports are the same.
pub data Grows (os : Os) (m m' : PortsManager) : Type 0 where
  same : m' ≡ m → Grows os m m'
  more :
      (p t : ℕ)
      → has p m.ports_in_use ≡ false
      → (reserve_port os m t).port ≡ ok p
      → m' ≡ record m { ports_in_use = p ∷ m.ports_in_use }
      → Grows os m m'

abbrev no_novnc : NovncWebsocketInfo
no_novnc = record {
  vnc_server_port = 0;
  novnc_websocket_port = 0;
  port_tunnel_on_host = no_port_tunnel;
}

-- A client with the settings, the directory and the state of another, whose ports have grown.
pub record Keeps (os : Os) (c c' : Client) : Type 0 where
  pub settings : c'.settings ≡ c.settings
  pub directory : c'.filebrowser_default_dir ≡ c.filebrowser_default_dir
  pub stopped : c'.stopped ≡ c.stopped
  pub ports : Grows os c.ports_manager c'.ports_manager

pub Keeps-same : (os : Os) (c : Client) → Keeps os c c
Keeps-same os c = record { settings = refl; directory = refl; stopped = refl; ports = same refl }

-- What a task does after the reservation does not touch the ports.
abbrev Uses : (Client → ℕ → Client × Result Writer) → Type 0
Uses use_port =
    (c : Client) (p : ℕ)
    → ((use_port c p).0.settings ≡ c.settings)
      × ((use_port c p).0.filebrowser_default_dir ≡ c.filebrowser_default_dir)
      × ((use_port c p).0.stopped ≡ c.stopped)
      × ((use_port c p).0.ports_manager ≡ c.ports_manager)

module _ (os : Os) (gob : Gob) where
  reserving-Keeps :
      (c : Client) (t : ℕ) (refuse : GoError → GoError)
      (use_port : Client → ℕ → Client × Result Writer)
      → Uses use_port
      → Keeps os c (reserving os gob c t refuse use_port).client
  reserving-Keeps c t refuse use_port uses = elim (reserve_port-Reserves os c.ports_manager t) [
    | refused e given unchanged ↦
        rw (given, reserving)
          (record { settings = refl; directory = refl; stopped = refl; ports = same unchanged })
    | reserved p given fresh now ↦
        let (settings, directory, stopped, ports) =
          uses (record c { ports_manager = (reserve_port os c.ports_manager t).manager }) p in
        rw (given, reserving)
          (record {
            settings = settings;
            directory = directory;
            stopped = stopped;
            ports = more p t fresh given (rw ports now);
          })
  ]

  novnc_on-Uses : (info : _) (stream : Writer) → Uses (novnc_on os gob info stream)
  unfolding serve_vnc_via_websocket
  novnc_on-Uses info stream c p = (refl, refl, refl, refl)

  filebrowser_on-Uses :
      (start : GoString → GoString → ℕ → Result GoString) (stream : Writer)
      → Uses (filebrowser_on os gob start stream)
  filebrowser_on-Uses start stream c p = ground arith

  gotty_on-Uses : (gotty : Gotty) (stream : Writer) → Uses (gotty_on os gob gotty stream)
  gotty_on-Uses gotty stream c p = ground arith

  handle_novnc-Keeps :
      (c : Client) (body : List ℕ) (stream : Writer) (t : ℕ)
      → Keeps os c (handle_novnc os gob c body stream t).client
  unfolding handle_novnc
  handle_novnc-Keeps c body stream t = elim (Result-cases (gob.decode_novnc body no_novnc)) [
    | inr (e, fails) ↦ rw (fails, handle_novnc) (Keeps-same os c)
    | inl (info, fine) ↦ elim (Bool-cases (is_port_occupied os t info.vnc_server_port)) [
      | inr free ↦ rw (fine, free, handle_novnc) (Keeps-same os c)
      | inl taken ↦
          rw (fine, taken, handle_novnc)
            (reserving-Keeps c (suc t) (λ e. e) (novnc_on os gob info stream)
              (novnc_on-Uses info stream))
    ]
  ]

  handle_filebrowser-Keeps :
      (start : GoString → GoString → ℕ → Result GoString) (c : Client) (stream : Writer) (t : ℕ)
      → Keeps os c (handle_filebrowser os gob start c stream t).client
  unfolding handle_filebrowser
  handle_filebrowser-Keeps start c stream t =
      reserving-Keeps c t _ (filebrowser_on os gob start stream) (filebrowser_on-Uses start stream)

  handle_gotty-Keeps :
      (gotty : Gotty) (c : Client) (stream : Writer) (t : ℕ)
      → Keeps os c (handle_gotty os gob gotty c stream t).client
  unfolding handle_gotty
  handle_gotty-Keeps gotty c stream t =
      reserving-Keeps c t _ (gotty_on os gob gotty stream) (gotty_on-Uses gotty stream)

-- The process of a client that keeps what a client keeps, and has the same successors.
pub record Stays (os : Os) (r r' : Running) : Type 0 where
  pub client : Keeps os r.client r'.client
  pub successors : r'.successors ≡ r.successors

pub Stays-same : (os : Os) (r : Running) → Stays os r r
Stays-same os r = record { client = Keeps-same os r.client; successors = refl }

handled-Stays :
    (os : Os) (r : Running) (h : Handled) → Keeps os r.client h.client → Stays os r (handled r h).0
handled-Stays os r h k = elim (Result-cases h.reply) [
  | inl (stream, fine) ↦ rw (fine, handled) (record { client = k; successors = refl })
  | inr (e, fails) ↦ rw (fails, handled) (record { client = k; successors = refl })
]

-- Every Handle function of a client keeps the client's settings, its state and its successors, and
-- puts at most one port more in use.
pub client_tasks-Stays :
    (l : Libraries) (task : TaskType) (body : List ℕ) (rest : List Delivery) (r : Running)
    → Stays l.os r (client_tasks l task body rest r).0
unfolding client_tasks handle_ssh_tunnel handle_port_tunnel add_tunnel
client_tasks-Stays l port_tunnel_request body rest r =
    elim (Result-cases (l.gob.decode_tunnel body no_port_tunnel)) [
      | inr (e, fails) ↦
          rw (fails, client_tasks, handle_port_tunnel)
            (record { client = Keeps-same l.os r.client; successors = refl })
      | inl (tunnel, fine) ↦
          elim (Result-cases (
            l.gost.listen_remote
              (r.client.settings.server_ip ++ (str ":" ++ itoa tunnel.gost_server_port))
              tunnel.server_port)) [
                | inr (e, refuses) ↦
                    rw (fine, refuses, client_tasks, handle_port_tunnel)
                      (record { client = Keeps-same l.os r.client; successors = refl })
                | inl (ln, listens) ↦
                    rw (fine, listens, client_tasks, handle_port_tunnel)
                      (handled-Stays l.os r _ (record {
                        settings = refl;
                        directory = refl;
                        stopped = refl;
                        ports = same refl;
                      }))
              ]
    ]
client_tasks-Stays l ssh_tunnel_request body rest r =
    handled-Stays l.os r _ (Keeps-same l.os r.client)
client_tasks-Stays l novnc_request body rest r =
    handled-Stays l.os r _ (handle_novnc-Keeps l.os l.gob r.client body r.stream r.time)
client_tasks-Stays l gotty_web_terminal_request body rest r =
    handled-Stays l.os r _ (handle_gotty-Keeps l.os l.gob l.gotty r.client r.stream r.time)
client_tasks-Stays l filebrowser_request body rest r =
    handled-Stays l.os r _ (handle_filebrowser-Keeps l.os l.gob l.start r.client r.stream r.time)
client_tasks-Stays l client_info_update_request body rest r = Stays-same l.os r
