-- ===== src/Server/Provision.antt =====
-- The start of a client and its services, src/joebot/server/client.go, and what they keep.
use joebot.Prelude.{
  ℕ, ◌≡◌, refl, ap, inl, inr, Option, none, some, List, arith, Option-cases, Result-cases, count,
  GoString, Result, ok, err,
}
use mathlib.Core.Option
use joebot.Models.{
  PortTunnelInfo, ClientInfo, NovncWebsocketInfo, GottyWebTerminalInfo, FilebrowserInfo,
}
use joebot.Ports.{Os}
use joebot.Server.{Server}
use joebot.Server.Accounting.{Accounted, create_tunnel-Accounted, held-update, server_ports}
use joebot.Server.Tunnel.{Gob, Exchange, Turn, Tunnelled, create_tunnel}
use joebot.Server.Services.{
  Served, set_info, attach, Talk, create_ssh_tunnel, create_filebrowser, create_gotty_web_terminal,
  create_novnc_websocket_tunnel, create_services,
}

-- What holds of a result when there is one, and of a panic.
abbrev pub After {ℓ} : {A : Type ℓ} → Type 0 → (A → Type 0) → Option A → Type 0
After N P none = N
After N P (some a) = P a

-- The services of the client at address `a` keep what CreateTunnel and notes in the client's
-- information keep; `N` holds of a panic, if CreateTunnel may panic.
module _ (os : Os) (gob : Gob) (a : ℕ) (N : Type 0) (I : Server → Type 0)
    (tunnel_keeps : (s : Server) (link : Exchange) (turn : Turn) (port t : ℕ)
      → I s
      → After N (λ (r : Tunnelled). I r.server) (create_tunnel os gob s a link turn port t))
    (note_keeps : (s : Server) (f : ClientInfo → ClientInfo)
      → (f (s.heap a).info).port_tunnels ≡ (s.heap a).info.port_tunnels
      → I s
      → I (set_info s a f)) where
  -- A service records its tunnel in another field than the list of tunnels.
  attach-After :
      {A : Type 0} (o : Option Tunnelled) (text : GoString)
      (f : PortTunnelInfo → ClientInfo → ClientInfo) (value : PortTunnelInfo → A)
      → ((t : PortTunnelInfo) (i : ClientInfo) → (f t i).port_tunnels ≡ i.port_tunnels)
      → After N (λ (r : Tunnelled). I r.server) o
      → After N
          (λ (r : Served A). I r.server)
          (attach o text (λ s' t. (set_info s' a (f t), value t)))
  unfolding attach
  attach-After none text f value same h = h
  attach-After (some r) text f value same h = elim (Result-cases r.result) [
    | inr (e, fails) ↦ rw (fails, attach) h
    | inl (t, done) ↦ rw (done, attach) (note_keeps r.server (f t) (same t _) h)
  ]

  -- A service that has no tunnel yet.
  service-After :
      {A : Type 0} (s : Server) (t : ℕ) (talk : Talk) (answer : Result A) (port : A → ℕ)
      (text : GoString) (f : A → PortTunnelInfo → ClientInfo → ClientInfo)
      (value : A → PortTunnelInfo → A)
      → ((x : A) (u : PortTunnelInfo) (i : ClientInfo) → (f x u i).port_tunnels ≡ i.port_tunnels)
      → I s
      → After N
          (λ (r : Served A). I r.server)
          (elim answer [
            | err e ↦ some (record { server = s; result = err e; time = t })
            | ok x ↦
                attach
                  (create_tunnel os gob s a talk.tunnel talk.turn (port x) t)
                  text
                  (λ s' u. (set_info s' a (f x u), value x u))
          ])
  service-After s t talk (err e) port text f value same v = v
  service-After s t talk (ok x) port text f value same v =
      attach-After _ text (f x) (value x) (same x)
        (tunnel_keeps s talk.tunnel talk.turn (port x) t v)

  create_ssh_tunnel-After :
      (s : Server) (talk : Talk) (t : ℕ)
      → I s
      → After N (λ (r : Served PortTunnelInfo). I r.server) (create_ssh_tunnel os gob s a talk t)
  unfolding create_ssh_tunnel
  create_ssh_tunnel-After s talk t v = elim (Option-cases (s.heap a).info.ssh_tunnel) [
    | inr (old, e) ↦ rw (e, create_ssh_tunnel) v
    | inl e ↦
        rw (e, create_ssh_tunnel)
          (service-After s t talk _ (λ (x : PortTunnelInfo). x.client_port) _
            (λ x u i. record i { ssh_tunnel = some u }) (λ x u. x) (λ x u i. refl) v)
  ]

  create_filebrowser-After :
      (s : Server) (talk : Talk) (t : ℕ)
      → I s
      → After N (λ (r : Served FilebrowserInfo). I r.server) (create_filebrowser os gob s a talk t)
  unfolding create_filebrowser
  create_filebrowser-After s talk t v = elim (Option-cases (s.heap a).info.filebrowser_info) [
    | inr (old, e) ↦ rw (e, create_filebrowser) v
    | inl e ↦
        rw (e, create_filebrowser)
          (service-After s t talk _ (λ (x : FilebrowserInfo). x.filebrowser_port) _
            (λ x u i. record i { filebrowser_info = some (record x { port_tunnel_on_host = u }) })
            (λ x u. (record x { port_tunnel_on_host = u })) (λ x u i. refl) v)
  ]

  create_gotty_web_terminal-After :
      (s : Server) (talk : Talk) (t : ℕ)
      → I s
      → After N
          (λ (r : Served GottyWebTerminalInfo). I r.server)
          (create_gotty_web_terminal os gob s a talk t)
  unfolding create_gotty_web_terminal
  create_gotty_web_terminal-After s talk t v =
      elim (Option-cases (s.heap a).info.gotty_web_terminal_info) [
        | inr (old, e) ↦ rw (e, create_gotty_web_terminal) v
        | inl e ↦
            rw (e, create_gotty_web_terminal)
              (service-After s t talk _ (λ (x : GottyWebTerminalInfo). x.gotty_web_terminal_port) _
                (λ x u i. record i {
                  gotty_web_terminal_info = some (record x { port_tunnel_on_host = u });
                })
                (λ x u. (record x { port_tunnel_on_host = u })) (λ x u i. refl) v)
      ]

  create_novnc_websocket_tunnel-After :
      (s : Server) (client_vnc_port : ℕ) (talk : Talk) (t : ℕ)
      → I s
      → After N
          (λ (r : Served NovncWebsocketInfo). I r.server)
          (create_novnc_websocket_tunnel os gob s a client_vnc_port talk t)
  unfolding create_novnc_websocket_tunnel
  create_novnc_websocket_tunnel-After s client_vnc_port talk t v =
      elim (Option-cases (s.heap a).info.novnc_websocket_info) [
        | inr (old, e) ↦ rw (e, create_novnc_websocket_tunnel) v
        | inl e ↦
            rw (e, create_novnc_websocket_tunnel)
              (service-After s t talk _ (λ (x : NovncWebsocketInfo). x.novnc_websocket_port) _
                (λ x u i. record i {
                  novnc_websocket_info = some (record x { port_tunnel_on_host = u });
                })
                (λ x u. (record x { port_tunnel_on_host = u })) (λ x u i. refl) v)
      ]

  chain-After :
      {A B : Type 0} (P : A → Type 0) (Q : B → Type 0) (o : Option A) (k : A → Option B)
      → After N P o
      → ((x : A) → P x → After N Q (k x))
      → After N Q (Option.bind o k)
  unfolding Option.bind
  chain-After P Q none k h f = h
  chain-After P Q (some x) k h f = f x h

  pub create_services-After :
      (s : Server) (talks : Talk × Talk × Talk × Talk) (t : ℕ)
      → I s
      → After N (λ (r : Server × ℕ). I r.0) (create_services os gob s a talks t)
  unfolding create_services
  create_services-After s talks t v =
      chain-After _ _ _ _ (create_ssh_tunnel-After s talks.0 t v) λ (r : Served PortTunnelInfo) v1.
        chain-After _ _ _ _ (create_gotty_web_terminal-After r.server talks.1 r.time v1)
          λ (r' : Served GottyWebTerminalInfo) v2.
            chain-After _ _ _ _
              (create_novnc_websocket_tunnel-After r'.server 5901 talks.2 r'.time v2)
              λ (q : Served NovncWebsocketInfo) v3.
                chain-After _ _ _ _ (create_filebrowser-After q.server talks.3 q.time v3)
                  λ (q' : Served FilebrowserInfo) v4. v4

note-Accounted :
    (clients : List ℕ) (a : ℕ)
    → count a clients ≡ 1
    → (s : Server) (f : ClientInfo → ClientInfo)
    → (f (s.heap a).info).port_tunnels ≡ (s.heap a).info.port_tunnels
    → Accounted clients s
    → Accounted clients (set_info s a f)
note-Accounted clients a here s f same v = record {
  once = v.once;
  owned = λ p. omega (
    arith,
    v.owned p,
    held-update s.heap a (record (s.heap a) { info = f (s.heap a).info }) clients p here,
    ap (λ ts. count p (server_ports ts)) same,
  );
  single = v.single;
}

-- The start of the services of a client that stands once in the list keeps the accounting,
-- whichever of the four fail, unless it panics for want of a tunnel service.
create_services-Accounted :
    (clients : List ℕ) (a : ℕ)
    → count a clients ≡ 1
    → (os : Os) (gob : Gob) (s : Server) (talks : Talk × Talk × Talk × Talk) (t : ℕ)
    → Accounted clients s
    → After
        (Unit {0})
        (λ (r : Server × ℕ). Accounted clients r.0)
        (create_services os gob s a talks t)
create_services-Accounted clients a here os gob s talks t v =
    create_services-After os gob a (Unit {0}) (Accounted clients) tunnel_keeps
      (note-Accounted clients a here) s talks t v
  where
    tunnel_keeps :
        (s : Server) (link : Exchange) (turn : Turn) (port t : ℕ)
        → Accounted clients s
        → After
            (Unit {0})
            (λ (r : Tunnelled). Accounted clients r.server)
            (create_tunnel os gob s a link turn port t)
    tunnel_keeps s link turn port t v =
        elim (Option-cases (create_tunnel os gob s a link turn port t)) [
          | inl e ↦ rw e tt
          | inr (r, e) ↦
              rw e (create_tunnel-Accounted os gob clients s a link turn port t r here v e)
        ]
