-- ===== src/Server/Interleaved.antt =====
-- CreateTunnel of src/joebot/server/client.go by several goroutines at once: a call takes a tunnel
-- service, waits for its lock, reserves a port, and then waits for the client, while others run. The clients
-- have sessions.
pub mod Counts
pub mod Safety
use joebot.Prelude.{
  ℕ, zero, suc, ◌≡◌, refl, false, Option, none, some, Option-cases, Result-cases, inl, inr, List,
  [], ◌∷◌, ◌++◌, has, count, GoError, Result, ok, err,
}
use joebot.Models.{PortTunnelInfo}
use joebot.Ports.{Os, reserve_port}
use joebot.Server.{GostTunnel, Server}
use joebot.Server.Tunnel.{
  Gob, Exchange, Tunnelled, unlock, get_tunnel_service, find_tunnel, instruct, create_locked,
}

-- What CreateTunnel has done when it comes to the request to the client.
pub data Begun : Type 0 where
  old_tunnel : PortTunnelInfo → Begun
  no_port : GoError → Begun
  new_port : PortTunnelInfo → Begun

-- CreateTunnel from the lock to the request.
unfoldable pub begin_locked : Os → Server → ℕ → ℕ → ℕ → ℕ → Server × Begun × ℕ
begin_locked os s a gost_port client_port t =
    elim (find_tunnel client_port (s.heap a).info.port_tunnels) [
      | some tunnel ↦ (s, old_tunnel tunnel, t)
      | none ↦
          let r = reserve_port os s.ports_manager t in
          let s' = record s { ports_manager = r.manager } in
          elim r.port [
            | err e ↦ (s', no_port e, r.time)
            | ok port ↦ (
              s',
              new_port (record {
                gost_server_port = gost_port;
                server_port = port;
                client_port = client_port;
              }),
              r.time,
            )
          ]
    ]

-- The end of CreateTunnel after its beginning.
unfoldable pub end_locked : Gob → ℕ → Exchange → Server × Begun × ℕ → Tunnelled
end_locked gob a link (s, old_tunnel tunnel, t) = record {
  server = s;
  result = ok tunnel;
  time = t;
}
end_locked gob a link (s, no_port e, t) = record { server = s; result = err e; time = t }
end_locked gob a link (s, new_port tunnel, t) =
    let (s', result) = instruct gob s a link tunnel in
    record { server = s'; result = result; time = t }

-- CreateTunnel in one piece, between the lock and the unlock, is its two pieces one after the
-- other, whatever it finds, reserves and is answered.
create_locked-end_locked :
    (os : Os) (gob : Gob) (s : Server) (a : ℕ) (link : Exchange) (gost_port client_port t : ℕ)
    → create_locked os gob s a link gost_port client_port t
      ≡ end_locked gob a link (begin_locked os s a gost_port client_port t)
unfolding create_locked begin_locked end_locked
create_locked-end_locked os gob s a link gost_port client_port t =
    elim (Option-cases (find_tunnel client_port (s.heap a).info.port_tunnels)) [
      | inr (tunnel, old) ↦ rw (old, create_locked, begin_locked) refl
      | inl new ↦ elim (Result-cases (reserve_port os s.ports_manager t).port) [
        | inr (e, refuse) ↦ rw (new, refuse, create_locked, begin_locked) refl
        | inl (p, given) ↦ rw (new, given, create_locked, begin_locked) refl
      ]
    ]

-- A goroutine that waits for the lock of its service.
pub record Waiting : Type 0 where
  pub client : ℕ
  pub client_port : ℕ
  pub service : ℕ
  pub gost_port : ℕ

-- A goroutine that holds the lock of its service and waits for its client.
pub record Asked : Type 0 where
  pub client : ℕ
  pub service : ℕ
  pub tunnel : PortTunnelInfo

pub record Busy : Type 0 where
  pub server : Server
  pub waiting : List Waiting
  pub asked : List Asked

abbrev pub services : List Asked → List ℕ
services [] = []
services (x ∷ xs) = x.service ∷ services xs

-- UnLock of the i-th service.
abbrev pub unlock_nth : List GostTunnel → ℕ → ℕ → List GostTunnel
unlock_nth [] i now = []
unlock_nth (g ∷ gs) zero now = unlock g now ∷ gs
unlock_nth (g ∷ gs) (suc i) now = g ∷ unlock_nth gs i now

abbrev pub unlocked : Server → ℕ → ℕ → Server
unlocked s i now = record s { gost_tunnels = unlock_nth s.gost_tunnels i now }

-- A goroutine that has the lock goes on, or gives the lock back at once.
unfoldable pub after_lock : Busy → List Waiting → Waiting → ℕ → Server × Begun × ℕ → Busy
after_lock b rest w now (s, old_tunnel tunnel, t) = record {
  server = unlocked s w.service now;
  waiting = rest;
  asked = b.asked;
}
after_lock b rest w now (s, no_port e, t) = record {
  server = unlocked s w.service now;
  waiting = rest;
  asked = b.asked;
}
after_lock b rest w now (s, new_port tunnel, t) = record {
  server = s;
  waiting = rest;
  asked = record { client = w.client; service = w.service; tunnel = tunnel } ∷ b.asked;
}

-- A step of one goroutine, for calls on clients that stand once in a list.
pub data Step (os : Os) (gob : Gob) (clients : List ℕ) (b b' : Busy) : Type 0 where
  takes :
      (a client_port i : ℕ) (g : GostTunnel) (s' : Server)
      → count a clients ≡ 1
      → get_tunnel_service b.server ≡ some ((i, g), s')
      → b' ≡ record {
        server = s';
        waiting =
            record { client = a; client_port = client_port; service = i; gost_port = g.port }
            ∷ b.waiting;
        asked = b.asked;
      }
      → Step os gob clients b b'
  locks :
      (pre : List Waiting) (w : Waiting) (post : List Waiting) (t now : ℕ)
      → b.waiting ≡ pre ++ (w ∷ post)
      → has w.service (services b.asked) ≡ false
      → b'
        ≡ after_lock b
            (pre ++ post)
            w
            now
            (begin_locked os b.server w.client w.gost_port w.client_port t)
      → Step os gob clients b b'
  ends :
      (pre : List Asked) (x : Asked) (post : List Asked) (link : Exchange) (now : ℕ)
      → b.asked ≡ pre ++ (x ∷ post)
      → b' ≡ record {
        server = unlocked ((instruct gob b.server x.client link x.tunnel).0) x.service now;
        waiting = b.waiting;
        asked = pre ++ post;
      }
      → Step os gob clients b b'

pub data Runs (os : Os) (gob : Gob) (clients : List ℕ) (b : Busy) : Busy → Type 0 where
  begun : Runs os gob clients b b
  next :
      {b' b'' : Busy}
      → Runs os gob clients b b'
      → Step os gob clients b' b''
      → Runs os gob clients b b''
