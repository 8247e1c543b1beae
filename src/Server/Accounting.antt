-- ===== src/Server/Accounting.antt =====
-- To whom the ports in use of the server in src/joebot/server belong, before and after CreateTunnel
-- and RemoveClient.
mod Held
pub use Held.{
  release_tunnels_lem, held, held-update, held-append, held-update_absent, server_ports,
  server_ports-append,
}
use joebot.Prelude.{
  ℕ, zero, suc, ◌+◌, ◌-◌, ◌*◌, ◌/◌, ◌%◌, ◌^◌, ◌≤◌, ◌<◌, ◌≡◌, refl, sym, ap, ◌∙◌, ◌≢◌, ◌↔◌, ◌⊎◌, inl,
  inr, Bool, true, false, not, ◌&&◌, ◌||◌, Option, none, some, List, [], ◌∷◌, ◌++◌, map, arith, ltb,
  leb, ◌==◌, if◌then◌else◌, ==_refl, ==_iff, ltb→lt, lt→ltb, leb→le, Bool-cases, Option-cases,
  some-eq, Result-cases, str_eq, str_eq→eq, str_eq_refl, length, get_elem?, take, drop, replicate,
  All, length-append, All-append, All-left, All-right, length-replicate, take_all, take-append,
  drop-append, count, has, without, count-append, has→count, not_has→count, count-without_self,
  count-without, without_absent, GoString, str, GoError, fault, message, wrap, Result, ok, err,
  ◌>>=◌, ◌>>◌, wrapped,
}
use mathlib.Core.Path.{subst}
use joebot.Models.{PortTunnelInfo}
use joebot.Ports.{Os, PortsManager, Reserved, reserve_port, release_port}
use joebot.Ports.History.{release_port_lem}
use joebot.Ports.Reserve.{Reserves, reserved, refused, reserve_port-Reserves}
use joebot.Slices.{Slice, visible}
use joebot.Slices.Removal.{over, last_of}
use joebot.Server.{
  Client, GostTunnel, Server, is_set, update, client_stopped, stopped_at, has_id, remove_client,
}
use joebot.Server.Clients.{Lacks, remove_client-one}
use joebot.Server.Tunnel.{
  Gob, Exchange, Turn, get_tunnel_service, set_nth, unlock, find_tunnel, Tunnelled, instruct,
  create_locked, create_tunnel,
}

abbrev pub gost_ports : List GostTunnel → List ℕ
gost_ports [] = []
gost_ports (g ∷ gs) = g.port ∷ gost_ports gs

-- The clients that a server has, and the accounting of the ports over them.
pub record Accounted (clients : List ℕ) (s : Server) : Type 0 where
  pub once : (p : ℕ) → count p s.ports_manager.ports_in_use ≤ 1
  pub owned :
      (p : ℕ)
      → count p s.ports_manager.ports_in_use
        ≡ count p (gost_ports s.gost_tunnels) + held s.heap clients p
  pub single : (a : ℕ) → count a clients ≤ 1

instruct-Accounted :
    (gob : Gob) (clients : List ℕ) (s : Server) (a : ℕ) (link : Exchange) (tunnel : PortTunnelInfo)
    → count a clients ≡ 1
    → ((p : ℕ) → count p s.ports_manager.ports_in_use ≤ 1)
    → ((p : ℕ)
        → count p s.ports_manager.ports_in_use
          ≡ count p (tunnel.server_port ∷ [])
            + (count p (gost_ports s.gost_tunnels) + held s.heap clients p))
    → ((b : ℕ) → count b clients ≤ 1)
    → Accounted clients (instruct gob s a link tunnel).0
unfolding instruct
instruct-Accounted gob clients s a link tunnel here once owned single = record {
  once = λ p. ground (arith, once p, release_port_lem s.ports_manager tunnel.server_port p);
  owned = λ p. ground (
    arith,
    once p,
    owned p,
    once tunnel.server_port,
    owned tunnel.server_port,
    release_port_lem s.ports_manager tunnel.server_port p,
    held-update s.heap a
        (record (s.heap a) {
          info = record ((s.heap a).info) {
            port_tunnels = (s.heap a).info.port_tunnels ++ (tunnel ∷ []);
          };
        })
        clients p here,
    server_ports-append (s.heap a).info.port_tunnels (tunnel ∷ []),
    count-append p (server_ports (s.heap a).info.port_tunnels) (tunnel.server_port ∷ []),
  );
  single = single;
}

create_locked-Accounted :
    (os : Os) (gob : Gob) (clients : List ℕ) (s : Server) (a : ℕ) (link : Exchange)
    (gost_port client_port t : ℕ)
    → count a clients ≡ 1
    → Accounted clients s
    → Accounted clients (create_locked os gob s a link gost_port client_port t).server
unfolding create_locked
create_locked-Accounted os gob clients s a link gost_port client_port t here v =
    elim (Option-cases (find_tunnel client_port (s.heap a).info.port_tunnels)) [
      | inr (tunnel, old) ↦ rw (old, create_locked) v
      | inl new ↦ go new (reserve_port-Reserves os s.ports_manager t)
    ]
  where
    with_port : Server
    with_port = record s { ports_manager = (reserve_port os s.ports_manager t).manager }

    go :
        find_tunnel client_port (s.heap a).info.port_tunnels ≡ none
        → Reserves s.ports_manager (reserve_port os s.ports_manager t)
        → Accounted clients (create_locked os gob s a link gost_port client_port t).server
    go new (refused e given same) =
        rw (new, given, create_locked)
          (rw same (record { once = v.once; owned = v.owned; single = v.single }))
    go new (reserved p given fresh put) =
        rw (new, given, create_locked)
          (instruct-Accounted gob clients with_port a link
            (record { gost_server_port = gost_port; server_port = p; client_port = client_port })
            here
            (rw put
              (λ q. ground (arith, v.once q, not_has→count p s.ports_manager.ports_in_use fresh)))
            (rw put (λ q. ground (arith, v.owned q))) v.single)

gost_ports-set_nth :
    (gs : List GostTunnel) (i : ℕ) (g : GostTunnel) (now : ℕ)
    → get_elem? gs i ≡ some g
    → gost_ports (set_nth gs i (unlock g now)) ≡ gost_ports gs
unfolding unlock
gost_ports-set_nth [] i g now e = cc
gost_ports-set_nth (x ∷ xs) zero g now e = ground arith
gost_ports-set_nth (x ∷ xs) (suc i) g now e = ap (λ r. x.port ∷ r) (gost_ports-set_nth xs i g now e)

-- CreateTunnel leaves the tunnel services as they were, but for the time of the one that it took.
create_locked-gost_tunnels :
    (os : Os) (gob : Gob) (s : Server) (a : ℕ) (link : Exchange) (gost_port client_port t : ℕ)
    → (create_locked os gob s a link gost_port client_port t).server.gost_tunnels ≡ s.gost_tunnels
unfolding create_locked
create_locked-gost_tunnels os gob s a link gost_port client_port t = ground arith

-- A CreateTunnel that returns, on a client that stands once in the list of an accounted server,
-- keeps the accounting on every path: a client port that is tunnelled already, no port to reserve,
-- a request or a confirmation that fails, and success.
pub create_tunnel-Accounted :
    (os : Os) (gob : Gob) (clients : List ℕ) (s : Server) (a : ℕ) (link : Exchange) (turn : Turn)
    (client_port t : ℕ) (r : Tunnelled)
    → count a clients ≡ 1
    → Accounted clients s
    → create_tunnel os gob s a link turn client_port t ≡ some r
    → Accounted clients r.server
unfolding create_tunnel get_tunnel_service
create_tunnel-Accounted os gob clients s a link turn client_port t r here v e =
    elim (Option-cases (get_elem? s.gost_tunnels s.gost_tunnel_start_index)) [
      | inl empty ↦ cc (rw (empty, create_tunnel, get_tunnel_service) at e)
      | inr (g, found) ↦
          subst (λ k. Accounted clients k.server)
            (some-eq (rw (found, create_tunnel, get_tunnel_service) at e)) (settled g found)
    ]
  where
    next : Server
    next = record s {
      gost_tunnel_start_index =
          if leb (length s.gost_tunnels) (suc s.gost_tunnel_start_index)
          then 0
          else suc s.gost_tunnel_start_index;
    }

    settled :
        (g : GostTunnel)
        → get_elem? s.gost_tunnels s.gost_tunnel_start_index ≡ some g
        → Accounted clients
            (record ((create_locked os gob next a link g.port client_port t).server) {
              gost_tunnels =
                  set_nth
                    (create_locked os gob next a link g.port client_port t).server.gost_tunnels
                    s.gost_tunnel_start_index
                    (unlock g turn.returned);
            })
    settled g found =
        let w =
          create_locked-Accounted os gob clients next a link g.port client_port t here
            (record { once = v.once; owned = v.owned; single = v.single }) in
        let same = create_locked-gost_tunnels os gob next a link g.port client_port t in
        let ports =
          ap (λ gs. gost_ports (set_nth gs s.gost_tunnel_start_index (unlock g turn.returned))) same
          ∙ gost_ports-set_nth s.gost_tunnels s.gost_tunnel_start_index g turn.returned found in
        record {
          once = w.once;
          owned = λ p.
              omega (arith, w.owned p, ap (count p) ports, ap (λ gs. count p (gost_ports gs)) same);
          single = v.single;
        }

-- On an accounted server whose list has one client with the ID, with a session, RemoveClient returns that client,
-- the others keep their order, and the accounting holds for them: exactly the ports of the client
-- are given back.
pub remove_client-Accounted :
    (s : Server) (id : GoString) (pre : List ℕ) (c : ℕ) (post junk : List ℕ)
    → s.clients ≡ over (pre ++ (c ∷ post)) junk
    → Lacks s id pre
    → has_id s id c ≡ true
    → is_set (s.heap c).session ≡ true
    → Lacks s id post
    → Accounted (pre ++ (c ∷ post)) s
    → (s' : Server) × (remove_client s id ≡ some (s', ok c))
      × Accounted (visible s'.clients) s'
      × (visible s'.clients ≡ pre ++ post)
unfolding stopped_at client_stopped
remove_client-Accounted s id pre c post junk e before here set after v = (
  left,
  remove_client-one s id pre c post junk e before here set after,
  subst (λ xs. Accounted xs left) (sym (take-append (pre ++ post) (last_of c post ∷ junk))) settled,
  take-append (pre ++ post) (last_of c post ∷ junk),
)
  where
    left : Server
    left = record (stopped_at c s) { clients = over (pre ++ post) (last_of c post ∷ junk) }

    stopped : Client
    stopped = (client_stopped (s.heap c) s.ports_manager).0

    alone : (count c pre ≡ 0) × (count c post ≡ 0)
    alone = ground (arith, v.single c, count-append c pre (c ∷ post))

    settled : Accounted (pre ++ post) left
    settled = record {
      once = λ p.
          ground
            (arith, v.once p, release_tunnels_lem s.ports_manager (s.heap c).info.port_tunnels p);
      owned = λ p. ground (
        arith,
        v.once p,
        v.owned p,
        release_tunnels_lem s.ports_manager (s.heap c).info.port_tunnels p,
        held-append s.heap pre (c ∷ post) p,
        held-append (update s.heap c stopped) pre post p,
        held-update_absent s.heap c stopped pre p alone.0,
        held-update_absent s.heap c stopped post p alone.1,
        has→count p (server_ports (s.heap c).info.port_tunnels),
        not_has→count p (server_ports (s.heap c).info.port_tunnels),
      );
      single =
          λ a. omega (arith, v.single a, count-append a pre (c ∷ post), count-append a pre post);
    }
