-- ===== src/Server/Outcome.antt =====
-- What CreateTunnel of src/joebot/server/client.go does to the parts of the server other than its
-- ports.
use joebot.Prelude.{
  none, ℕ, zero, suc, ◌<◌, ◌≡◌, refl, sym, ap, ◌∙◌, inl, inr, some, List, [], ◌∷◌, ◌++◌, arith, leb,
  if◌then◌else◌, Option-cases, some-eq, Result-cases, length, get_elem?, Result, ok,
}
use mathlib.Core.Path.{subst}
use joebot.Models.{PortTunnelInfo}
use joebot.Ports.{Os, reserve_port}
use joebot.Server.{Client, GostTunnel, Server, update}
use joebot.Task.{request, wait_task_complete_signal, port_tunnel_request}
use joebot.Server.Tunnel.{
  Gob, Exchange, Turn, Tunnelled, get_tunnel_service, set_nth, unlock, find_tunnel, instruct,
  create_locked, create_tunnel,
}

-- A client with one tunnel more.
abbrev pub with_tunnel : Client → PortTunnelInfo → Client
with_tunnel c tunnel = record c {
  info = record (c.info) { port_tunnels = c.info.port_tunnels ++ (tunnel ∷ []) };
}

-- Either no client has changed, or the call succeeded and one client has the new tunnel.
pub data Outcome (s s' : Server) (a : ℕ) (res : Result PortTunnelInfo) : Type 0 where
  unchanged : s'.heap ≡ s.heap → Outcome s s' a res
  added :
      (tunnel : PortTunnelInfo)
      → res ≡ ok tunnel
      → find_tunnel tunnel.client_port (s.heap a).info.port_tunnels ≡ none
      → s'.heap ≡ update s.heap a (with_tunnel (s.heap a) tunnel)
      → Outcome s s' a res

-- The list of clients and the rotation are as they were.
pub record Keeps (s s' : Server) : Type 0 where
  pub clients : s'.clients ≡ s.clients
  pub cancelled : s'.cancelled ≡ s.cancelled
  pub services : length s'.gost_tunnels ≡ length s.gost_tunnels
  pub in_turn :
      s.gost_tunnel_start_index < length s.gost_tunnels
      → s'.gost_tunnel_start_index < length s'.gost_tunnels

module _ (gob : Gob) (s : Server) (a : ℕ) (link : Exchange) where
  instruct-Outcome :
      (tunnel : PortTunnelInfo)
      → find_tunnel tunnel.client_port (s.heap a).info.port_tunnels ≡ none
      → Outcome s (instruct gob s a link tunnel).0 a (instruct gob s a link tunnel).1
  unfolding instruct
  instruct-Outcome tunnel new =
      elim (Result-cases (request link.opened port_tunnel_request (gob.encode_tunnel tunnel))) [
        | inr (e, fails) ↦ rw (fails, instruct) (unchanged refl)
        | inl (w, sent) ↦ elim (Result-cases (wait_task_complete_signal link.answers)) [
          | inr (e, fails) ↦ rw (sent, fails, instruct) (unchanged refl)
          | inl (u, done) ↦ rw (sent, done, instruct) (added tunnel refl new refl)
        ]
      ]

length-set_nth :
    (gs : List GostTunnel) (i : ℕ) (g : GostTunnel) → length (set_nth gs i g) ≡ length gs
length-set_nth [] i g = refl
length-set_nth (x ∷ xs) zero g = refl
length-set_nth (x ∷ xs) (suc i) g = ap suc (length-set_nth xs i g)

-- Only the heaps of the two servers count.
Outcome-server :
    (s s' u u' : Server) (a : ℕ) {res : Result PortTunnelInfo}
    → s.heap ≡ s'.heap
    → u.heap ≡ u'.heap
    → Outcome s u a res
    → Outcome s' u' a res
Outcome-server s s' u u' a e f (unchanged same) = unchanged (sym f ∙ same ∙ e)
Outcome-server s s' u u' a e f (added tunnel done new more) =
    added tunnel done
      (ap (λ (h : ℕ → Client). find_tunnel tunnel.client_port (h a).info.port_tunnels) (sym e)
        ∙ new)
      (sym f ∙ more ∙ ap (λ h. update h a (with_tunnel (h a) tunnel)) e)

create_locked-Outcome :
    (os : Os) (gob : Gob) (s : Server) (a : ℕ) (link : Exchange) (gost_port client_port t : ℕ)
    → Outcome s
        (create_locked os gob s a link gost_port client_port t).server
        a
        (create_locked os gob s a link gost_port client_port t).result
unfolding create_locked
create_locked-Outcome os gob s a link gost_port client_port t =
    elim (Option-cases (find_tunnel client_port (s.heap a).info.port_tunnels)) [
      | inr (tunnel, old) ↦ rw (old, create_locked) (unchanged refl)
      | inl new ↦ elim (Result-cases (reserve_port os s.ports_manager t).port) [
        | inr (e, refuse) ↦ rw (new, refuse, create_locked) (unchanged refl)
        | inl (p, given) ↦
            rw (new, given, create_locked)
              (Outcome-server
                (record s { ports_manager = (reserve_port os s.ports_manager t).manager }) s _ _ a
                refl refl (instruct-Outcome gob _ a link _ new))
      ]
    ]

create_locked-Keeps :
    (os : Os) (gob : Gob) (s : Server) (a : ℕ) (link : Exchange) (gost_port client_port t : ℕ)
    → Keeps s (create_locked os gob s a link gost_port client_port t).server
unfolding create_locked instruct
create_locked-Keeps os gob s a link gost_port client_port t = record {
  clients = ground arith;
  cancelled = ground arith;
  services = ground arith;
  in_turn = λ h. ground arith;
}

-- CreateTunnel, where it returns, leaves the list of clients and the number of services alone, and
-- the next service stays in range; it changes no client, or gives one client a tunnel.
pub create_tunnel-Outcome :
    (os : Os) (gob : Gob) (s : Server) (a : ℕ) (link : Exchange) (turn : Turn) (client_port t : ℕ)
    (r : Tunnelled)
    → create_tunnel os gob s a link turn client_port t ≡ some r
    → Keeps s r.server × Outcome s r.server a r.result
unfolding create_tunnel get_tunnel_service
create_tunnel-Outcome os gob s a link turn client_port t r e =
    elim (Option-cases (get_elem? s.gost_tunnels s.gost_tunnel_start_index)) [
      | inl empty ↦ cc (rw (empty, create_tunnel, get_tunnel_service) at e)
      | inr (g, found) ↦
          subst (λ k. Keeps s k.server × Outcome s k.server a k.result)
            (some-eq (rw (found, create_tunnel, get_tunnel_service) at e)) (settled g)
    ]
  where
    next : Server
    next = record s {
      gost_tunnel_start_index =
          if leb (length s.gost_tunnels) (suc s.gost_tunnel_start_index)
          then 0
          else suc s.gost_tunnel_start_index;
    }

    in_range : (n i : ℕ) → i < n → (if leb n (suc i) then 0 else suc i) < n
    in_range n i h = ground arith

    settled :
        (g : GostTunnel)
        → (let x = create_locked os gob next a link g.port client_port t in
            let k : Tunnelled = record x {
              server = record (x.server) {
                gost_tunnels =
                    set_nth x.server.gost_tunnels s.gost_tunnel_start_index
                      (unlock g turn.returned);
              };
            } in
            Keeps s k.server × Outcome s k.server a k.result)
    settled g =
        let x = create_locked os gob next a link g.port client_port t in
        let kept = create_locked-Keeps os gob next a link g.port client_port t in
        let same =
          length-set_nth x.server.gost_tunnels s.gost_tunnel_start_index (unlock g turn.returned) in
        (
          record {
            clients = kept.clients;
            cancelled = kept.cancelled;
            services = same ∙ kept.services;
            in_turn = λ h.
                rw same
                  (kept.in_turn (in_range (length s.gost_tunnels) s.gost_tunnel_start_index h));
          },
          Outcome-server next s x.server _ a refl refl
              (create_locked-Outcome os gob next a link g.port client_port t),
        )
