-- ===== src/Server/Sound.antt =====
-- The invariant of the server in src/joebot/server/server.go, and the operations on one client.
use joebot.Prelude.{
  ℕ, ◌≤◌, ◌<◌, ◌≡◌, refl, sym, ap, ◌∙◌, true, some, [], ◌∷◌, ◌++◌, arith, if◌then◌else◌, ==_refl,
  ==_iff, length, count, has, has→count, not_has→count,
}
use mathlib.Core.Path.{fun_ext, subst}
use joebot.Ports.{Os}
use joebot.Server.{Client, Server, update, client_stopped, stopped_at}
use joebot.Server.Accounting.{Accounted, held-update, server_ports, release_tunnels_lem}
use joebot.Server.Distinct.{Distinct, Distinct-Named, ids}
use joebot.Server.Outcome.{Keeps, Outcome, unchanged, added, with_tunnel, create_tunnel-Outcome}
use joebot.Server.Progress.{create_tunnel_returns}
use joebot.Server.Registry.{Entry, registry, Opens, stays, opens, change_id, entry_of}
use joebot.Server.Registry.Heap.{
  registry_of-update, registry_of-update_same, has_entry-member, has_port-Named,
}
use joebot.Server.Tunnel.{Gob, Exchange, Turn, Tunnelled, create_tunnel}
use joebot.Slices.{Slice, visible}

-- The ports are accounted for, the slice is within its array, no two clients have one ID, and the
-- next tunnel service exists.
pub record IsSound (s : Server) : Type 0 where
  pub accounted : Accounted (visible s.clients) s
  pub shape : s.clients.len ≤ length s.clients.cells
  pub distinct : Distinct (ids s.heap) (visible s.clients)
  pub in_turn : s.gost_tunnel_start_index < length s.gost_tunnels

pub once_in :
    (s : Server) (a : ℕ)
    → IsSound s
    → has a (visible s.clients) ≡ true
    → count a (visible s.clients) ≡ 1
once_in s a v m = omega (arith, v.accounted.single a, has→count a (visible s.clients) m)

-- The IDs in a heap where one client was changed and kept its ID.
pub ids-update :
    (heap : ℕ → Client) (a : ℕ) (c : Client) → c.id ≡ (heap a).id → ids (update heap a c) ≡ ids heap
ids-update heap a c same = fun_ext named
  where
    named : (b : ℕ) → ids (update heap a c) b ≡ ids heap b
    named b = ground (arith, same, ==_iff a b)

-- A server after a change of one client: what the invariant needs besides the accounting.
changed-IsSound :
    (s s' : Server) (a : ℕ) (c : Client)
    → IsSound s
    → s'.clients ≡ s.clients
    → s'.heap ≡ update s.heap a c
    → c.id ≡ (s.heap a).id
    → s'.gost_tunnel_start_index < length s'.gost_tunnels
    → Accounted (visible s.clients) s'
    → IsSound s'
changed-IsSound s s' a c v list heap named turn books = record {
  accounted = subst (λ (l : Slice ℕ). Accounted (visible l) s') (sym list) books;
  shape = rw list v.shape;
  distinct = rw (list, heap, ids-update s.heap a c named) v.distinct;
  in_turn = turn;
}

-- CreateTunnel on a client of the list returns. The server stays sound, and the registry has the
-- tunnel that it returns, at the client's ID, or is as it was.
pub create_tunnel-IsSound :
    (os : Os) (gob : Gob) (s : Server) (a : ℕ) (link : Exchange) (turn : Turn) (client_port t : ℕ)
    → IsSound s
    → has a (visible s.clients) ≡ true
    → (r : Tunnelled) × (create_tunnel os gob s a link turn client_port t ≡ some r)
      × IsSound r.server
      × Opens (s.heap a).id (registry s) (registry r.server)
      × (r.server.clients ≡ s.clients)
      × ((r.server.heap a).id ≡ (s.heap a).id)
create_tunnel-IsSound os gob s a link turn client_port t v m =
    let (r, e, books) =
      create_tunnel_returns os gob (visible s.clients) s a link turn client_port t (once_in s a v m)
        v.accounted v.in_turn in
    let (kept, outcome) = create_tunnel-Outcome os gob s a link turn client_port t r e in
    let (sound, change) = go r books kept outcome in
    (r, e, sound, change, kept.clients, same_id r outcome)
  where
    same_id : (r : Tunnelled) → Outcome s r.server a r.result → (r.server.heap a).id ≡ (s.heap a).id
    same_id r (unchanged same) = ap (λ (h : ℕ → Client). (h a).id) same
    same_id r (added tunnel done new more) =
        ap (λ (h : ℕ → Client). (h a).id) more
        ∙ ap (λ b. (if b then with_tunnel (s.heap a) tunnel else s.heap a).id) (==_refl a)

    go :
        (r : Tunnelled)
        → Accounted (visible s.clients) r.server
        → Keeps s r.server
        → Outcome s r.server a r.result
        → IsSound r.server × Opens (s.heap a).id (registry s) (registry r.server)
    go r books kept (unchanged same) = (
      record {
        accounted =
            subst (λ (l : Slice ℕ). Accounted (visible l) r.server) (sym kept.clients) books;
        shape = rw kept.clients v.shape;
        distinct = rw (kept.clients, same) v.distinct;
        in_turn = kept.in_turn v.in_turn;
      },
      stays (rw (kept.clients, same) refl),
    )
    go r books kept (added tunnel done new more) = (
      changed-IsSound s r.server a (with_tunnel (s.heap a) tunnel) v kept.clients more refl
          (kept.in_turn v.in_turn) books,
      opens tunnel (has_entry-member s.heap a (visible s.clients) m)
          (has_port-Named s.heap a tunnel.client_port (visible s.clients)
            (Distinct-Named s.heap a (visible s.clients) v.distinct m) new)
          (rw (kept.clients, more)
            (registry_of-update s.heap a (with_tunnel (s.heap a) tunnel) (λ ts. ts ++ (tunnel ∷ []))
              (visible s.clients) (Distinct-Named s.heap a (visible s.clients) v.distinct m) refl)),
    )

-- A change of the information about a client that leaves its tunnels.
pub informed-IsSound :
    (s : Server) (a : ℕ) (c : Client)
    → IsSound s
    → has a (visible s.clients) ≡ true
    → entry_of c ≡ entry_of (s.heap a)
    → IsSound (record s { heap = update s.heap a c })
      × (registry (record s { heap = update s.heap a c }) ≡ registry s)
informed-IsSound s a c v m same = (
  changed-IsSound s (record s { heap = update s.heap a c }) a c v refl refl
      (ap (λ (e : Entry). e.id) same) v.in_turn
      (record {
        once = v.accounted.once;
        owned = λ p. omega (
          arith,
          v.accounted.owned p,
          held-update s.heap a c (visible s.clients) p (once_in s a v m),
          ap (λ (e : Entry). count p (server_ports e.tunnels)) same,
        );
        single = v.accounted.single;
      }),
  registry_of-update_same s.heap a c (visible s.clients) same,
)

-- Stop of a client: its ports are given back.
pub stopped_at-IsSound :
    (s : Server) (a : ℕ)
    → IsSound s
    → has a (visible s.clients) ≡ true
    → IsSound (stopped_at a s)
      × (registry (stopped_at a s) ≡ change_id (s.heap a).id (λ ts. []) (registry s))
unfolding stopped_at client_stopped
stopped_at-IsSound s a v m = (
  changed-IsSound s (stopped_at a s) a stopped v refl refl refl v.in_turn (record {
    once = λ p. ground (arith, v.accounted.once p, freed p);
    owned = λ p. ground (
      arith,
      v.accounted.once p,
      v.accounted.owned p,
      freed p,
      held-update s.heap a stopped (visible s.clients) p (once_in s a v m),
      has→count p (server_ports (s.heap a).info.port_tunnels),
      not_has→count p (server_ports (s.heap a).info.port_tunnels),
    );
    single = v.accounted.single;
  }),
  registry_of-update s.heap a stopped (λ ts. []) (visible s.clients)
      (Distinct-Named s.heap a (visible s.clients) v.distinct m) refl,
)
  where
    stopped : Client
    stopped = (client_stopped (s.heap a) s.ports_manager).0

    freed :
        (p : ℕ)
        → (count p (stopped_at a s).ports_manager.ports_in_use ≡ (
            if has p (server_ports (s.heap a).info.port_tunnels)
            then 0
            else count p s.ports_manager.ports_in_use))
          × ((stopped_at a s).ports_manager.allowed_ports ≡ s.ports_manager.allowed_ports)
    freed p = release_tunnels_lem s.ports_manager (s.heap a).info.port_tunnels p
