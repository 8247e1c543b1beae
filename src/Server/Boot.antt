-- ===== src/Server/Boot.antt =====
-- The state that Start of src/joebot/server/server.go sets up, and the clients that connect.
use joebot.Prelude.{
  ℕ, zero, suc, ◌+◌, ◌≡◌, refl, ap, ◌∙◌, inl, inr, false, none, List, [], ◌∷◌, ◌++◌, arith,
  Option-cases, Result-cases, length, take, length-append, take-append, count, count-append,
  not_has→count, GoString,
}
use joebot.Ports.{Os, reserve_port, new_ports_manager}
use joebot.Ports.Reserve.{Reserves, reserved, refused, reserve_port-Reserves}
use joebot.Slices.{visible, append_one}
use joebot.Slices.Removal.{over}
use joebot.Server.{GostTunnel, Server, update, new_client, add_client}
use joebot.Server.Accounting.{Accounted, gost_ports, held-append, held-update_absent}
use joebot.Server.Tunnel.{new_gost_tunnel}
use joebot.Server.Startup.{
  new_server, Started, start_tunnels, Listening, listen_result, server_start, accept_client,
}

gost_ports-append :
    (gs : List GostTunnel) (g : GostTunnel)
    → gost_ports (gs ++ (g ∷ [])) ≡ gost_ports gs ++ (g.port ∷ [])
gost_ports-append [] g = refl
gost_ports-append (x ∷ xs) g = ap (λ r. x.port ∷ r) (gost_ports-append xs g)

-- What the loop of the tunnel services has done when it ends.
abbrev Starts : List ℕ → Server → ℕ → Started → Type 0
Starts clients s rounds r =
    Accounted clients r.server
    × (r.error ≡ none → length r.server.gost_tunnels ≡ length s.gost_tunnels + rounds)
    × (r.server.gost_tunnel_start_index ≡ s.gost_tunnel_start_index)

start_tunnels_step :
    (os : Os) (now : ℕ) (clients : List ℕ) (rounds : ℕ) (s : Server) (t : ℕ)
    → ((s' : Server) (t' : ℕ)
        → Accounted clients s'
        → Starts clients s' rounds (start_tunnels os now s' t' rounds))
    → Accounted clients s
    → Starts clients s (suc rounds) (start_tunnels os now s t (suc rounds))
unfolding start_tunnels
start_tunnels_step os now clients rounds s t later v =
    go (reserve_port-Reserves os s.ports_manager t)
  where
    go :
        Reserves s.ports_manager (reserve_port os s.ports_manager t)
        → Starts clients s (suc rounds) (start_tunnels os now s t (suc rounds))
    go (refused e given same) =
        rw (given, start_tunnels)
          (rw same (record { once = v.once; owned = v.owned; single = v.single }), λ x. cc, refl)
    go (reserved p given fresh put) =
        let s' : Server = record s {
          ports_manager = (reserve_port os s.ports_manager t).manager;
          gost_tunnels = s.gost_tunnels ++ (new_gost_tunnel p now ∷ []);
        } in
        let v' : Accounted clients s' = record {
          once = λ q.
              ground (arith, put, v.once q, not_has→count p s.ports_manager.ports_in_use fresh);
          owned = λ q.
              unfold new_gost_tunnel in
              ground (
                arith,
                put,
                v.owned q,
                gost_ports-append s.gost_tunnels (new_gost_tunnel p now),
                count-append q (gost_ports s.gost_tunnels) (p ∷ []),
              );
          single = v.single;
        } in
        let (w, full, index) = later s' (reserve_port os s.ports_manager t).time v' in
        rw (given, start_tunnels)
          (
            w,
            λ x. omega (arith, full x, length-append s.gost_tunnels (new_gost_tunnel p now ∷ [])),
            index,
          )

start_tunnels-Accounted :
    (os : Os) (now : ℕ) (clients : List ℕ) (rounds : ℕ) (s : Server) (t : ℕ)
    → Accounted clients s
    → Starts clients s rounds (start_tunnels os now s t rounds)
start_tunnels-Accounted os now clients zero s t v =
    unfold start_tunnels in (v, λ e. omega arith, refl)
start_tunnels-Accounted os now clients (suc rounds) s t v =
    start_tunnels_step os now clients rounds s t
      (λ s' t'. start_tunnels-Accounted os now clients rounds s' t') v

new_server-Accounted : Accounted [] new_server
unfolding new_server new_ports_manager
new_server-Accounted = record {
  once = λ p. omega arith;
  owned = λ p. refl;
  single = λ a. omega arith;
}

-- The accounting after Start, and its services if there is no error.
server_start-outcome :
    (os : Os) (now : ℕ) (l : Listening) (t : ℕ)
    → let r = (server_start os now l new_server t).0 in
      Accounted [] r.server
      × (r.error ≡ none
          → (length r.server.gost_tunnels ≡ 30) × (r.server.gost_tunnel_start_index ≡ 0))
unfolding server_start new_server
server_start-outcome os now l t =
    let (v, full, index) = start_tunnels-Accounted os now [] 30 new_server t new_server-Accounted in
    elim (Option-cases (start_tunnels os now new_server t 30).error) [
      | inr (e, fails) ↦ rw (fails, server_start) (v, λ x. absurd (cc (fails, x)))
      | inl fine ↦ elim (Result-cases (listen_result l)) [
        | inr (e, fails) ↦
            rw (fine, fails, server_start)
              (record { once = v.once; owned = v.owned; single = v.single }, λ x. cc)
        | inl (c, done) ↦
            rw (fine, done, server_start)
              (
                record { once = v.once; owned = v.owned; single = v.single },
                λ x. (full fine, index),
              )
      ]
    ]

-- Start of a new server keeps the accounting, whatever fails: no port is recorded twice, and each
-- port in use is that of one tunnel service.
pub server_start-Accounted :
    (os : Os) (now : ℕ) (l : Listening) (t : ℕ)
    → Accounted [] (server_start os now l new_server t).0.server
server_start-Accounted os now l t = (server_start-outcome os now l t).0

-- If Start of a new server returns no error, the server has 30 tunnel services and the next one is
-- the first.
pub server_start_lem :
    (os : Os) (now : ℕ) (l : Listening) (t : ℕ)
    → (server_start os now l new_server t).0.error ≡ none
    → (length (server_start os now l new_server t).0.server.gost_tunnels ≡ 30)
      × ((server_start os now l new_server t).0.server.gost_tunnel_start_index ≡ 0)
server_start_lem os now l t e = (server_start-outcome os now l t).1 e

take_one_more :
    (xs : List ℕ) (a : ℕ) (rest : List ℕ)
    → take (suc (length xs)) (xs ++ (a ∷ rest)) ≡ xs ++ (a ∷ [])
take_one_more [] a rest = refl
take_one_more (x ∷ xs) a rest = ap (λ r. x ∷ r) (take_one_more xs a rest)

visible-append_one :
    (xs junk : List ℕ) (a : ℕ) → visible (append_one (over xs junk) a) ≡ xs ++ (a ∷ [])
unfolding append_one
visible-append_one xs junk a = rw (take-append xs junk) (take_one_more xs a _)

-- While the context is not done, a connection that is accepted adds a new client at a fresh
-- address to the end of the list, and the accounting is kept: the client holds no port.
pub accept_client-Accounted :
    (clients junk : List ℕ) (s : Server) (a : ℕ) (id : GoString)
    → count a clients ≡ 0
    → s.clients ≡ over clients junk
    → s.cancelled ≡ false
    → Accounted clients s
    → Accounted (clients ++ (a ∷ [])) (accept_client s a id)
      × (visible (accept_client s a id).clients ≡ clients ++ (a ∷ []))
unfolding accept_client add_client new_client
accept_client-Accounted clients junk s a id new shown running v =
    rw (running, accept_client)
      (
        record {
          once = v.once;
          owned = λ p. ground (
            arith,
            v.owned p,
            held-append (update s.heap a (new_client id)) clients (a ∷ []) p,
            held-update_absent s.heap a (new_client id) clients p new,
          );
          single = λ b. ground (arith, v.single b, count-append b clients (a ∷ []));
        },
        ap (λ l. visible (append_one l a)) shown ∙ visible-append_one clients junk a,
      )
