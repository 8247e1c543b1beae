-- ===== src/Server/Runs.antt =====
-- The server of src/joebot/server/server.go from Start on: the calls of its clients, of the web API
-- and of the connections, in any order.
use joebot.Prelude.{
  ℕ, zero, suc, ◌≡◌, refl, sym, ◌∙◌, true, false, Option, some, List, [], ◌∷◌, some-eq,
  Result-cases, has, GoString, Result, inl, inr, Option-cases,
}
use mathlib.Core.Path.{subst}
use joebot.Ports.{Os, reserve_port}
use joebot.Server.{Server, remove_client}
use joebot.Server.Clients.{Lacks}
use joebot.Server.Members.{accept_client-IsSound}
use joebot.Server.Leaving.{remove_client-IsSound}
use joebot.Server.Registry.{
  Call, enters, leaves, serves, informs, served, opened, unopened, Changes, still, later, registry,
}
use joebot.Server.Services.{Talk, client_start, client_info_update, exit_if_error}
use joebot.Server.Sound.{IsSound, create_tunnel-IsSound}
use joebot.Server.Startup.{
  new_server, start_tunnels, Listening, listen_result, server_start, accept_client,
}
use joebot.Server.Steps.{
  Goes, Returns, start_call, client_start-Goes, exit_if_error-Goes, client_info_update-IsSound,
}
use joebot.Server.Tunnel.{
  Gob, Exchange, Turn, Tunnelled, call_create_tunnel, call_create_tunnel-some,
}
use joebot.Slices.{visible}

-- One call, on a client of the list where it is the call of a client. A client that connects has a
-- fresh address and an ID that no client has.
pub data Step (os : Os) (gob : Gob) (s s' : Server) : Call → Type 0 where
  accepts :
      (a : ℕ) (id : GoString)
      → s.cancelled ≡ false
      → has a (visible s.clients) ≡ false
      → Lacks s id (visible s.clients)
      → s' ≡ accept_client s a id
      → Step os gob s s' (enters id)
  starts :
      (a : ℕ) (session : Result (Unit {0})) (talks : Talk × Talk × Talk × Talk) (t t' : ℕ)
      → has a (visible s.clients) ≡ true
      → client_start os gob s a session talks t ≡ some (s', t')
      → Step os gob s s' (start_call session (s.heap a).id)
  tunnels :
      (a : ℕ) (link : Exchange) (turn : Turn) (client_port t : ℕ) (r : Tunnelled)
      → has a (visible s.clients) ≡ true
      → call_create_tunnel os gob s a link turn client_port t ≡ some r
      → s' ≡ r.server
      → Step os gob s s' (serves (s.heap a).id)
  updates :
      (a : ℕ) (body : List ℕ)
      → has a (visible s.clients) ≡ true
      → s' ≡ (client_info_update gob s a body).0
      → Step os gob s s' (informs (s.heap a).id)
  fails :
      (a : ℕ)
      → has a (visible s.clients) ≡ true
      → exit_if_error s a ≡ some s'
      → Step os gob s s' (leaves (s.heap a).id)
  removes :
      (id : GoString) (res : Result ℕ)
      → remove_client s id ≡ some (s', res)
      → Step os gob s s' (leaves id)

-- A list of calls, the last one first, and the server after them.
pub data Runs (os : Os) (gob : Gob) (s : Server) : List Call → Server → Type 0 where
  begun : Runs os gob s [] s
  next :
      {s' s'' : Server} {calls : List Call} {c : Call}
      → Runs os gob s calls s'
      → Step os gob s' s'' c
      → Runs os gob s (c ∷ calls) s''

of_returned : {A : Type 0} (o : Option A) (P : A → Type 0) (a : A) → Returns o P → o ≡ some a → P a
of_returned o P a (b, given, h) e = subst P (some-eq (sym given ∙ e)) h

-- Each call keeps a sound server sound, and the registry makes the step of the call.
Step-Goes :
    (os : Os) (gob : Gob) {s s' : Server} {c : Call} → Step os gob s s' c → IsSound s → Goes s c s'
Step-Goes os gob {s} (accepts a id running new unknown e) v =
    let (sound, change, _) = accept_client-IsSound s a id v running new unknown in
    rw e (sound, change)
Step-Goes os gob {s} {s'} (starts a session talks t t' m e) v =
    client_start-Goes os gob s a session talks t (s', t') v m e
Step-Goes os gob {s} (tunnels a link turn client_port t r m given e) v =
    let (r', given', sound, new, _, _) =
      create_tunnel-IsSound os gob s a link turn client_port t v m in
    rw
      (
        e,
        some-eq (sym (call_create_tunnel-some os gob s a link turn client_port t r given) ∙ given'),
      )
      (sound, served (s.heap a).id (opened unopened new))
Step-Goes os gob {s} (updates a body m e) v = rw e (client_info_update-IsSound gob s a body v m)
Step-Goes os gob {s} {s'} (fails a m e) v = exit_if_error-Goes s a s' v m e
Step-Goes os gob {s} {s'} (removes id res e) v = elim (remove_client-IsSound s id v) [
  | inl panics ↦ cc
  | inr (gone, res', given, sound, change) ↦
      of_returned _ (λ r. Goes s (leaves id) r.0) (s', res) ((gone, res'), given, (sound, change)) e
]

pub Runs-Goes :
    (os : Os) (gob : Gob) {s s' : Server} {calls : List Call}
    → Runs os gob s calls s'
    → IsSound s
    → IsSound s' × Changes (registry s) calls (registry s')
Runs-Goes os gob begun v = (v, still)
Runs-Goes os gob (next run step) v =
    let (w, so_far) = Runs-Goes os gob run v in
    let (w', change) = Step-Goes os gob step w in (w', later so_far change)

start_tunnels_no_clients :
    (os : Os) (now rounds : ℕ) (s : Server) (t : ℕ)
    → (start_tunnels os now s t rounds).server.clients ≡ s.clients
unfolding start_tunnels
start_tunnels_no_clients os now zero s t = refl
start_tunnels_no_clients os now (suc n) s t =
    elim (Result-cases (reserve_port os s.ports_manager t).port) [
      | inr (e, refuse) ↦ rw (refuse, start_tunnels) refl
      | inl (p, given) ↦ rw (given, start_tunnels) (start_tunnels_no_clients os now n _ _)
    ]

pub server_start_no_clients :
    (os : Os) (now : ℕ) (l : Listening) (t : ℕ)
    → (server_start os now l new_server t).0.server.clients ≡ new_server.clients
unfolding server_start
server_start_no_clients os now l t =
    elim (Option-cases (start_tunnels os now new_server t 30).error) [
      | inr (e, bad) ↦ rw (bad, server_start) (start_tunnels_no_clients os now 30 new_server t)
      | inl fine ↦ elim (Result-cases (listen_result l)) [
        | inr (e, bad) ↦
            rw (fine, bad, server_start) (start_tunnels_no_clients os now 30 new_server t)
        | inl (c, done) ↦
            rw (fine, done, server_start) (start_tunnels_no_clients os now 30 new_server t)
      ]
    ]
