-- ===== src/Server/Reached.antt =====
-- What holds of the server of src/joebot/server/server.go, once Start has returned without an error,
-- after any calls.
use joebot.Prelude.{
  GoError, err, false, All, str_eq, ◌==◌, ==_iff, Bool-cases, inl, inr, ℕ, ◌≡◌, ◌≤◌, refl, sym, ap,
  ◌∙◌, true, arith, none, some, ok, List, [], ◌∷◌, ◌++◌, has, length, GoString, Result,
}
use mathlib.Core.Path.{subst}
use joebot.Ports.{Os, reserve_port}
use joebot.Server.Distinct.{All-has, Distinct-Named, ids}
use joebot.Server.Registry.Apart.{Apart, AllApart, AllApart-Changes}
use joebot.Server.Lookup.{get_client_by_id_during}
use joebot.Server.Lookup.Found.{get_client_by_id_during_lem}
use joebot.Server.Shutdown.{survivors, server_stop-survivors}
use joebot.Server.Members.{over-visible, behind}
use joebot.Server.{is_set, stop_at-unset, Client, has_listener, Server, remove_client, server_stop}
use joebot.Server.Accounting.{server_ports}
use joebot.Server.Boot.{server_start-Accounted, server_start_lem}
use joebot.Server.Leaving.{Ready, has-middle, remove_client_returns, remove_client_panics}
use joebot.Server.Registry.{Registry, Call, leaves, serves, Changes, registry, registry_of}
use joebot.Server.Runs.{
  Runs, next, tunnels, starts, fails, removes, Runs-Goes, server_start_no_clients,
}
use joebot.Server.Services.{Talk, client_start, exit_if_error}
use joebot.Server.Sound.{IsSound, create_tunnel-IsSound}
use joebot.Server.Startup.{new_server, Listening, server_start}
use joebot.Server.Steps.{Returns, client_start-IsSound, exit_if_error_returns}
use joebot.Server.Tunnel.{
  Gob, Exchange, Turn, call_create_tunnel, call_create_tunnel-set, asks_nil, find_tunnel,
}
use joebot.Slices.{Slice, visible}

-- The ports on the server of all tunnels of a registry.
abbrev pub tunnel_ports : Registry → List ℕ
tunnel_ports [] = []
tunnel_ports (e ∷ es) = server_ports e.tunnels ++ tunnel_ports es

Apart-member :
    (heap : ℕ → Client) (a : ℕ) (xs : List ℕ)
    → AllApart (registry_of heap xs)
    → has a xs ≡ true
    → Apart (heap a).info.port_tunnels
Apart-member heap a [] h m = cc
Apart-member heap a (x ∷ xs) h m = elim (Bool-cases (x == a)) [
  | inl same ↦ subst (λ y. Apart (heap y).info.port_tunnels) ((==_iff x a).0 same) h.0
  | inr other ↦ Apart-member heap a xs h.1 (ground (arith, other, m))
]

All-of : (P : ℕ → Type 0) (xs : List ℕ) → ((a : ℕ) → has a xs ≡ true → P a) → All P xs
All-of P [] f = tt
All-of P (x ∷ xs) f = (f x (has-middle [] x xs), All-of P xs (λ a m. f a (ground (arith, m))))

module _ (os : Os) (gob : Gob) (now : ℕ) (l : Listening) (t : ℕ)
    (up : (server_start os now l new_server t).0.error ≡ none) where
  abbrev first : Server
  first = (server_start os now l new_server t).0.server

  nobody : visible first.clients ≡ []
  nobody = ap visible (server_start_no_clients os now l t) ∙ (unfold new_server in refl)

  first-IsSound : IsSound first
  first-IsSound =
      let (full, turn) = server_start_lem os now l t up in
      record {
        accounted = rw nobody (server_start-Accounted os now l t);
        shape =
            subst (λ (k : Slice ℕ). k.len ≤ length k.cells)
              (sym (server_start_no_clients os now l t)) (unfold new_server in omega arith);
        distinct = rw nobody tt;
        in_turn = omega (arith, full, turn);
      }

  module _ (s : Server) (calls : List Call) (run : Runs os gob first calls s) where
    -- The server is sound after any calls: the ports in use are accounted for, once each, no two
    -- clients have one ID, and the next tunnel service exists.
    pub reached-IsSound : IsSound s
    reached-IsSound = (Runs-Goes os gob run first-IsSound).0

    -- The list of clients implements the registry: once Start has returned without an error, after
    -- any list of calls, the clients in the list with their tunnels are what the registry's steps
    -- for these same calls make of no clients. So a client is there from the call with which it
    -- entered to the first with which it left, in the order of entering, and has only tunnels that
    -- were asked for it.
    pub reached-Changes : Changes [] calls (registry s)
    reached-Changes =
        subst (λ g. Changes g calls (registry s)) (ap (λ xs. registry_of first.heap xs) nobody)
          (Runs-Goes os gob run first-IsSound).1

    -- Once Start has returned without an error, after any calls each of which has returned before the
    -- next begins, a client of the list has at most one tunnel to each of its ports, and another
    -- client of the list has another ID.
    reached-Apart :
        (a b : ℕ)
        → has a (visible s.clients) ≡ true
        → has b (visible s.clients) ≡ true
        → Apart (s.heap a).info.port_tunnels × (str_eq (s.heap b).id (s.heap a).id ≡ (a == b))
    reached-Apart a b m n = (
      Apart-member s.heap a (visible s.clients) (AllApart-Changes reached-Changes tt) m,
      All-has _ (visible s.clients) b
          (Distinct-Named s.heap a (visible s.clients) reached-IsSound.distinct m) n,
    )

    -- Once Start has returned without an error, after any calls, none of which is Stop of the server,
    -- Start of a client of the list that gets its yamux session returns, whichever of its services
    -- fail, and is one call more.
    pub reached_start :
        (a : ℕ) (talks : Talk × Talk × Talk × Talk) (time : ℕ)
        → has a (visible s.clients) ≡ true
        → Returns
            (client_start os gob s a (ok tt) talks time)
            (λ r. Runs os gob first (serves (s.heap a).id ∷ calls) r.0)
    reached_start a talks time m =
        let (k, began, _) = client_start-IsSound os gob s a talks time reached-IsSound m in
        (k, began, next run (starts a (ok tt) talks time k.1 m began))

    -- Once Start has returned without an error, after any calls, none of which is Stop of the server,
    -- where every client of the list has a session: CreateTunnel and ExitIfError on a client of the
    -- list return, and RemoveClient returns for every ID. Each is one call more.
    pub reached_returns :
        (a : ℕ) (link : Exchange) (turn : Turn) (client_port time : ℕ) (id : GoString)
        → has a (visible s.clients) ≡ true
        → Ready s
        → Returns
            (call_create_tunnel os gob s a link turn client_port time)
            (λ r. Runs os gob first (serves (s.heap a).id ∷ calls) r.server)
          × Returns (exit_if_error s a) (λ s'. Runs os gob first (leaves (s.heap a).id ∷ calls) s')
          × Returns (remove_client s id) (λ r. Runs os gob first (leaves id ∷ calls) r.0)
    reached_returns a link turn client_port time id m ready =
        let v = reached-IsSound in
        let (r, made, _, _, _, _) =
          create_tunnel-IsSound os gob s a link turn client_port time v m in
        let given =
          call_create_tunnel-set os gob s a link turn client_port time (ready a m) ∙ made in
        let (s', res, done, _, _) = remove_client_returns s id v ready in
        let (s'', failed) = exit_if_error_returns s a v m ready in
        (
          (r, given, next run (tunnels a link turn client_port time r m given refl)),
          (s'', failed, next run (fails a m failed)),
          ((s', res), done, next run (removes id res done)),
        )

    -- Once Start has returned without an error, after any calls, for a client of the list that has no
    -- session, since it was accepted and has not been started: RemoveClient with its ID and
    -- ExitIfError panic, and so do its Start when the yamux session cannot be made, and CreateTunnel
    -- when a port can be reserved and the client has no tunnel to the port asked for.
    pub reached_panics :
        (a : ℕ) (link : Exchange) (turn : Turn) (client_port : ℕ) (e : GoError)
        (talks : Talk × Talk × Talk × Talk) (time p : ℕ)
        → has a (visible s.clients) ≡ true
        → is_set (s.heap a).session ≡ false
        → find_tunnel client_port (s.heap a).info.port_tunnels ≡ none
        → (reserve_port os s.ports_manager time).port ≡ ok p
        → (remove_client s (s.heap a).id ≡ none)
          × (exit_if_error s a ≡ none)
          × (client_start os gob s a (err e) talks time ≡ none)
          × (call_create_tunnel os gob s a link turn client_port time ≡ none)
    unfolding exit_if_error client_start call_create_tunnel asks_nil
    reached_panics a link turn client_port e talks time p m not_set new given =
        let gives_up : exit_if_error s a ≡ none =
          rw (stop_at-unset a s not_set, exit_if_error) refl in
        (
          remove_client_panics s a reached-IsSound m not_set,
          gives_up,
          rw (gives_up, client_start) refl,
          rw (not_set, new, given, call_create_tunnel, asks_nil) refl,
        )

    -- Once Start has returned without an error, after any calls, where every client of the list has a
    -- session and the server its listener, Stop returns, and removes every second of the clients in
    -- the list and the last one; the others stay in the list.
    pub reached_stop :
        Ready s
        → has_listener s.listener ≡ true
        → (s' : Server) × (server_stop s ≡ some s')
          × (visible s'.clients ≡ survivors (visible s.clients))
    reached_stop ready up =
        server_stop-survivors (ids s.heap) s (visible s.clients) (behind s.clients)
          (over-visible s.clients reached-IsSound.shape) (λ a. refl) reached-IsSound.distinct
          (All-of _ (visible s.clients) ready) up

    -- Once Start has returned without an error, after any calls, where every client of the list has a
    -- session, a lookup returns whichever clients are removed between its rounds, and a client that it returns was in the list when it began and
    -- has the ID.
    pub reached_lookup :
        (id : GoString) (removals : List (List GoString))
        → Ready s
        → (s' : Server) × (res : Result ℕ) × (get_client_by_id_during s id removals
            ≡ some (s', res))
          × ((a : ℕ) → res ≡ ok a → ((s.heap a).id ≡ id) × (has a (visible s.clients) ≡ true))
    reached_lookup id removals ready =
        get_client_by_id_during_lem (ids s.heap) s (visible s.clients) (behind s.clients)
          (over-visible s.clients reached-IsSound.shape) (λ a. refl) reached-IsSound.distinct ready
          id removals
