-- ===== src/Web/Calls.antt =====
-- The API of src/joebot/handlers/clients.go on the server of src/joebot/server/server.go.
use joebot.Prelude.{
  ℕ, ◌∙◌, ◌≡◌, ◌⊎◌, refl, true, arith, Option, none, List, [], ◌∷◌, has, Bool-cases, Option-cases,
  Result-cases, GoString, ok, inl, inr,
}
use joebot.Server.{Server, has_id, find_id, get_client_by_id}
use joebot.Server.Reached.{reached-IsSound}
use joebot.Server.Registry.{Call, serves}
use joebot.Server.Runs.{Runs, next, tunnels}
use joebot.Server.Sound.{create_tunnel-IsSound}
use joebot.Server.Leaving.{Ready}
use joebot.Server.Tunnel.{call_create_tunnel-set}
use joebot.Server.Startup.{new_server, Listening, server_start}
use joebot.Server.Steps.{Returns}
use joebot.Slices.{visible}
use joebot.Strings.{atoi}
use joebot.Web.{
  Response, Request, Route, login_route, get_clients, get_users, get_ip_whitelisted,
  create_user_route, create_tunnel_route, bulk_install_route, unauthorized, next_login, next_with,
  Passed, auth_middleware, route_path, Site, Surroundings, is_port, create_tunnel_handler,
  create_user_handler, login_handler, handle_route, serve_api,
}

find_id-has :
    (s : Server) (id : GoString) (xs : List ℕ) (a : ℕ) → find_id s id xs ≡ ok a → has a xs ≡ true
unfolding find_id
find_id-has s id [] a e = cc
find_id-has s id (x ∷ xs) a e = elim (Bool-cases (has_id s id x)) [
  | inl hit ↦ ground (arith, hit, e)
  | inr miss ↦ ground (arith, miss, e, find_id-has s id xs a)
]

module _ {D : Type 0} (w : Surroundings D) (now : ℕ) (l : Listening) (t : ℕ)
    (up : (server_start w.os now l new_server t).0.error ≡ none) (s : Site D) (calls : List Call)
    (run : Runs w.os w.gob (server_start w.os now l new_server t).0.server calls s.server) where
  -- The server is as it was, or has served a client once more.
  abbrev Kept : Site D → Type 0
  Kept s' =
      (s'.server ≡ s.server)
      ⊎ ((id : GoString) × Runs w.os w.gob (server_start w.os now l new_server t).0.server
            (serves id ∷ calls) s'.server)

  abbrev Served : Option (Site D × Response) → Type 0
  Served o = Returns o (λ x. Kept x.0)

  create_tunnel_handler-Served :
      (r : Request) → Ready s.server → Served (create_tunnel_handler w s r)
  unfolding create_tunnel_handler get_client_by_id
  create_tunnel_handler-Served r ready =
      elim (Result-cases (get_client_by_id s.server r.id_param)) [
        | inr (e, unknown) ↦ rw (unknown, create_tunnel_handler) (_, refl, inl refl)
        | inl (a, known) ↦ elim (Option-cases (is_port (atoi r.target_client_port))) [
          | inl bad ↦ rw (known, bad, create_tunnel_handler) (_, refl, inl refl)
          | inr (port, good) ↦
              let m = find_id-has s.server r.id_param (visible s.server.clients) a known in
              let (k, made, _, _, _, _) =
                create_tunnel-IsSound w.os w.gob s.server a w.link w.turn port w.time
                  (reached-IsSound w.os w.gob now l t up s.server calls run) m in
              let given =
                call_create_tunnel-set w.os w.gob s.server a w.link w.turn port w.time (ready a m)
                ∙ made in
              rw (known, good, given, create_tunnel_handler)
                (
                  _,
                  refl,
                  inr (
                    (s.server.heap a).id,
                    next run (tunnels a w.link w.turn port w.time k m given refl),
                  ),
                )
        ]
      ]

  create_user_handler_server : (r : Request) → (create_user_handler w s r).0.server ≡ s.server
  unfolding create_user_handler
  create_user_handler_server r = ground arith

  handle_route-Served :
      (route : Route) (token : GoString) (r : Request)
      → Ready s.server
      → Served (handle_route w route token s r)
  unfolding handle_route login_handler
  handle_route-Served get_clients token r ready = (_, refl, inl refl)
  handle_route-Served get_users token r ready = (_, refl, inl refl)
  handle_route-Served get_ip_whitelisted token r ready = (_, refl, inl refl)
  handle_route-Served create_user_route token r ready =
      (_, refl, inl (create_user_handler_server r))
  handle_route-Served login_route token r ready = (_, refl, inl refl)
  handle_route-Served bulk_install_route token r ready = (_, refl, inl refl)
  handle_route-Served create_tunnel_route token r ready = create_tunnel_handler-Served r ready

  -- A request to the API of a server that was started without an error, after any calls, none of
  -- which is Stop of the server, where every client of the list has a session, is answered without a
  -- panic; it leaves the server as it is, or is one call more that serves a client.
  pub serve_api_returns :
      (route : Route) (r : Request)
      → Ready s.server
      → Returns (serve_api w route s r) (λ x.
        (x.0.server ≡ s.server)
        ⊎ ((id : GoString) × Runs w.os w.gob
              (server_start w.os now l new_server t).0.server
              (serves id ∷ calls)
              x.0.server))
  unfolding serve_api
  serve_api_returns route r ready = go (auth_middleware (record r { path = route_path route })) refl
    where
      go :
          (p : Passed)
          → auth_middleware (record r { path = route_path route }) ≡ p
          → Served (serve_api w route s r)
      go unauthorized e = rw (e, serve_api) (_, refl, inl refl)
      go next_login e = rw (e, serve_api) (handle_route-Served route [] r ready)
      go (next_with token) e = rw (e, serve_api) (handle_route-Served route token r ready)
