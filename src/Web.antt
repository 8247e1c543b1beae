-- ===== src/Web.antt =====
-- The web portal's API: src/joebot/middleware/middleware.go, src/joebot/handlers/clients.go and
-- src/joebot/routes/api.go.
pub mod Calls
pub mod Requests
use joebot.Prelude.{
  ℕ, zero, suc, ◌+◌, ◌-◌, ◌*◌, ◌/◌, ◌%◌, ◌^◌, ◌≤◌, ◌<◌, ◌≡◌, refl, sym, ap, ◌∙◌, ◌≢◌, ◌↔◌, ◌⊎◌, inl,
  inr, Bool, true, false, not, ◌&&◌, ◌||◌, Option, none, some, List, [], ◌∷◌, ◌++◌, map, arith, ltb,
  leb, ◌==◌, if◌then◌else◌, ==_refl, ==_iff, ltb→lt, lt→ltb, leb→le, Bool-cases, Option-cases,
  some-eq, Result-cases, str_eq, str_eq→eq, str_eq_refl, length, get_elem?, take, drop, replicate,
  All, length-append, All-append, All-left, All-right, length-replicate, take_all, take-append,
  drop-append, count, has, without, count-append, has→count, not_has→count, count-without_self,
  count-without, without_absent, GoString, str, GoError, fault, message, wrap, Result, ok, err,
  ◌>>=◌, ◌>>◌, wrapped,
}
use mathlib.Core.Option
use joebot.Accounts.{
  Database, UserInfoResponse, get_all_user, get_user_ip_whitelisted, create_user, user_login,
}
use joebot.Models.{ClientInfo, PortTunnelInfo, UserInfo, UserResponse, BulkInstallInfo}
use joebot.Ports.{Os}
use joebot.Server.{Server, get_clients_list, get_client_by_id}
use joebot.Server.Tunnel.{Gob, Exchange, Turn, Tunnelled, call_create_tunnel}
use joebot.Strings.{ℤ, pos, negsuc, atoi}

-- The value that a handler gives to c.JSON. `method_value` is a function that is not called.
pub data Payload : Type 0 where
  clients : List ClientInfo → Payload
  users : List UserInfoResponse → Payload
  ips : List GoString → Payload
  user : UserInfo → Payload
  login : UserResponse → Payload
  tunnel : PortTunnelInfo → Payload
  problem : GoError → Payload
  error_map : GoString → Payload
  method_value : Payload

-- A handler writes a status with a value, or a text, or returns an error to the framework.
pub data Response : Type 0 where
  json : ℕ → Payload → Response
  text : ℕ → GoString → Response
  returned : GoError → Response

-- The part of a request that the code reads.
pub record Request : Type 0 where
  pub path : GoString
  pub authorization : GoString
  pub real_ip : GoString
  pub id_param : GoString
  pub target_client_port : GoString
  pub username : GoString
  pub password : GoString
  pub bound_user : Result UserInfo
  pub bound_install : Result BulkInstallInfo

pub data Route : Type 0 where
  get_clients get_users get_ip_whitelisted create_user_route login_route : Route
  create_tunnel_route bulk_install_route : Route

-- `len(token) > 7 && token[:7] == "Bearer "`.
unfoldable pub strip_bearer : GoString → GoString
strip_bearer token =
    if ltb 7 (length token) && str_eq (take 7 token) (str "Bearer ") then drop 7 token else token

-- AuthMiddleware: the token that the next handler gets, if it is called. Login gets none.
pub data Passed : Type 0 where
  unauthorized : Passed
  next_login : Passed
  next_with : GoString → Passed

unfoldable pub auth_decide : GoString → GoString → Passed
unfolding strip_bearer
auth_decide path authorization =
    if str_eq path (str "/api/login")
    then next_login
    else if str_eq authorization []
    then unauthorized
    else next_with (strip_bearer authorization)

unfoldable pub auth_middleware : Request → Passed
unfolding auth_decide
auth_middleware r = auth_decide r.path r.authorization

-- RegisterAPI: the group's prefix is /api.
unfoldable pub route_path : Route → GoString
route_path get_clients = str "/api/clients"
route_path get_users = str "/api/users"
route_path get_ip_whitelisted = str "/api/users/ip-whitelisted"
route_path create_user_route = str "/api/users"
route_path login_route = str "/api/login"
route_path create_tunnel_route = str "/api/client/:id"
route_path bulk_install_route = str "/api/bulk-install"

-- The server and the database, which the handlers share.
pub record Site (D : Type 0) : Type 0 where
  pub server : Server
  pub data_base : D

-- What the handlers depend on: the system, the session of the client, the time, and the statements.
pub record Surroundings (D : Type 0) : Type 0 where
  pub os : Os
  pub gob : Gob
  pub link : Exchange
  pub turn : Turn
  pub time : ℕ
  pub db : Database D
  pub sign : GoString → ℕ → Result GoString
  pub now : ℕ
  pub install : BulkInstallInfo → Result GoString

unfoldable pub is_port : ℤ × Bool → Option ℕ
is_port (pos zero, fine) = none
is_port (pos (suc n), true) = some (suc n)
is_port (pos (suc n), false) = none
is_port (negsuc n, fine) = none

abbrev respond {ℓ} : {A : Type ℓ} → Result A → (A → Payload) → Response
respond (ok a) f = json 200 (f a)
respond (err e) f = json 400 (problem e)

module _ {D : Type 0} (w : Surroundings D) where
  -- CreateTunnel; `none` is a panic.
  unfoldable pub create_tunnel_handler : Site D → Request → Option (Site D × Response)
  unfolding is_port
  create_tunnel_handler s r = elim (get_client_by_id s.server r.id_param) [
    | err e ↦ some (s, json 404 (problem e))
    | ok a ↦ elim (is_port (atoi r.target_client_port)) [
      | none ↦ some (s, json 400 (problem (message (str "Invalid target_client_port"))))
      | some port ↦ elim (call_create_tunnel w.os w.gob s.server a w.link w.turn port w.time) [
        | none ↦ none
        | some t ↦ some (
          record s { server = t.server },
          elim t.result [ ok info ↦ json 200 (tunnel info) | err e ↦ json 500 (problem e) ],
        )
      ]
    ]
  ]

  unfoldable pub create_user_handler : Site D → Request → Site D × Response
  create_user_handler s r = elim r.bound_user [
    | err e ↦ (s, returned e)
    | ok u ↦ elim (create_user w.db s.data_base u) [
      | err e ↦ (s, json 400 (problem e))
      | ok d ↦ (record s { data_base = d }, json 200 (user u))
    ]
  ]

  unfoldable pub login_handler : Site D → Request → Site D × Response
  login_handler s r =
      let (d, result) = user_login w.db w.sign w.now s.data_base r.real_ip r.username r.password in
      (record s { data_base = d }, respond result login)

  unfoldable pub bulk_install_handler : Request → Response
  bulk_install_handler r = elim r.bound_install [
    | err e ↦ returned e
    | ok info ↦ elim (w.install info) [ err e ↦ returned e | ok result ↦ text 200 result ]
  ]

  -- The handler of a route, with the token that the middleware set.
  unfoldable pub handle_route : Route → GoString → Site D → Request → Option (Site D × Response)
  unfolding create_tunnel_handler create_user_handler login_handler bulk_install_handler
  handle_route get_clients token s r = some (s, json 200 method_value)
  handle_route get_users token s r = some (s, respond (get_all_user w.db s.data_base) users)
  handle_route get_ip_whitelisted token s r =
      some (s, respond (get_user_ip_whitelisted w.db s.data_base token) ips)
  handle_route create_user_route token s r = some (create_user_handler s r)
  handle_route login_route token s r = some (login_handler s r)
  handle_route create_tunnel_route token s r = create_tunnel_handler s r
  handle_route bulk_install_route token s r = some (s, bulk_install_handler r)

  -- A request to the API: the middleware, then the route's handler. The path of the context is that
  -- of the route.
  unfoldable pub serve_api : Route → Site D → Request → Option (Site D × Response)
  unfolding auth_middleware handle_route
  serve_api route s r = elim (auth_middleware (record r { path = route_path route })) [
    | unauthorized ↦ some (s, json 401 (error_map (str "missing or invalid token")))
    | next_login ↦ handle_route route [] s r
    | next_with token ↦ handle_route route token s r
  ]
