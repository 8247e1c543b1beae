-- ===== src/Web/Requests.antt =====
-- Which requests get past the middleware of src/joebot/middleware/middleware.go, and what the
-- handlers of src/joebot/handlers/clients.go answer.
use joebot.Prelude.{
  ◌∙◌, ℕ, ◌≡◌, refl, ◌≢◌, false, none, some, [], ◌∷◌, ◌++◌, arith, if◌then◌else◌, lt→ltb, str_eq,
  length, GoString, str, GoError, message, ok, err,
}
use joebot.Server.{get_client_by_id}
use joebot.Strings.{atoi}
use joebot.Web.{
  problem, error_map, json, Request, Route, login_route, get_clients, get_users, get_ip_whitelisted,
  create_user_route, create_tunnel_route, bulk_install_route, strip_bearer, unauthorized, next_with,
  auth_decide, auth_middleware, route_path, Site, Surroundings, is_port, create_tunnel_handler,
  handle_route, serve_api,
}

-- The login is the only route that the middleware lets through at once.
route_path-login :
    (route : Route) → route ≢ login_route → str_eq (route_path route) (str "/api/login") ≡ false
unfolding route_path str_eq
route_path-login get_clients other = refl
route_path-login get_users other = refl
route_path-login get_ip_whitelisted other = refl
route_path-login create_user_route other = refl
route_path-login login_route other = absurd (other refl)
route_path-login create_tunnel_route other = refl
route_path-login bulk_install_route other = refl

not_empty : (s : GoString) → s ≢ [] → str_eq s [] ≡ false
unfolding str_eq
not_empty [] h = absurd (h refl)
not_empty (c ∷ s) h = refl

auth_other :
    (path authorization : GoString)
    → str_eq path (str "/api/login") ≡ false
    → auth_decide path authorization
      ≡ (if str_eq authorization [] then unauthorized else next_with (strip_bearer authorization))
unfolding auth_decide
auth_other path authorization e = rw e

-- Without an Authorization header every route but the login answers 401 and changes nothing.
serve_api_unauthorized :
    {D : Type 0} (w : Surroundings D) (route : Route) (s : Site D) (r : Request)
    → route ≢ login_route
    → r.authorization ≡ []
    → serve_api w route s r ≡ some (s, json 401 (error_map (str "missing or invalid token")))
unfolding serve_api auth_middleware str_eq
serve_api_unauthorized w route s r other none_given =
    rw
      (
        auth_other (route_path route) r.authorization (route_path-login route other),
        none_given,
        serve_api,
      )
      refl

-- What follows the word Bearer is the token.
strip_bearer_lem : (token : GoString) → token ≢ [] → strip_bearer (str "Bearer " ++ token) ≡ token
unfolding strip_bearer str_eq
strip_bearer_lem [] h = absurd (h refl)
strip_bearer_lem (c ∷ s) h = rw (lt→ltb 7 (length (str "Bearer " ++ (c ∷ s))) (omega arith)) refl

-- With an Authorization header of the word Bearer and any token, a request for a route other than the
-- login is given to the handler of the route with exactly the token.
pub serve_api_any_token :
    {D : Type 0} (w : Surroundings D) (route : Route) (s : Site D) (r : Request) (token : GoString)
    → route ≢ login_route
    → r.authorization ≡ str "Bearer " ++ token
    → token ≢ []
    → serve_api w route s r ≡ handle_route w route token s r
unfolding serve_api auth_middleware str_eq
serve_api_any_token w route s r token other given some_token = rw (passes, serve_api) refl
  where
    passes : auth_decide (route_path route) r.authorization ≡ next_with token
    passes =
        auth_other (route_path route) r.authorization (route_path-login route other)
        ∙ rw (given, strip_bearer_lem token some_token) refl

-- CreateTunnel answers 404 to an unknown client and 400 to a port that is no positive number, and
-- changes nothing then.
create_tunnel_handler_refused :
    {D : Type 0} (w : Surroundings D) (s : Site D) (r : Request)
    → ((e : GoError)
        → get_client_by_id s.server r.id_param ≡ err e
        → create_tunnel_handler w s r ≡ some (s, json 404 (problem e)))
      × ((a : ℕ)
          → get_client_by_id s.server r.id_param ≡ ok a
          → is_port (atoi r.target_client_port) ≡ none
          → create_tunnel_handler w s r
            ≡ some (s, json 400 (problem (message (str "Invalid target_client_port")))))
unfolding create_tunnel_handler
create_tunnel_handler_refused w s r =
    (λ e x. rw (x, create_tunnel_handler), λ a x y. rw (x, y, create_tunnel_handler))
