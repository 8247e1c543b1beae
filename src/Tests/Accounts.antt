-- ===== src/Tests/Accounts.antt =====
-- A database with one user, and requests to the API, for the tests of src/joebot/repository,
-- src/joebot/server and src/joebot/handlers.
use joebot.Prelude.{
  ℕ, ◌≡◌, ◌⊎◌, refl, sym, ap, ◌∙◌, Bool, true, false, ◌&&◌, [], ◌∷◌, arith, if◌then◌else◌, str_eq,
  str_eq→eq, str_eq_refl, GoString, str, fault, Result, ok, err,
}
use mathlib.Core.Path.{subst}
use joebot.Accounts.{Database, IsDatabase, row, no_rows, user_login, get_user_by_user_password}
use joebot.Accounts.Login.{user_login_lem}
use joebot.Models.{UserInfo}
use joebot.Server.Registry.{serves}
use joebot.Server.Runs.{Runs}
use joebot.Server.Steps.{Returns}
use joebot.Tests.Runs.{empty_site, one_up, one_up_run, up_calls, one_up-Ready}
use joebot.Web.Calls.{serve_api_returns}
use joebot.Tests.Server.{no_tls, started, some_gob, three_clients, confirming, some_turn}
use joebot.Tests.System.{free_os}
use joebot.Web.{
  Surroundings, Site, Request, serve_api, handle_route, get_users, create_tunnel_route,
}
use joebot.Web.Requests.{serve_api_any_token}

-- The table has one row; a statement for another user finds nothing, and no user can be added.
abbrev one_user : Database UserInfo
one_user = record {
  select_by_username = λ d name. if str_eq d.username name then row d else no_rows;
  select_by_password = λ d name password.
      if str_eq d.username name && str_eq d.password password then row d else no_rows;
  select_by_token = λ d token. if str_eq d.token token then row d else no_rows;
  select_all = λ d. ok (d ∷ []);
  insert = λ d u. err (fault 1);
  update_token =
      λ d name token. ok (if str_eq d.username name then record d { token = token } else d);
  update_whitelist =
      λ d name ips. ok (if str_eq d.username name then record d { ip_whitelisted = ips } else d);
}

row-eq : {u v : UserInfo} → row u ≡ row v → u ≡ v
row-eq e = cc

ok-eq : {u v : UserInfo} → ok u ≡ ok v → u ≡ v
ok-eq e = cc

-- The row that a test lets through.
picked : (b : Bool) (d u : UserInfo) → (if b then row d else no_rows) ≡ row u → (b ≡ true) × (d ≡ u)
picked true d u e = (refl, row-eq e)
picked false d u e = cc

both : (a b : Bool) → (a && b) ≡ true → (a ≡ true) × (b ≡ true)
both a b e = ground arith

-- The row after a change that keeps the name.
changed :
    (f : UserInfo → UserInfo) (d d' u : UserInfo) (name : GoString)
    → ((x : UserInfo) → (f x).username ≡ x.username)
    → (if str_eq d.username name then row d else no_rows) ≡ row u
    → ok (if str_eq d.username name then f d else d) ≡ ok d'
    → (if str_eq d'.username name then row d' else no_rows) ≡ row (f u)
changed f d d' u name keeps found done =
    let (named, same) = picked (str_eq d.username name) d u found in
    let after : f d ≡ d' = ok-eq (rw named at done) in
    subst (λ x. (if str_eq x.username name then row x else no_rows) ≡ row (f u)) after
      (rw (ap (λ n. str_eq n name) (keeps d) ∙ named) (ap (λ x. row (f x)) same))

one_user-IsDatabase : IsDatabase one_user
one_user-IsDatabase = record {
  inserted = λ d d' u e. cc;
  insert_other = λ d d' u name e other. cc;
  by_password = λ d u name e.
      let (named, same) = picked (str_eq d.username name) d u e in
      rw
        (
          named,
          ap (λ (x : UserInfo). str_eq d.password x.password) (sym same) ∙ str_eq_refl d.password,
        )
        (ap row same);
  by_password_sound = λ d u name password e.
      let (all, same) = picked (str_eq d.username name && str_eq d.password password) d u e in
      let (named, right) = both _ _ all in
      (
        rw named (ap row same),
        ap (λ (x : UserInfo). x.username) (sym same) ∙ str_eq→eq d.username name named,
        ap (λ (x : UserInfo). x.password) (sym same) ∙ str_eq→eq d.password password right,
      );
  token_updated =
      λ d d' u name token. changed (λ x. record x { token = token }) d d' u name (λ x. refl);
  whitelist_updated =
      λ d d' u name ips. changed (λ x. record x { ip_whitelisted = ips }) d d' u name (λ x. refl);
}

abbrev alice : UserInfo
alice = record {
  id = 1;
  username = str "alice";
  password = str "pw";
  is_admin = false;
  token = [];
  ip_whitelisted = [];
}

abbrev sign : GoString → ℕ → Result GoString
sign name expiry = ok (expiry ∷ name)

abbrev seen : UserInfo
seen = record alice { token = 24 ∷ str "alice"; ip_whitelisted = str "10.0.0.1" }

logged_in :
    user_login one_user sign 0 alice (str "10.0.0.1") (str "alice") (str "pw")
    ≡ (seen, ok (record { username = str "alice"; token = 24 ∷ str "alice"; expired_at = 24 }))
unfolding user_login get_user_by_user_password str_eq
logged_in = refl

user_login_lem_example :
    (u : UserInfo) × (one_user.select_by_username alice (str "alice") ≡ row u)
    × (u.password ≡ str "pw")
    × (sign (str "alice") 24 ≡ ok (24 ∷ str "alice"))
    × (one_user.select_by_username seen (str "alice")
        ≡ row (record u { token = 24 ∷ str "alice"; ip_whitelisted = str "10.0.0.1" }))
user_login_lem_example =
    user_login_lem one_user one_user-IsDatabase sign 0 alice seen (str "10.0.0.1") (str "alice")
      (str "pw") (record { username = str "alice"; token = 24 ∷ str "alice"; expired_at = 24 })
      logged_in

abbrev around : Surroundings UserInfo
around = record {
  os = free_os;
  gob = some_gob;
  link = confirming;
  turn = some_turn;
  time = 0;
  db = one_user;
  sign = sign;
  now = 0;
  install = λ info. ok [];
}

abbrev site : Site UserInfo
site = record { server = three_clients; data_base = alice }

abbrev asking : Request
asking = record {
  path = [];
  authorization = [];
  real_ip = str "10.0.0.1";
  id_param = [];
  target_client_port = [];
  username = [];
  password = [];
  bound_user = err (fault 1);
  bound_install = err (fault 1);
}

serve_api_any_token_example :
    serve_api around get_users site (record asking { authorization = str "Bearer nonsense" })
    ≡ handle_route around get_users
        (str "nonsense")
        site
        (record asking { authorization = str "Bearer nonsense" })
serve_api_any_token_example =
    serve_api_any_token around get_users site
      (record asking { authorization = str "Bearer nonsense" }) (str "nonsense") (λ e. cc) refl
      (λ e. cc)

-- A request for a tunnel to a client that has connected.
abbrev tunnel_request : Request
tunnel_request = record asking {
  authorization = str "Bearer token";
  id_param = 1 ∷ [];
  target_client_port = str "22";
}

serve_api_returns_example :
    Returns
      (serve_api around create_tunnel_route
        (record { server = one_up; data_base = alice })
        tunnel_request)
      (λ x.
        (x.0.server ≡ one_up)
        ⊎ ((id : GoString) × Runs free_os some_gob empty_site (serves id ∷ up_calls) x.0.server))
serve_api_returns_example =
    serve_api_returns around 0 no_tls 0 started (record { server = one_up; data_base = alice })
      up_calls one_up_run create_tunnel_route tunnel_request one_up-Ready
