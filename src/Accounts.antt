-- ===== src/Accounts.antt =====
-- src/joebot/repository/users.go, and the user functions of src/joebot/server/server.go. The
-- database and the signing of tokens are parameters.
pub mod Whitelist
pub mod Login
use joebot.Prelude.{
  ℕ, zero, suc, ◌+◌, ◌-◌, ◌*◌, ◌/◌, ◌%◌, ◌^◌, ◌≤◌, ◌<◌, ◌≡◌, refl, sym, ap, ◌∙◌, ◌≢◌, ◌↔◌, ◌⊎◌, inl,
  inr, Bool, true, false, not, ◌&&◌, ◌||◌, Option, none, some, List, [], ◌∷◌, ◌++◌, map, arith, ltb,
  leb, ◌==◌, if◌then◌else◌, ==_refl, ==_iff, ltb→lt, lt→ltb, leb→le, Bool-cases, Option-cases,
  some-eq, Result-cases, str_eq, str_eq→eq, str_eq_refl, length, get_elem?, take, drop, replicate,
  All, length-append, All-append, All-left, All-right, length-replicate, take_all, take-append,
  drop-append, count, has, without, count-append, has→count, not_has→count, count-without_self,
  count-without, without_absent, GoString, str, GoError, fault, message, wrap, Result, ok, err,
  ◌>>=◌, ◌>>◌, wrapped,
}
use joebot.Models.{UserInfo, UserResponse}
use joebot.Strings.{split}

-- What `GetContext` gives for a query of one row.
pub data Row : Type 0 where
  row : UserInfo → Row
  no_rows : Row
  query_failed : GoError → Row

-- The statements that the code sends, on a database state `D`.
pub record Database (D : Type 0) : Type 0 where
  pub select_by_username : D → GoString → Row
  pub select_by_password : D → GoString → GoString → Row
  pub select_by_token : D → GoString → Row
  pub select_all : D → Result (List UserInfo)
  pub insert : D → UserInfo → Result D
  pub update_token : D → GoString → GoString → Result D
  pub update_whitelist : D → GoString → GoString → Result D

-- What SQL says of these statements; the column `username` is UNIQUE.
pub record IsDatabase {D : Type 0} (db : Database D) : Type 0 where
  pub inserted :
      (d d' : D) (u : UserInfo)
      → db.insert d u ≡ ok d'
      → (n : ℕ) × (db.select_by_username d' u.username ≡ row (record u { id = n }))
  pub insert_other :
      (d d' : D) (u : UserInfo) (name : GoString)
      → db.insert d u ≡ ok d'
      → name ≢ u.username
      → db.select_by_username d' name ≡ db.select_by_username d name
  pub by_password :
      (d : D) (u : UserInfo) (name : GoString)
      → db.select_by_username d name ≡ row u
      → db.select_by_password d name u.password ≡ row u
  pub by_password_sound :
      (d : D) (u : UserInfo) (name password : GoString)
      → db.select_by_password d name password ≡ row u
      → (db.select_by_username d name ≡ row u) × (u.username ≡ name) × (u.password ≡ password)
  pub token_updated :
      (d d' : D) (u : UserInfo) (name token : GoString)
      → db.select_by_username d name ≡ row u
      → db.update_token d name token ≡ ok d'
      → db.select_by_username d' name ≡ row (record u { token = token })
  pub whitelist_updated :
      (d d' : D) (u : UserInfo) (name ips : GoString)
      → db.select_by_username d name ≡ row u
      → db.update_whitelist d name ips ≡ ok d'
      → db.select_by_username d' name ≡ row (record u { ip_whitelisted = ips })

pub username_exists : GoError
username_exists = message (str "username already exists")

abbrev pub sql_no_rows : GoError
sql_no_rows = message (str "sql: no rows in result set")

pub record UserInfoResponse : Type 0 where
  pub username : GoString
  pub is_admin : Bool
  pub ip_whitelisted : GoString

abbrev pub response_of : UserInfo → UserInfoResponse
response_of u = record {
  username = u.username;
  is_admin = u.is_admin;
  ip_whitelisted = u.ip_whitelisted;
}

pub Row-cases :
    (r : Row)
    → ((u : UserInfo) × (r ≡ row u)) ⊎ ((r ≡ no_rows) ⊎ ((e : GoError) × (r ≡ query_failed e)))
Row-cases (row u) = inl (u, refl)
Row-cases no_rows = inr (inl refl)
Row-cases (query_failed e) = inr (inr (e, refl))

abbrev pub row_result : Row → Result UserInfo
row_result (row u) = ok u
row_result no_rows = err sql_no_rows
row_result (query_failed e) = err e

abbrev pub admin_user : UserInfo
admin_user = record {
  id = 0;
  username = str "joebot";
  password = str "joebot123";
  is_admin = true;
  token = [];
  ip_whitelisted = [];
}

module _ {D : Type 0} (db : Database D) where
  -- Create of the repository.
  unfoldable pub create : D → UserInfo → Result D
  create d user = elim (db.select_by_username d user.username) [
    | query_failed e ↦ err e
    | no_rows ↦ db.insert d user
    | row old ↦ if str_eq old.username [] then db.insert d user else err username_exists
  ]

  unfoldable pub get_user_by_username : D → GoString → Result UserInfo
  get_user_by_username d name = row_result (db.select_by_username d name)

  unfoldable pub get_user_by_token : D → GoString → Result UserInfo
  get_user_by_token d token = row_result (db.select_by_token d token)

  unfoldable pub get_all : D → Result (List UserInfo)
  get_all d = db.select_all d

  -- GetUserIPWhitelist of the repository.
  unfoldable pub get_user_ip_whitelist : D → GoString → Result (List GoString)
  get_user_ip_whitelist d name = do
    user ← row_result (db.select_by_username d name)
    ok (split b',' user.ip_whitelisted)

  -- GetUserByUserPassword; `sign` is generateJWT, and `now` the time in hours. The database is that
  -- at the end, also after an error.
  unfoldable pub get_user_by_user_password :
      (GoString → ℕ → Result GoString) → ℕ → D → GoString → GoString → D × Result UserResponse
  get_user_by_user_password sign now d name password =
      elim (row_result (db.select_by_password d name password)) [
        | err e ↦ (d, err e)
        | ok user ↦
            if str_eq user.username []
            then (d, err (message (str "user not found")))
            else (elim (sign user.username (now + 24)) [
              | err e ↦ (d, err e)
              | ok token ↦ elim (db.update_token d user.username token) [
                | err e ↦ (d, err e)
                | ok d' ↦ (
                  d',
                  ok (record { username = user.username; token = token; expired_at = now + 24 }),
                )
              ]
            ])
      ]

  -- The functions of the server.
  unfoldable pub get_all_user : D → Result (List UserInfoResponse)
  get_all_user d = do users ← get_all d; ok (map response_of users)

  unfoldable pub server_get_user_by_token : D → GoString → Result UserInfoResponse
  server_get_user_by_token d token = do user ← get_user_by_token d token; ok (response_of user)

  unfoldable pub get_user_ip_whitelisted : D → GoString → Result (List GoString)
  get_user_ip_whitelisted d token = do
    user ← get_user_by_token d token
    if str_eq user.ip_whitelisted []
        then err (message (str "No IP Whitelisted"))
        else ok (split b',' user.ip_whitelisted)

  unfoldable pub create_user : D → UserInfo → Result D
  unfolding create
  create_user d user = elim (db.select_by_username d user.username) [
    | no_rows ↦ wrapped (create d user) (str "Failed to create user")
    | query_failed e ↦ err (wrap e (str "Error fetching user"))
    | row old ↦ err (message (str "User already exists: " ++ old.username))
  ]

  unfoldable pub user_login :
      (GoString → ℕ → Result GoString)
      → ℕ
      → D
      → GoString
      → GoString
      → GoString
      → D × Result UserResponse
  unfolding get_user_by_user_password
  user_login sign now d ip_address name password =
      let (d', found) = get_user_by_user_password sign now d name password in
      elim found [
        | err e ↦ (d', err e)
        | ok user ↦ elim (db.update_whitelist d' user.username ip_address) [
          | err e ↦ (d', err e)
          | ok d'' ↦ (d'', ok user)
        ]
      ]

  -- The seeding of the administrator by InitDB. An error ends the program.
  unfoldable pub init_admin : D → Result D
  unfolding create
  init_admin d = elim (db.select_by_username d admin_user.username) [
    | row old ↦ ok d
    | no_rows ↦ create d admin_user
    | query_failed e ↦ err e
  ]
