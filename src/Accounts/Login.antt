-- ===== src/Accounts/Login.antt =====
-- What creating a user and logging in do, for src/joebot/repository/users.go and
-- src/joebot/server/server.go.
use joebot.Prelude.{
  ℕ, ◌+◌, ◌≡◌, sym, ap, ◌∙◌, ◌≢◌, inl, inr, [], arith, Bool-cases, Result-cases, str_eq, GoString,
  GoError, Result, ok, err, wrapped,
}
use joebot.Models.{UserInfo, UserResponse}
use joebot.Accounts.{
  Row-cases, row, no_rows, Database, IsDatabase, create, create_user, user_login,
  get_user_by_user_password, init_admin, admin_user, sql_no_rows,
}

wrapped-ok :
    {A : Type 0} (r : Result A) (text : GoString) {a : A}
    → wrapped r text ≡ ok a
    → (r ≡ ok a) × Unit {0}
wrapped-ok (ok a) text e = (e, tt)
wrapped-ok (err x) text e = cc

ok-eq : {A : Type 0} {x y : A} → ok x ≡ ok y → x ≡ y
ok-eq e = cc

outcome :
    {D : Type 0} {d d' : D} {x y : UserResponse}
    → ◌≡◌ {A = D × Result UserResponse} (d, ok x) (d', ok y)
    → (d ≡ d') × (x.token ≡ y.token)
outcome e = ground arith

module _ {D : Type 0} (db : Database D) (laws : IsDatabase db) where
  -- A user that CreateUser made did not exist before, has the given data, and no other user has
  -- changed.
  pub create_user_lem :
      (d d' : D) (user : UserInfo)
      → create_user db d user ≡ ok d'
      → (db.select_by_username d user.username ≡ no_rows)
        × ((n : ℕ) × (db.select_by_username d' user.username ≡ row (record user { id = n })))
        × ((name : GoString)
            → name ≢ user.username
            → db.select_by_username d' name ≡ db.select_by_username d name)
  unfolding create_user create
  create_user_lem d d' user e = elim (Row-cases (db.select_by_username d user.username)) [
    | inl (old, known) ↦ cc (rw (known, create_user) at e)
    | inr (inr (x, fails)) ↦ cc (rw (fails, create_user) at e)
    | inr (inl new) ↦
        let (done, _) =
          wrapped-ok (db.insert d user) _ (rw (new, create) at (rw (new, create_user) at e)) in
        (
          new,
          laws.inserted d d' user done,
          λ name other. laws.insert_other d d' user name done other,
        )
  ]

  -- What GetUserByUserPassword has done when it succeeds.
  password_login :
      (sign : GoString → ℕ → Result GoString) (now : ℕ) (d : D) (name password : GoString)
      (r : UserResponse)
      → (get_user_by_user_password db sign now d name password).1 ≡ ok r
      → (u : UserInfo) × (db.select_by_username d name ≡ row u)
        × (u.password ≡ password)
        × (sign name (now + 24) ≡ ok r.token)
        × (r.username ≡ name)
        × (db.select_by_username (get_user_by_user_password db sign now d name password).0 name
            ≡ row (record u { token = r.token }))
  unfolding get_user_by_user_password
  password_login sign now d name password r e =
      elim (Row-cases (db.select_by_password d name password)) [
        | inr (inl missing) ↦ cc (rw (missing, get_user_by_user_password) at e)
        | inr (inr (x, fails)) ↦ cc (rw (fails, get_user_by_user_password) at e)
        | inl (u, found) ↦
            let (known, called, right) = laws.by_password_sound d u name password found in
            elim (Bool-cases (str_eq u.username [])) [
              | inl blank ↦ cc (rw (found, blank, get_user_by_user_password) at e)
              | inr named ↦ elim (Result-cases (sign u.username (now + 24))) [
                | inr (x, fails) ↦ cc (rw (found, named, fails, get_user_by_user_password) at e)
                | inl (token, signed) ↦ elim (Result-cases (db.update_token d u.username token)) [
                  | inr (x, fails) ↦
                      cc (rw (found, named, signed, fails, get_user_by_user_password) at e)
                  | inl (d1, stored) ↦
                      let whole =
                        ok-eq (rw (found, named, signed, stored, get_user_by_user_password) at e) in
                      (
                        u,
                        known,
                        right,
                        rw called at signed ∙ ap (λ (x : UserResponse). ok x.token) whole,
                        sym (ap (λ (x : UserResponse). x.username) whole) ∙ called,
                        rw (found, named, signed, stored, get_user_by_user_password, ← whole)
                            (laws.token_updated d d1 u name token known (rw called at stored)),
                      )
                ]
              ]
            ]
      ]

  -- On a database that keeps the laws, after a login that succeeds the user's row has the new
  -- token and the address of the login, and the rest of it is unchanged; the password was the one
  -- in the row, and the token is signed for 24 hours.
  pub user_login_lem :
      (sign : GoString → ℕ → Result GoString) (now : ℕ) (d d' : D) (ip name password : GoString)
      (r : UserResponse)
      → user_login db sign now d ip name password ≡ (d', ok r)
      → (u : UserInfo) × (db.select_by_username d name ≡ row u)
        × (u.password ≡ password)
        × (sign name (now + 24) ≡ ok r.token)
        × (db.select_by_username d' name ≡ row (record u { token = r.token; ip_whitelisted = ip }))
  unfolding user_login
  user_login_lem sign now d d' ip name password r e =
      let (d1, found) = get_user_by_user_password db sign now d name password in
      elim (Result-cases found) [
        | inr (x, fails) ↦ cc (rw (fails, user_login) at e)
        | inl (r1, passed) ↦
            let (u, known, right, signed, called, stored) =
              password_login sign now d name password r1 passed in
            elim (Result-cases (db.update_whitelist d1 r1.username ip)) [
              | inr (x, fails) ↦ cc (rw (passed, fails, user_login) at e)
              | inl (d2, listed) ↦
                  let (same_d, same) = outcome (rw (passed, listed, user_login) at e) in
                  (
                    u,
                    known,
                    right,
                    signed ∙ ap ok same,
                    rw (← same_d, ← same)
                        (laws.whitelist_updated d1 d2 _ name ip stored (rw called at listed)),
                  )
            ]
      ]

  -- On a database that keeps the laws, a login with a password that is not the user's gives an
  -- error and changes nothing.
  user_login_refused :
      (sign : GoString → ℕ → Result GoString) (now : ℕ) (d : D) (ip name password : GoString)
      (u : UserInfo)
      → db.select_by_username d name ≡ row u
      → u.password ≢ password
      → (e : GoError) × (user_login db sign now d ip name password ≡ (d, err e))
  unfolding user_login get_user_by_user_password
  user_login_refused sign now d ip name password u known wrong =
      elim (Row-cases (db.select_by_password d name password)) [
        | inl (w, found) ↦
            let (same, _, right) = laws.by_password_sound d w name password found in
            absurd (wrong (cc (same, right)))
        | inr (inl none_found) ↦ (sql_no_rows, ground (arith, none_found))
        | inr (inr (x, fails)) ↦ (x, ground (arith, fails))
      ]

  -- The administrator exists after InitDB, and a second InitDB changes nothing.
  pub init_admin_twice :
      (d d' : D)
      → init_admin db d ≡ ok d'
      → ((u : UserInfo) × (db.select_by_username d' admin_user.username ≡ row u))
        × (init_admin db d' ≡ ok d')
  unfolding init_admin create
  init_admin_twice d d' e = elim (Row-cases (db.select_by_username d admin_user.username)) [
    | inl (u, known) ↦
        let same : d ≡ d' = ok-eq (rw (known, init_admin) at e) in
        ((u, rw (← same) known), rw (← same) (rw (known, init_admin)))
    | inr (inr (x, fails)) ↦ cc (rw (fails, init_admin) at e)
    | inr (inl new) ↦
        let (n, found) =
          laws.inserted d d' admin_user (rw (new, create) at (rw (new, init_admin) at e)) in
        ((record admin_user { id = n }, found), rw (found, init_admin))
  ]
