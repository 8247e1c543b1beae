-- ===== src/Accounts/Whitelist.antt =====
-- The statements of src/joebot/repository/users.go that change a token or the addresses of a user.
use joebot.Prelude.{◌≡◌, ap, false, List, ◌∷◌, All, has, GoString, Result, ok}
use joebot.Accounts.{Database, IsDatabase, row, get_user_ip_whitelist}
use joebot.Models.{UserInfo}
use joebot.Strings.{join}
use joebot.Strings.Join.{split-join}

module _ {D : Type 0} (db : Database D) where
  unfoldable pub update_user_token : D → GoString → GoString → Result D
  update_user_token d name token = db.update_token d name token

  unfoldable pub update_user_ip_whitelist : D → GoString → GoString → Result D
  update_user_ip_whitelist d name ip_whitelist = db.update_whitelist d name ip_whitelist

  -- The addresses that were stored for a user, joined by commas, are the ones that the user's
  -- whitelist has, if none holds a comma; a change of the token after that leaves them.
  get_user_ip_whitelist-update_user_ip_whitelist :
      (laws : IsDatabase db) (d d' d'' : D) (u : UserInfo) (name token ip : GoString)
      (ips : List GoString)
      → db.select_by_username d name ≡ row u
      → All (λ s. has 44 s ≡ false) (ip ∷ ips)
      → update_user_ip_whitelist d name (join 44 (ip ∷ ips)) ≡ ok d'
      → update_user_token d' name token ≡ ok d''
      → get_user_ip_whitelist db d'' name ≡ ok (ip ∷ ips)
  unfolding update_user_token update_user_ip_whitelist get_user_ip_whitelist
  get_user_ip_whitelist-update_user_ip_whitelist laws d d' d'' u name token ip ips known commas
        listed told =
      let stored = laws.whitelist_updated d d' u name (join 44 (ip ∷ ips)) known listed in
      let kept =
        laws.token_updated d' d'' (record u { ip_whitelisted = join 44 (ip ∷ ips) }) name token
          stored told in
      rw (kept, get_user_ip_whitelist) (ap ok (split-join 44 ip ips commas))
