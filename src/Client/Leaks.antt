-- ===== src/Client/Leaks.antt =====
-- What becomes of a port that a task of src/joebot/client has reserved.
use joebot.Prelude.{
  ℕ, ◌≡◌, refl, sym, ◌∙◌, true, ◌∷◌, ==_refl, has, GoString, str, GoError, wrap, Result, ok, err,
}
use joebot.Client.{Client}
use joebot.Client.Tasks.{
  Gotty, reserving, handle_filebrowser, handle_gotty, start_gotty, filebrowser_on, gotty_on,
}
use joebot.Ports.{Os, reserve_port}
use joebot.Ports.Reserve.{reserved, refused, reserve_port-Reserves}
use joebot.Server.Tunnel.{Gob}
use joebot.Strings.{itoa}
use joebot.Task.{Writer}

ok-eq : {A : Type 0} {x y : A} → ok x ≡ ok y → x ≡ y
ok-eq e = cc

in_use_after :
    (os : Os) (c : Client) (t p : ℕ)
    → (reserve_port os c.ports_manager t).port ≡ ok p
    → has p (reserve_port os c.ports_manager t).manager.ports_in_use ≡ true
in_use_after os c t p e = elim (reserve_port-Reserves os c.ports_manager t) [
  | reserved q at fresh now ↦ in_use q at now
  | refused x at same ↦ cc
]
  where
    in_use :
        (q : ℕ)
        → (reserve_port os c.ports_manager t).port ≡ ok q
        → (reserve_port os c.ports_manager t).manager
          ≡ record c.ports_manager { ports_in_use = q ∷ c.ports_manager.ports_in_use }
        → has p (reserve_port os c.ports_manager t).manager.ports_in_use ≡ true
    in_use q at now = let same : q ≡ p = ok-eq (sym at ∙ e) in rw (now, same, ==_refl p) refl

module _ (os : Os) (gob : Gob) (c : Client) (stream : Writer) (t p : ℕ)
    (got : (reserve_port os c.ports_manager t).port ≡ ok p) where
  -- When a port was reserved and the file browser cannot be started, the task returns the error,
  -- and the port stays in use.
  pub handle_filebrowser-leak :
      (start : GoString → GoString → ℕ → Result GoString) (e : GoError)
      → start (itoa p) c.settings.server_ip c.settings.server_web_portal_port ≡ err e
      → ((handle_filebrowser os gob start c stream t).reply
          ≡ err (wrap e (str "Failed to create filebrowser server")))
        × (has p (handle_filebrowser os gob start c stream t).client.ports_manager.ports_in_use
            ≡ true)
  unfolding handle_filebrowser
  handle_filebrowser-leak start e x = (
    rw (got, x, handle_filebrowser, reserving, filebrowser_on) refl,
    rw (got, x, handle_filebrowser, reserving, filebrowser_on) (in_use_after os c t p got),
  )

  -- The same of Gotty.
  handle_gotty-leak :
      (gotty : Gotty) (e : GoError)
      → start_gotty os gob gotty c.settings p ≡ err e
      → ((handle_gotty os gob gotty c stream t).reply ≡ err e)
        × (has p (handle_gotty os gob gotty c stream t).client.ports_manager.ports_in_use ≡ true)
  unfolding handle_gotty
  handle_gotty-leak gotty e x = (
    rw (got, x, handle_gotty, reserving, gotty_on) refl,
    rw (got, x, handle_gotty, reserving, gotty_on) (in_use_after os c t p got),
  )
