-- ===== src/Client/Allowed.antt =====
-- The ports that a client may use: SetAllowedPortRange and NewClient of src/joebot/client/client.go.
use joebot.Prelude.{
  ℕ, zero, suc, ◌+◌, ◌-◌, ◌≤◌, ◌≡◌, refl, ap, ◌∙◌, false, ◌&&◌, ◌||◌, some, List, arith, ltb, leb,
  ◌==◌, has,
}
use joebot.Client.{allow_from, set_allowed_port_range}
use joebot.Ports.{PortsManager, add_allowed_port, add_key, new_ports_manager}
use joebot.Strings.{pos}

has-add_key : (k p : ℕ) (keys : List ℕ) → has p (add_key k keys) ≡ (k == p || has p keys)
has-add_key k p keys = ground arith

-- The loop adds `n` ports from `port` on to those allowed before.
has-allow_from :
    (n port p : ℕ) (m : PortsManager)
    → has p (allow_from n port m).allowed_ports
      ≡ (leb port p && ltb p (port + n) || has p m.allowed_ports)
unfolding add_allowed_port
has-allow_from zero port p m = ground arith
has-allow_from (suc n) port p m =
    has-allow_from n (suc port) p (add_allowed_port m port)
    ∙ ap (λ b. leb (suc port) p && ltb p (suc port + n) || b) (has-add_key port p m.allowed_ports)
    ∙ ground arith

-- For l at most u, a new manager's range from l to u allows exactly the ports of it, unless it is
-- the range of all ports.
pub set_allowed_port_range_lem :
    (l u p : ℕ)
    → l ≤ u
    → (l == 0 && u == 65535) ≡ false
    → (m : PortsManager) × (set_allowed_port_range (pos l) (pos u) new_ports_manager ≡ some m)
      × (has p m.allowed_ports ≡ (leb l p && leb p u))
unfolding set_allowed_port_range new_ports_manager
set_allowed_port_range_lem l u p ordered partial = (
  allow_from (u + 1 - l) l new_ports_manager,
  rw (le→ltb ordered, partial) refl,
  has-allow_from (u + 1 - l) l p new_ports_manager ∙ ground arith,
)
  where
    le→ltb : l ≤ u → ltb u l ≡ false
    le→ltb h = ground arith
