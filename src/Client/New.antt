-- ===== src/Client/New.antt =====
-- What NewClient of src/joebot/client/client.go makes.
use joebot.Prelude.{
  ℕ, zero, suc, ◌+◌, ◌-◌, ◌≡◌, refl, sym, false, some, inl, inr, [], arith, Option-cases, some-eq,
}
use joebot.Client.{Client, Settings, new_client, set_allowed_port_range, allow_from}
use joebot.Ports.{PortsManager, add_allowed_port, new_ports_manager}
use joebot.Strings.{ℤ, pos, negsuc}

allow_from_unused :
    (n port : ℕ) (m : PortsManager) → (allow_from n port m).ports_in_use ≡ m.ports_in_use
unfolding add_allowed_port
allow_from_unused zero port m = refl
allow_from_unused (suc n) port m = allow_from_unused n (suc port) (add_allowed_port m port)

-- What NewClient makes: its settings, and nothing in use.
pub record New (settings : Settings) (c : Client) : Type 0 where
  pub given : c.settings ≡ settings
  pub running : c.stopped ≡ false
  pub ranged :
      set_allowed_port_range settings.allowed_port_range_lbound settings.allowed_port_range_ubound
        new_ports_manager
      ≡ some c.ports_manager
  pub unused : c.ports_manager.ports_in_use ≡ []

set_allowed_port_range_unused :
    (l u : ℤ) (m m' : PortsManager)
    → set_allowed_port_range l u m ≡ some m'
    → m'.ports_in_use ≡ m.ports_in_use
unfolding set_allowed_port_range
set_allowed_port_range_unused (negsuc l) u m m' e = cc
set_allowed_port_range_unused (pos l) (negsuc u) m m' e = cc
set_allowed_port_range_unused (pos l) (pos u) m m' e =
    ground (arith, allow_from_unused (u + 1 - l) l m)

pub new_client-New :
    (settings : Settings) (c : Client) → new_client settings ≡ some c → New settings c
unfolding new_client new_ports_manager
new_client-New settings c e =
    elim (Option-cases (
      set_allowed_port_range settings.allowed_port_range_lbound settings.allowed_port_range_ubound
        new_ports_manager)) [
          | inl panics ↦ cc (rw (panics, new_client) at e)
          | inr (m, fine) ↦ rw (sym (some-eq (rw (fine, new_client) at e))) (record {
            given = refl;
            running = refl;
            ranged = fine;
            unused =
                set_allowed_port_range_unused settings.allowed_port_range_lbound
                  settings.allowed_port_range_ubound new_ports_manager m fine;
          })
        ]
