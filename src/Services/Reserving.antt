-- ===== src/Services/Reserving.antt =====
-- A task of src/joebot/client whose port is reserved.
use joebot.Prelude.{ℕ, ◌≡◌, refl, ap, none, GoError, Result, ok}
use joebot.Client.{Client}
use joebot.Client.Process.{Running, handled}
use joebot.Client.Tasks.{Handled, reserving}
use joebot.Ports.{Os, reserve_port}
use joebot.Server.Tunnel.{Gob}
use joebot.Task.{Writer}

-- The client whose manager has the port in use.
abbrev pub with_port : Os → Client → ℕ → Client
with_port os c t = record c { ports_manager = (reserve_port os c.ports_manager t).manager }

pub reserving-ok :
    (os : Os) (gob : Gob) (c d : Client) (t p : ℕ) (refused : GoError → GoError)
    (use_port : Client → ℕ → Client × Result Writer) (v' : Writer)
    → (reserve_port os c.ports_manager t).port ≡ ok p
    → use_port (with_port os c t) p ≡ (d, ok v')
    → reserving os gob c t refused use_port
      ≡ record { client = d; reply = ok v'; time = (reserve_port os c.ports_manager t).time }
reserving-ok os gob c d t p refused use_port v' given uses =
    rw (given, reserving)
      (ap
        (λ (x : Client × Result Writer). record {
          client = x.0;
          reply = x.1;
          time = (reserve_port os c.ports_manager t).time;
        })
        uses)

pub handled-ok :
    (r : Running) (h : Handled) (d : Client) (v' : Writer) (t : ℕ)
    → h ≡ record { client = d; reply = ok v'; time = t }
    → handled r h ≡ (record r { client = d; stream = v'; time = t }, none)
handled-ok r h d v' t e = rw e refl
