-- ===== src/Server/Interleaved/Safety.antt =====
-- The ports and the tunnel services when goroutines of CreateTunnel in src/joebot/server/client.go
-- interleave.
use joebot.Prelude.{ℕ, ◌+◌, ◌≡◌, ◌≤◌, List, All, count}
use joebot.Server.{Server}
use joebot.Server.Accounting.{gost_ports, held}
use joebot.Server.Interleaved.Counts.{asked_ports}
use joebot.Server.Interleaved.{Waiting, Asked, Busy, services}

-- The ports in use are those of the services, of the tunnels and of the requests under way; each
-- service is locked by one request at most.
pub record Fair (clients : List ℕ) (b : Busy) : Type 0 where
  pub once : (p : ℕ) → count p b.server.ports_manager.ports_in_use ≤ 1
  pub owned :
      (p : ℕ)
      → count p b.server.ports_manager.ports_in_use
        ≡ count p (gost_ports b.server.gost_tunnels)
          + held b.server.heap clients p
          + count p (asked_ports b.asked)
  pub alone : (i : ℕ) → count i (services b.asked) ≤ 1
  pub waits : All (λ (w : Waiting). count w.client clients ≡ 1) b.waiting
  pub asks : All (λ (x : Asked). count x.client clients ≡ 1) b.asked
