-- ===== src/Tests/Ports.antt =====
-- Reservations in src/joebot/utils/ports_manager.go.
use joebot.Prelude.{ℕ, ◌≡◌, refl, arith, ◌==◌, if◌then◌else◌, ok}
use joebot.Ports.{Os, IsOs, reserve_port, get_free_port}
use joebot.Ports.Available.{reserve_port_succeeds}
use joebot.Ports.Reserve.{Reserves, reserve_port-Reserves}
use joebot.Tests.System.{free_os, three_ports}

reserve_port-Reserves_example : Reserves three_ports (reserve_port free_os three_ports 0)
reserve_port-Reserves_example = reserve_port-Reserves free_os three_ports 0

-- A system on which port 0 gives the same port each time.
abbrev calm_os : Os
calm_os = record free_os { listen = λ t p. ok (if p == 0 then 4000 else p) }

calm_os-IsOs : IsOs calm_os
calm_os-IsOs = record {
  rand_lt = λ t n h. h;
  listen_at = λ t p q h e. ground arith;
  listen_any = λ t q e. ground arith;
  order_keys = λ t p ports. refl;
}

open_8003 : (t : ℕ) → get_free_port calm_os t 8003 8003 ≡ ok 8003
unfolding get_free_port
open_8003 t = refl

steady : (t p : ℕ) → get_free_port calm_os t p p ≡ get_free_port calm_os 0 p p
unfolding get_free_port
steady t p = refl

reserve_port_succeeds_example : (q : ℕ) × ((reserve_port calm_os three_ports 0).port ≡ ok q)
reserve_port_succeeds_example =
    reserve_port_succeeds calm_os calm_os-IsOs steady three_ports 0 8003 refl refl refl open_8003
