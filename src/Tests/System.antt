-- ===== src/Tests/System.antt =====
-- A system whose ports are all free, the smallest server and a stream, for the tests of the code of
-- src/joebot.
use joebot.Prelude.{◌+◌, refl, none, [], ◌∷◌, arith, ◌==◌, if◌then◌else◌, ok}
use joebot.Ports.{Os, IsOs, PortsManager}
use joebot.Task.{Writer}

-- Listening on port 0 gives a port that was not given before, any other the port itself; a random number is 0.
abbrev pub free_os : Os
free_os = record {
  rand_intn = λ t n. 0;
  resolve = λ t p. ok tt;
  listen = λ t p. ok (if p == 0 then 4000 + t else p);
  range_order = λ t ports. ports;
}

pub free_os-IsOs : IsOs free_os
free_os-IsOs = record {
  rand_lt = λ t n h. h;
  listen_at = λ t p q h e. ground arith;
  listen_any = λ t q e. ground arith;
  order_keys = λ t p ports. refl;
}

abbrev pub three_ports : PortsManager
three_ports = record { ports_in_use = 8001 ∷ []; allowed_ports = 8001 ∷ (8002 ∷ (8003 ∷ [])) }

abbrev pub idle : Writer
idle = record { answer = λ n. none; written = [] }
