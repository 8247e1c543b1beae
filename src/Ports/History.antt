-- ===== src/Ports/History.antt =====
-- Sequences of calls of the methods of src/joebot/utils/ports_manager.go.
use joebot.Prelude.{
  ℕ, ◌≤◌, ◌≡◌, none, some, List, [], ◌∷◌, arith, ◌==◌, if◌then◌else◌, count, has, not_has→count,
  count-without, without_absent, ok,
}
use joebot.Ports.{Os, PortsManager, add_allowed_port, reserve_port, release_port, not_in_use}
use joebot.Ports.Reserve.{Reserves, reserved, refused, reserve_port-Reserves}

-- Releasing a port takes it out of use and touches no other; a port that is not in use gives an
-- error and changes nothing.
pub release_port_lem :
    (m : PortsManager) (p q : ℕ)
    → ((release_port m p).0 ≡ (if has p m.ports_in_use then none else some not_in_use))
      × (count q (release_port m p).1.ports_in_use ≡ (if p == q then 0 else count q m.ports_in_use))
      × ((release_port m p).1.allowed_ports ≡ m.allowed_ports)
unfolding release_port
release_port_lem m p q = (
  ground arith,
  ground (arith, count-without p q m.ports_in_use, not_has→count p m.ports_in_use),
  ground arith,
)

-- Releasing the port that a reservation gave puts the manager back as it was.
release_port-reserve_port :
    (os : Os) (m : PortsManager) (t p : ℕ)
    → (reserve_port os m t).port ≡ ok p
    → release_port (reserve_port os m t).manager p ≡ (none, m)
unfolding release_port
release_port-reserve_port os m t p e = go (reserve_port-Reserves os m t)
  where
    go : Reserves m (reserve_port os m t) → release_port (reserve_port os m t).manager p ≡ (none, m)
    go (reserved q given fresh put) = ground (arith, e, given, without_absent q m.ports_in_use)
    go (refused x refuse same) = cc

pub data PortsCall : Type 0 where
  reserves : PortsCall
  releases allows : ℕ → PortsCall

-- The manager and the count of system calls after a call.
pub calls_step : Os → PortsManager × ℕ → PortsCall → PortsManager × ℕ
calls_step os (m, t) reserves = ((reserve_port os m t).manager, (reserve_port os m t).time)
calls_step os (m, t) (releases p) = ((release_port m p).1, t)
calls_step os (m, t) (allows p) = (add_allowed_port m p, t)

pub calls_run : Os → PortsManager × ℕ → List PortsCall → PortsManager × ℕ
calls_run os s [] = s
calls_run os s (c ∷ cs) = calls_run os (calls_step os s c) cs

-- No port is recorded twice, neither as in use nor as allowed.
pub record IsSound (m : PortsManager) : Type 0 where
  pub once : (p : ℕ) → count p m.ports_in_use ≤ 1
  pub allowed_once : (p : ℕ) → count p m.allowed_ports ≤ 1

reserve_port-IsSound :
    (os : Os) (m : PortsManager) (t : ℕ) → IsSound m → IsSound (reserve_port os m t).manager
reserve_port-IsSound os m t v = go (reserve_port-Reserves os m t)
  where
    go : Reserves m (reserve_port os m t) → IsSound (reserve_port os m t).manager
    go (refused x refuse same) = rw same v
    go (reserved q given fresh put) = rw put (record {
      once = λ p. ground (arith, v.once p, not_has→count q m.ports_in_use fresh);
      allowed_once = v.allowed_once;
    })

calls_step-IsSound :
    (os : Os) (s : PortsManager × ℕ) (c : PortsCall) → IsSound s.0 → IsSound (calls_step os s c).0
unfolding calls_step
calls_step-IsSound os (m, t) reserves v = reserve_port-IsSound os m t v
calls_step-IsSound os (m, t) (releases p) v = record {
  once = λ q. ground (arith, v.once q, release_port_lem m p q);
  allowed_once = λ q. ground (arith, v.allowed_once q, release_port_lem m p q);
}
calls_step-IsSound os (m, t) (allows p) v = record {
  once = unfold add_allowed_port in v.once;
  allowed_once = λ q.
      unfold add_allowed_port in ground (arith, v.allowed_once q, not_has→count p m.allowed_ports);
}

-- From a manager that records no port twice, whatever calls are made, and whatever the system
-- answers, no port is ever recorded twice.
calls_run-IsSound :
    (os : Os) (s : PortsManager × ℕ) (cs : List PortsCall)
    → IsSound s.0
    → IsSound (calls_run os s cs).0
unfolding calls_run
calls_run-IsSound os s [] v = v
calls_run-IsSound os s (c ∷ cs) v =
    calls_run-IsSound os (calls_step os s c) cs (calls_step-IsSound os s c v)
