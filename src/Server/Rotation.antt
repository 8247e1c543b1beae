-- ===== src/Server/Rotation.antt =====
-- The order in which the tunnel services of src/joebot/server/server.go are taken, and how long the
-- lock of src/joebot/server/gost-tunnel.go waits.
use joebot.Prelude.{
  ℕ, zero, suc, ◌+◌, ◌-◌, ◌*◌, ◌%◌, ◌≤◌, ◌<◌, ◌≡◌, refl, sym, ap, ◌∙◌, Option, none, some, List, [],
  ◌∷◌, arith, leb, if◌then◌else◌, length, get_elem?,
}
use native.Mathlib.Nat.{mod-add-mod, mod-lt, mod-eq_of_lt, mod-mod}
use mathlib.Core.Path.{ap₂}
use joebot.Server.{GostTunnel, Server}
use joebot.Server.Tunnel.{get_tunnel_service, lock_delay, second}

-- Within 10 seconds after a service was used, the lock waits until more than 9 and at most 10
-- seconds have passed since then.
lock_delay_bounds :
    (g : GostTunnel) (now : ℕ)
    → g.last_serve_time ≤ now
    → now - g.last_serve_time ≤ 10 * second
    → (9 * second < now - g.last_serve_time + lock_delay g now)
      × (now - g.last_serve_time + lock_delay g now ≤ 10 * second)
unfolding lock_delay
lock_delay_bounds g now h k = (ground arith, ground arith)

get_elem?-in_range :
    {A : Type 0} (xs : List A) (i : ℕ) → i < length xs → (x : A) × (get_elem? xs i ≡ some x)
get_elem?-in_range [] i h = absurd (omega arith)
get_elem?-in_range (x ∷ xs) zero h = (x, refl)
get_elem?-in_range (x ∷ xs) (suc i) h = get_elem?-in_range xs i (omega arith)

-- With an index in range GetTunnelService does not panic: it takes the service at the index, and the
-- next index is in range, one further round the list.
pub get_tunnel_service_lem :
    (s : Server)
    → s.gost_tunnel_start_index < length s.gost_tunnels
    → (g : GostTunnel) × (s' : Server) × (get_tunnel_service s
        ≡ some ((s.gost_tunnel_start_index, g), s'))
      × (get_elem? s.gost_tunnels s.gost_tunnel_start_index ≡ some g)
      × (s'.gost_tunnel_start_index ≡ (s.gost_tunnel_start_index + 1) % length s.gost_tunnels)
      × (s'.gost_tunnels ≡ s.gost_tunnels)
unfolding get_tunnel_service
get_tunnel_service_lem s h =
    let (g, found) = get_elem?-in_range s.gost_tunnels s.gost_tunnel_start_index h in
    (
      g,
      record s {
        gost_tunnel_start_index =
            if leb (length s.gost_tunnels) (suc s.gost_tunnel_start_index)
            then 0
            else suc s.gost_tunnel_start_index;
      },
      rw (found, get_tunnel_service),
      found,
      wrap_around,
      refl,
    )
  where
    wrap_around :
        (if leb (length s.gost_tunnels) (suc s.gost_tunnel_start_index)
          then 0
          else suc s.gost_tunnel_start_index)
        ≡ (s.gost_tunnel_start_index + 1) % length s.gost_tunnels
    wrap_around = grind arith

-- The indices that a number of calls in a row take; `none` is a panic.
pub taken_services : ℕ → Server → Option (List ℕ)
taken_services zero s = some []
taken_services (suc k) s = elim (get_tunnel_service s) [
  | none ↦ none
  | some ((i, g), s') ↦ elim (taken_services k s') [ none ↦ none | some is ↦ some (i ∷ is) ]
]

-- `k` numbers from `i` on, round a list of `n`.
pub round_robin : ℕ → ℕ → ℕ → List ℕ
round_robin n i zero = []
round_robin n i (suc k) = (i % n) ∷ round_robin n (i + 1) k

mod_suc_congr : (n i j : ℕ) → i % n ≡ j % n → (i + 1) % n ≡ (j + 1) % n
mod_suc_congr n i j e = sym (mod-add-mod i n 1) ∙ ap (λ a. (a + 1) % n) e ∙ mod-add-mod j n 1

round_robin_congr : (n i j k : ℕ) → i % n ≡ j % n → round_robin n i k ≡ round_robin n j k
unfolding round_robin
round_robin_congr n i j zero e = refl
round_robin_congr n i j (suc k) e =
    ap₂ (λ a r. a ∷ r) e (round_robin_congr n (i + 1) (j + 1) k (mod_suc_congr n i j e))

-- With an index in range, any number of calls in a row take the services in turn, round the list.
pub taken_services-round_robin :
    (k : ℕ) (s : Server)
    → s.gost_tunnel_start_index < length s.gost_tunnels
    → taken_services k s ≡ some (round_robin (length s.gost_tunnels) s.gost_tunnel_start_index k)
unfolding taken_services round_robin
taken_services-round_robin zero s h = refl
taken_services-round_robin (suc k) s h =
    let (g, s', taken, _, next, same) = get_tunnel_service_lem s h in
    let n = length s.gost_tunnels in
    let kept : length s'.gost_tunnels ≡ n = ap length same in
    let within : s'.gost_tunnel_start_index < length s'.gost_tunnels =
      omega (arith, next, kept, mod-lt (s.gost_tunnel_start_index + 1) {m = n} (omega arith)) in
    let rest : taken_services k s' ≡ some (round_robin n (s.gost_tunnel_start_index + 1) k) =
      taken_services-round_robin k s' within
      ∙ ap some (
          ap₂ (λ m i. round_robin m i k) kept next
          ∙ round_robin_congr n _ _ k (mod-mod (s.gost_tunnel_start_index + 1) n)) in
    rw (taken, rest, taken_services)
      (ap (λ i. some (i ∷ round_robin n (s.gost_tunnel_start_index + 1) k)) (sym (mod-eq_of_lt h)))
