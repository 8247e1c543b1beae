-- ===== src/Ports/Reserve.antt =====
-- What ReservePort and ReleasePort of src/joebot/utils/ports_manager.go do to the manager.
use joebot.Prelude.{
  ℕ, zero, suc, ◌<◌, ◌≡◌, refl, ◌≢◌, inl, inr, true, false, some, List, [], ◌∷◌, arith, Bool-cases,
  Result-cases, has, GoError, ok, err,
}
use joebot.Ports.{
  Os, IsOs, PortsManager, Reserved, get_free_port, first_free, get_allowed_and_free_port,
  reserve_loop, reserve_port,
}

-- The two outcomes of a reservation: a port that was free is now in use, or nothing changed.
pub data Reserves (m : PortsManager) (r : Reserved) : Type 0 where
  reserved :
      (p : ℕ)
      → r.port ≡ ok p
      → has p m.ports_in_use ≡ false
      → r.manager ≡ record m { ports_in_use = p ∷ m.ports_in_use }
      → Reserves m r
  refused : (e : GoError) → r.port ≡ err e → r.manager ≡ m → Reserves m r

reserve_loop-Reserves : (os : Os) (m : PortsManager) (t n : ℕ) → Reserves m (reserve_loop os m t n)
unfolding reserve_loop
reserve_loop-Reserves os m t zero = refused _ refl refl
reserve_loop-Reserves os m t (suc n) =
    let (candidate, t') = get_allowed_and_free_port os m t in
    elim (Result-cases candidate) [
      | inr (e, refuse) ↦ rw (refuse, reserve_loop) (refused e refl refl)
      | inl (wanted, allow) ↦ elim (Result-cases (get_free_port os t' wanted wanted)) [
        | inr (e, busy) ↦ rw (allow, busy, reserve_loop) (refused e refl refl)
        | inl (p, free) ↦ elim (Bool-cases (has p m.ports_in_use)) [
          | inl used ↦ rw (allow, free, used, reserve_loop) (reserve_loop-Reserves os m (suc t') n)
          | inr fresh ↦ rw (allow, free, fresh, reserve_loop) (reserved p refl fresh refl)
        ]
      ]
    ]

-- ReservePort either puts a port in use that was not in use, and changes nothing else, or returns
-- an error and changes nothing.
pub reserve_port-Reserves : (os : Os) (m : PortsManager) (t : ℕ) → Reserves m (reserve_port os m t)
unfolding reserve_port
reserve_port-Reserves os m t = reserve_loop-Reserves os m t 10000

-- A port that the code asks for, other than 0, is the port that it gets.
pub get_free_port_same :
    (os : Os) (laws : IsOs os) (t p q : ℕ) → 0 < p → get_free_port os t p p ≡ ok q → q ≡ p
unfolding get_free_port
get_free_port_same os laws t p q pos e = grind (arith, laws.listen_at, laws.rand_lt t 1)

-- The search of the allowed ports returns a port of the list that is not in use.
pub first_free-some :
    (os : Os) (used : List ℕ) (t : ℕ) (ports : List ℕ) (p : ℕ)
    → (first_free os used t ports).0 ≡ some p
    → (has p ports ≡ true) × (has p used ≡ false)
unfolding first_free
first_free-some os used t [] p e = cc
first_free-some os used t (x ∷ xs) p e =
    ground (arith, first_free-some os used t xs p, first_free-some os used (suc t) xs p)

-- With a restricted range the candidate is an allowed port that is not in use.
candidate-some :
    (os : Os) (laws : IsOs os) (m : PortsManager) (t p : ℕ)
    → m.allowed_ports ≢ []
    → (get_allowed_and_free_port os m t).0 ≡ ok p
    → (has p m.allowed_ports ≡ true) × (has p m.ports_in_use ≡ false)
unfolding get_allowed_and_free_port
candidate-some os laws m t p some_allowed e = ground (
  arith,
  laws.order_keys t p m.allowed_ports,
  first_free-some os m.ports_in_use t (os.range_order t m.allowed_ports) p,
)

pub has_positive : (p : ℕ) (ports : List ℕ) → has 0 ports ≡ false → has p ports ≡ true → 0 < p
has_positive zero ports h e = cc
has_positive (suc p) ports h e = omega arith

reserve_loop-allowed :
    (os : Os) (laws : IsOs os) (m : PortsManager) (t n p : ℕ)
    → m.allowed_ports ≢ []
    → has 0 m.allowed_ports ≡ false
    → (reserve_loop os m t n).port ≡ ok p
    → has p m.allowed_ports ≡ true
unfolding reserve_loop
reserve_loop-allowed os laws m t zero p some_allowed no_zero e = cc
reserve_loop-allowed os laws m t (suc n) p some_allowed no_zero e =
    let (candidate, t') = get_allowed_and_free_port os m t in
    elim (Result-cases candidate) [
      | inr (x, refuse) ↦ cc (rw (refuse, reserve_loop) at e)
      | inl (wanted, allow) ↦
          let (listed, _) = candidate-some os laws m t wanted some_allowed allow in
          elim (Result-cases (get_free_port os t' wanted wanted)) [
            | inr (x, busy) ↦ cc (rw (allow, busy, reserve_loop) at e)
            | inl (q, free) ↦ ground (
              arith,
              allow,
              free,
              reserve_loop-allowed os laws m (suc t') n p,
              get_free_port_same os laws t' wanted q
                  (has_positive wanted m.allowed_ports no_zero listed) free,
            )
          ]
    ]

-- On a system that keeps the laws, when the allowed ports are restricted and 0 is not one of them,
-- a reserved port is an allowed port.
pub reserve_port-allowed :
    (os : Os) (laws : IsOs os) (m : PortsManager) (t p : ℕ)
    → m.allowed_ports ≢ []
    → has 0 m.allowed_ports ≡ false
    → (reserve_port os m t).port ≡ ok p
    → has p m.allowed_ports ≡ true
unfolding reserve_port
reserve_port-allowed os laws m t p = reserve_loop-allowed os laws m t 10000 p
