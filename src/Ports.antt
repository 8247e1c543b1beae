-- ===== src/Ports.antt =====
-- src/joebot/utils/ports_manager.go, and GetFreePort and IsPortOccupied of src/joebot/utils/utils.go.
-- The lock of the manager makes each method one step; so a method is a function on its state.
pub mod Reserve
pub mod Available
pub mod History
use joebot.Prelude.{
  ℕ, zero, suc, ◌+◌, ◌-◌, ◌<◌, ◌≡◌, Bool, true, false, Option, none, some, List, [], ◌∷◌, ◌==◌,
  if◌then◌else◌, length, has, without, Result, ok, err, GoError, message, str, ◌>>◌,
}

-- What the code asks of the system. The first argument counts the calls made so far, so that no
-- two answers need agree: other processes open and close ports, and a Go map has no fixed order.
pub record Os : Type 0 where
  pub rand_intn : ℕ → ℕ → ℕ
  pub resolve : ℕ → ℕ → Result (Unit {0})
  pub listen : ℕ → ℕ → Result ℕ
  pub range_order : ℕ → List ℕ → List ℕ

-- The documented behaviour of those calls: `rand.Intn(n)` lies below n, a listener is bound to
-- the port asked for, port 0 asks for any port, and `range` goes over the keys of the map.
pub record IsOs (os : Os) : Type 0 where
  pub rand_lt : (t n : ℕ) → 0 < n → os.rand_intn t n < n
  pub listen_at : (t p q : ℕ) → 0 < p → os.listen t p ≡ ok q → q ≡ p
  pub listen_any : (t q : ℕ) → os.listen t 0 ≡ ok q → 0 < q
  pub order_keys : (t p : ℕ) (ports : List ℕ) → has p (os.range_order t ports) ≡ has p ports

unfoldable pub get_free_port : Os → ℕ → ℕ → ℕ → Result ℕ
get_free_port os t lbound ubound =
    let target = os.rand_intn t (ubound - lbound + 1) + lbound in
    os.resolve t target >> os.listen t target

unfoldable pub is_port_occupied : Os → ℕ → ℕ → Bool
is_port_occupied os t port = elim (os.resolve t port >> os.listen t port) [
  | ok p ↦ false
  | err e ↦ true
]

-- The keys of the two maps, whose values are always true.
pub record PortsManager : Type 0 where
  pub ports_in_use : List ℕ
  pub allowed_ports : List ℕ

unfoldable pub new_ports_manager : PortsManager
new_ports_manager = record { ports_in_use = []; allowed_ports = [] }

-- `m[k] = true`.
abbrev pub add_key : ℕ → List ℕ → List ℕ
add_key k keys = if has k keys then keys else k ∷ keys

unfoldable pub add_allowed_port : PortsManager → ℕ → PortsManager
add_allowed_port m port = record m { allowed_ports = add_key port m.allowed_ports }

-- The loop over the allowed ports; the number beside the result is the count of calls.
unfoldable pub first_free : Os → List ℕ → ℕ → List ℕ → Option ℕ × ℕ
first_free os used t [] = (none, t)
first_free os used t (port ∷ rest) = elim (has port used) [
  | true ↦ first_free os used t rest
  | false ↦ elim (get_free_port os t port port) [
    | ok q ↦ (some port, suc t)
    | err e ↦ first_free os used (suc t) rest
  ]
]

pub all_unavailable : GoError
all_unavailable = message (str "All allowed ports are unavailable")

pub no_free_port : GoError
no_free_port = message (str "Unable To Reserve A Free Port")

unfoldable pub get_allowed_and_free_port : Os → PortsManager → ℕ → Result ℕ × ℕ
get_allowed_and_free_port os m t =
    if length m.allowed_ports == 0
    then (ok 0, t)
    else (let (found, t') = first_free os m.ports_in_use t (os.range_order t m.allowed_ports) in
        (elim found [ some port ↦ ok port | none ↦ err all_unavailable ], t'))

pub record Reserved : Type 0 where
  pub port : Result ℕ
  pub manager : PortsManager
  pub time : ℕ

-- `rounds` are the rounds left of the counted loop.
unfoldable pub reserve_loop : Os → PortsManager → ℕ → ℕ → Reserved
reserve_loop os m t zero = record { port = err no_free_port; manager = m; time = t }
reserve_loop os m t (suc rounds) =
    let (candidate, t') = get_allowed_and_free_port os m t in
    elim candidate [
      | err e ↦ record { port = err e; manager = m; time = t' }
      | ok wanted ↦ elim (get_free_port os t' wanted wanted) [
        | err e ↦ record { port = err e; manager = m; time = suc t' }
        | ok port ↦ elim (has port m.ports_in_use) [
          | true ↦ reserve_loop os m (suc t') rounds
          | false ↦ record {
            port = ok port;
            manager = record m { ports_in_use = port ∷ m.ports_in_use };
            time = suc t';
          }
        ]
      ]
    ]

unfoldable pub reserve_port : Os → PortsManager → ℕ → Reserved
reserve_port os m t = reserve_loop os m t 10000

pub not_in_use : GoError
not_in_use = message (str "Unable To Release Port Because Port Not In Use: ")

unfoldable pub release_port : PortsManager → ℕ → Option GoError × PortsManager
release_port m port =
    if has port m.ports_in_use
    then (none, record m { ports_in_use = without port m.ports_in_use })
    else (some not_in_use, m)
