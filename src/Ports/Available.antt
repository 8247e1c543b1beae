-- ===== src/Ports/Available.antt =====
-- When ReservePort of src/joebot/utils/ports_manager.go finds a port.
use joebot.Prelude.{
  ℕ, suc, ◌≡◌, refl, sym, ap, ◌∙◌, ◌≢◌, inl, inr, true, false, none, some, List, [], ◌∷◌, arith,
  ==_iff, Bool-cases, Option-cases, Result-cases, has, ok,
}
use joebot.Ports.{
  Os, IsOs, PortsManager, get_free_port, first_free, get_allowed_and_free_port, reserve_loop,
  reserve_port,
}
use joebot.Ports.Reserve.{first_free-some, get_free_port_same, has_positive}

-- A port can be listened on, whenever the code asks.
abbrev pub IsOpen : Os → ℕ → Type 0
IsOpen os p = (t : ℕ) → get_free_port os t p p ≡ ok p

-- While the code runs no other process opens or closes a port.
abbrev pub IsSteady : Os → Type 0
IsSteady os = (t p : ℕ) → get_free_port os t p p ≡ get_free_port os 0 p p

-- The port that the search stops at answered the probe.
first_free-answers :
    (os : Os)
    → IsSteady os
    → (used : List ℕ) (t : ℕ) (ports : List ℕ) (x : ℕ) → (first_free os used t ports).0 ≡ some x
    → (q : ℕ) × (get_free_port os 0 x x ≡ ok q)
unfolding first_free
first_free-answers os steady used t [] x e = cc
first_free-answers os steady used t (y ∷ ys) x e = elim (Bool-cases (has y used)) [
  | inl u ↦ first_free-answers os steady used t ys x (rw (u, first_free) at e)
  | inr u ↦ elim (Result-cases (get_free_port os t y y)) [
    | inl (q, free) ↦ (q, ground (arith, u, free, steady t y))
    | inr (z, busy) ↦ first_free-answers os steady used (suc t) ys x (rw (u, busy, first_free) at e)
  ]
]

-- The search does not pass over an open port that is not in use.
first_free-ne-none :
    (os : Os) (used : List ℕ) (t : ℕ) (ports : List ℕ) (p : ℕ)
    → has p ports ≡ true
    → has p used ≡ false
    → IsOpen os p
    → (first_free os used t ports).0 ≢ none
unfolding first_free
first_free-ne-none os used t [] p h u o e = cc
first_free-ne-none os used t (x ∷ xs) p h u o e = ground (
  arith,
  o t,
  ==_iff x p,
  first_free-ne-none os used t xs p,
  first_free-ne-none os used (suc t) xs p,
)

-- One round that finds a port ends the loop.
reserve_loop_hit :
    (os : Os) (m : PortsManager) (t n x : ℕ)
    → (get_allowed_and_free_port os m t).0 ≡ ok x
    → get_free_port os (get_allowed_and_free_port os m t).1 x x ≡ ok x
    → has x m.ports_in_use ≡ false
    → (reserve_loop os m t (suc n)).port ≡ ok x
unfolding reserve_loop
reserve_loop_hit os m t n x allow free fresh = rw (allow, free, fresh, reserve_loop) refl

candidate-found :
    (os : Os) (m : PortsManager) (t p x : ℕ)
    → has p m.allowed_ports ≡ true
    → (first_free os m.ports_in_use t (os.range_order t m.allowed_ports)).0 ≡ some x
    → (get_allowed_and_free_port os m t).0 ≡ ok x
unfolding get_allowed_and_free_port
candidate-found os m t p x listed found = ground (arith, not_nil)
  where
    not_nil : m.allowed_ports ≢ []
    not_nil e = cc (rw e at listed)

-- On a system that keeps the laws and where no other process opens or closes ports, a manager
-- whose allowed ports leave out 0 reserves a port whenever one of them is not in use and can be
-- listened on.
pub reserve_port_succeeds :
    (os : Os) (laws : IsOs os) (steady : IsSteady os) (m : PortsManager) (t p : ℕ)
    → has 0 m.allowed_ports ≡ false
    → has p m.allowed_ports ≡ true
    → has p m.ports_in_use ≡ false
    → IsOpen os p
    → (q : ℕ) × ((reserve_port os m t).port ≡ ok q)
unfolding reserve_port
reserve_port_succeeds os laws steady m t p no_zero listed unused opened =
    elim (Option-cases (first_free os m.ports_in_use t (os.range_order t m.allowed_ports)).0) [
      | inl e ↦ absurd (
          first_free-ne-none os m.ports_in_use t (os.range_order t m.allowed_ports) p
            (laws.order_keys t p m.allowed_ports ∙ listed) unused opened e)
      | inr (x, found) ↦
          let (q, answer) = first_free-answers os steady m.ports_in_use t _ x found in
          let (among, fresh) = first_free-some os m.ports_in_use t _ x found in
          let allow = candidate-found os m t p x listed found in
          let t' = (get_allowed_and_free_port os m t).1 in
          let pos = has_positive x _ no_zero (sym (laws.order_keys t x m.allowed_ports) ∙ among) in
          let same = get_free_port_same os laws 0 x q pos answer in
          (x, reserve_loop_hit os m t 9999 x allow (steady t' x ∙ answer ∙ ap ok same) fresh)
    ]
