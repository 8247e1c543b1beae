-- ===== src/Server/Accounting/Held.antt =====
-- Which ports the clients of src/joebot/server/server.go hold, and how releasing them changes the
-- manager's map.
use joebot.Prelude.{
  ℕ, ◌+◌, ◌≡◌, refl, ap, ◌∙◌, inl, inr, List, [], ◌∷◌, ◌++◌, arith, ◌==◌, if◌then◌else◌, Bool-cases,
  count, has,
}
use joebot.Models.{PortTunnelInfo}
use joebot.Ports.{PortsManager, release_port}
use joebot.Ports.History.{release_port_lem}
use joebot.Server.{Client, update, release_tunnels}

abbrev pub server_ports : List PortTunnelInfo → List ℕ
server_ports [] = []
server_ports (t ∷ ts) = t.server_port ∷ server_ports ts

-- How many tunnels of the clients at these addresses have the server port.
abbrev pub held : (ℕ → Client) → List ℕ → ℕ → ℕ
held heap [] p = 0
held heap (a ∷ rest) p = count p (server_ports (heap a).info.port_tunnels) + held heap rest p

pub server_ports-append :
    (ts us : List PortTunnelInfo) → server_ports (ts ++ us) ≡ server_ports ts ++ server_ports us
server_ports-append [] us = refl
server_ports-append (t ∷ ts) us = ap (λ r. t.server_port ∷ r) (server_ports-append ts us)

pub held-append :
    (heap : ℕ → Client) (xs ys : List ℕ) (p : ℕ)
    → held heap (xs ++ ys) p ≡ held heap xs p + held heap ys p
held-append heap [] ys p = omega arith
held-append heap (x ∷ xs) ys p = omega (arith, held-append heap xs ys p)

pub held-update_absent :
    (heap : ℕ → Client) (a : ℕ) (c : Client) (xs : List ℕ) (p : ℕ)
    → count a xs ≡ 0
    → held (update heap a c) xs p ≡ held heap xs p
held-update_absent heap a c [] p h = refl
held-update_absent heap a c (x ∷ xs) p h = ground (arith, held-update_absent heap a c xs p)

-- A client that stands once in the list: its ports are exchanged, the others' stay.
pub held-update :
    (heap : ℕ → Client) (a : ℕ) (c : Client) (xs : List ℕ) (p : ℕ)
    → count a xs ≡ 1
    → held (update heap a c) xs p + count p (server_ports (heap a).info.port_tunnels)
      ≡ held heap xs p + count p (server_ports c.info.port_tunnels)
held-update heap a c [] p h = absurd (omega arith)
held-update heap a c (x ∷ xs) p h = elim (Bool-cases (x == a)) [
  | inl e ↦ ground (arith, e, held-update_absent heap a c xs p)
  | inr e ↦ ground (arith, e, held-update heap a c xs p)
]

-- Releasing the ports of a list of tunnels takes exactly those out of use.
pub release_tunnels_lem :
    (m : PortsManager) (ts : List PortTunnelInfo) (p : ℕ)
    → (count p (release_tunnels m ts).ports_in_use
        ≡ (if has p (server_ports ts) then 0 else count p m.ports_in_use))
      × ((release_tunnels m ts).allowed_ports ≡ m.allowed_ports)
unfolding release_tunnels
release_tunnels_lem m [] p = (refl, refl)
release_tunnels_lem m (t ∷ ts) p =
    let (shut, same) = release_tunnels_lem (release_port m t.server_port).1 ts p in
    let (_, gone, kept) = release_port_lem m t.server_port p in
    (ground (arith, shut, gone), same ∙ kept)
