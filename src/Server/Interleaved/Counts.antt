-- ===== src/Server/Interleaved/Counts.antt =====
-- Ports and services of the requests under way in src/joebot/server/client.go, by their counts.
use joebot.Prelude.{
  ℕ, zero, suc, ◌+◌, ◌≡◌, ◌≤◌, refl, ap, arith, List, [], ◌∷◌, ◌++◌, All, All-append, All-left,
  All-right, count,
}
use joebot.Server.{GostTunnel}
use joebot.Server.Accounting.{gost_ports}
use joebot.Server.Tunnel.{unlock}
use joebot.Server.Interleaved.{Asked, services, unlock_nth}

-- The ports of the requests under way.
abbrev pub asked_ports : List Asked → List ℕ
asked_ports [] = []
asked_ports (x ∷ xs) = x.tunnel.server_port ∷ asked_ports xs

pub gost_ports-unlock_nth :
    (gs : List GostTunnel) (i now : ℕ) → gost_ports (unlock_nth gs i now) ≡ gost_ports gs
unfolding unlock
gost_ports-unlock_nth [] i now = refl
gost_ports-unlock_nth (g ∷ gs) zero now = refl
gost_ports-unlock_nth (g ∷ gs) (suc i) now = ap (λ r. g.port ∷ r) (gost_ports-unlock_nth gs i now)

pub count-asked_ports :
    (p : ℕ) (pre : List Asked) (x : Asked) (post : List Asked)
    → count p (asked_ports (pre ++ (x ∷ post)))
      ≡ count p (x.tunnel.server_port ∷ []) + count p (asked_ports (pre ++ post))
count-asked_ports p [] x post = ground arith
count-asked_ports p (y ∷ pre) x post = ground (arith, count-asked_ports p pre x post)

pub count-services :
    (i : ℕ) (pre : List Asked) (x : Asked) (post : List Asked)
    → count i (services (pre ++ post)) ≤ count i (services (pre ++ (x ∷ post)))
count-services i [] x post = ground arith
count-services i (y ∷ pre) x post = ground (arith, count-services i pre x post)

pub All-without :
    {A : Type 0} (P : A → Type 0) (pre : List A) (x : A) (post : List A)
    → All P (pre ++ (x ∷ post))
    → All P (pre ++ post)
All-without P pre x post h =
    All-append P pre post (All-left P pre (x ∷ post) h) (All-right P pre (x ∷ post) h).1
