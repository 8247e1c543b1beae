-- ===== src/Server/Registry/Apart.antt =====
-- The ports of the clients in the registry that stands for the list of clients of
-- src/joebot/server/server.go.
use joebot.Prelude.{
  ℕ, ◌≡◌, refl, inl, inr, false, ◌||◌, List, [], ◌∷◌, ◌++◌, arith, ◌==◌, Bool-cases, str_eq, All,
  GoString,
}
use joebot.Models.{PortTunnelInfo}
use joebot.Server.Registry.{
  Entry, Registry, without_id, change_id, tunnelled, has_port, Opens, stays, opens, Opened,
  unopened, opened, Call, Change, entered, left, served, informed, Changes, still, later,
}

-- No two tunnels to one port.
abbrev pub Apart : List PortTunnelInfo → Type 0
Apart [] = Unit {0}
Apart (t ∷ ts) = (tunnelled t.client_port ts ≡ false) × Apart ts

-- In no entry of the registry two tunnels go to one port.
abbrev pub AllApart : Registry → Type 0
AllApart g = All (λ (e : Entry). Apart e.tunnels) g

tunnelled-append :
    (port : ℕ) (ts : List PortTunnelInfo) (u : PortTunnelInfo)
    → tunnelled port (ts ++ (u ∷ [])) ≡ (tunnelled port ts || u.client_port == port)
tunnelled-append port [] u = ground arith
tunnelled-append port (t ∷ ts) u = ground (arith, tunnelled-append port ts u)

Apart-append :
    (ts : List PortTunnelInfo) (u : PortTunnelInfo)
    → Apart ts
    → tunnelled u.client_port ts ≡ false
    → Apart (ts ++ (u ∷ []))
Apart-append [] u h new = (refl, tt)
Apart-append (t ∷ ts) u h new = (
  ground (arith, h.0, new, tunnelled-append t.client_port ts u),
  Apart-append ts u h.1 (ground (arith, new)),
)

AllApart-append :
    (g : Registry) (id : GoString)
    → AllApart g
    → AllApart (g ++ (record { id = id; tunnels = [] } ∷ []))
AllApart-append [] id h = (tt, tt)
AllApart-append (e ∷ es) id h = (h.0, AllApart-append es id h.1)

AllApart-without_id : (id : GoString) (g : Registry) → AllApart g → AllApart (without_id id g)
AllApart-without_id id [] h = tt
AllApart-without_id id (e ∷ es) h = elim (Bool-cases (str_eq e.id id)) [
  | inl hit ↦ rw hit (AllApart-without_id id es h.1)
  | inr miss ↦ rw miss (h.0, AllApart-without_id id es h.1)
]

AllApart-change_id :
    (id : GoString) (u : PortTunnelInfo) (g : Registry)
    → has_port id u.client_port g ≡ false
    → AllApart g
    → AllApart (change_id id (λ ts. ts ++ (u ∷ [])) g)
AllApart-change_id id u [] new h = tt
AllApart-change_id id u (e ∷ es) new h = elim (Bool-cases (str_eq e.id id)) [
  | inl hit ↦ rw hit (
    Apart-append e.tunnels u h.0 (ground (arith, hit, new)),
    AllApart-change_id id u es (ground (arith, hit, new)) h.1,
  )
  | inr miss ↦ rw miss (h.0, AllApart-change_id id u es (ground (arith, miss, new)) h.1)
]

AllApart-Opens : (id : GoString) {g g' : Registry} → Opens id g g' → AllApart g → AllApart g'
AllApart-Opens id (stays e) h = rw e h
AllApart-Opens id {g} (opens u there new e) h = rw e (AllApart-change_id id u g new h)

AllApart-Opened : (id : GoString) {g g' : Registry} → Opened id g g' → AllApart g → AllApart g'
AllApart-Opened id unopened h = h
AllApart-Opened id (opened before one) h = AllApart-Opens id one (AllApart-Opened id before h)

AllApart-Change : {g g' : Registry} {c : Call} → Change g g' c → AllApart g → AllApart g'
AllApart-Change {g} (entered id new e) h = rw e (AllApart-append g id h)
AllApart-Change {g} (left id e) h = rw e (AllApart-without_id id g h)
AllApart-Change (served id more) h = AllApart-Opened id more h
AllApart-Change (informed id e) h = rw e h

pub AllApart-Changes :
    {g g' : Registry} {calls : List Call} → Changes g calls g' → AllApart g → AllApart g'
AllApart-Changes still h = h
AllApart-Changes (later before c) h = AllApart-Change c (AllApart-Changes before h)
