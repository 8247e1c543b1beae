-- ===== src/Server/Registry.antt =====
-- What the list of clients in src/joebot/server/server.go stands for: the clients by their IDs, in
-- the order in which they came, with their tunnels. Addresses, the cells of the slice and the ports
-- manager are forgotten.
pub mod Heap
pub mod Apart
use joebot.Prelude.{
  ℕ, none, ◌&&◌, ◌≡◌, refl, ap, ◌∙◌, inl, inr, Bool, true, false, ◌||◌, List, [], ◌∷◌, ◌++◌, arith,
  ◌==◌, if◌then◌else◌, ==_iff, Bool-cases, str_eq, str_eq_refl, All, count, has, GoString,
}
use mathlib.Core.Path.{ap₂}
use joebot.Models.{PortTunnelInfo}
use joebot.Server.{Client, Server, update}
use joebot.Server.Tunnel.{find_tunnel}
use joebot.Slices.{visible}

pub record Entry : Type 0 where
  pub id : GoString
  pub tunnels : List PortTunnelInfo

abbrev pub Registry : Type 0
Registry = List Entry

abbrev pub entry_of : Client → Entry
entry_of c = record { id = c.id; tunnels = c.info.port_tunnels }

abbrev pub registry_of : (ℕ → Client) → List ℕ → Registry
registry_of heap [] = []
registry_of heap (a ∷ rest) = entry_of (heap a) ∷ registry_of heap rest

abbrev pub registry : Server → Registry
registry s = registry_of s.heap (visible s.clients)

abbrev pub without_id : GoString → Registry → Registry
without_id id [] = []
without_id id (e ∷ es) = if str_eq e.id id then without_id id es else e ∷ without_id id es

abbrev pub change_id : GoString → (List PortTunnelInfo → List PortTunnelInfo) → Registry → Registry
change_id id f [] = []
change_id id f (e ∷ es) =
    (if str_eq e.id id then record e { tunnels = f e.tunnels } else e) ∷ change_id id f es

abbrev pub has_entry : GoString → Registry → Bool
has_entry id [] = false
has_entry id (e ∷ es) = str_eq e.id id || has_entry id es

abbrev pub tunnelled : ℕ → List PortTunnelInfo → Bool
tunnelled port [] = false
tunnelled port (t ∷ ts) = t.client_port == port || tunnelled port ts

-- Whether the client with an ID has a tunnel to a port of its own.
abbrev pub has_port : GoString → ℕ → Registry → Bool
has_port id port [] = false
has_port id port (e ∷ es) = str_eq e.id id && tunnelled port e.tunnels || has_port id port es

-- A request for a tunnel of the client with an ID gives it at most one tunnel, to a port that had
-- none.
pub data Opens (id : GoString) (g g' : Registry) : Type 0 where
  stays : g' ≡ g → Opens id g g'
  opens :
      (tunnel : PortTunnelInfo)
      → has_entry id g ≡ true
      → has_port id tunnel.client_port g ≡ false
      → g' ≡ change_id id (λ ts. ts ++ (tunnel ∷ [])) g
      → Opens id g g'

-- Requests for tunnels of the client with an ID, one after the other.
pub data Opened (id : GoString) (g : Registry) : Registry → Type 0 where
  unopened : Opened id g g
  opened : {h k : Registry} → Opened id g h → Opens id h k → Opened id g k

-- What is asked of the server, with the ID of the client.
pub data Call : Type 0 where
  enters leaves serves informs : GoString → Call

-- The step of the registry for each call. A client enters once; a client that leaves takes its
-- entry with it, whether there was one or not; only a client that is there gets tunnels.
pub data Change (g g' : Registry) : Call → Type 0 where
  entered :
      (id : GoString)
      → has_entry id g ≡ false
      → g' ≡ g ++ (record { id = id; tunnels = [] } ∷ [])
      → Change g g' (enters id)
  left : (id : GoString) → g' ≡ without_id id g → Change g g' (leaves id)
  served : (id : GoString) → Opened id g g' → Change g g' (serves id)
  informed : (id : GoString) → g' ≡ g → Change g g' (informs id)

-- The steps for a list of calls, the last call first.
pub data Changes (g : Registry) : List Call → Registry → Type 0 where
  still : Changes g [] g
  later :
      {h k : Registry} {calls : List Call} {c : Call}
      → Changes g calls h
      → Change h k c
      → Changes g (c ∷ calls) k

-- A client that gives up its tunnels and leaves has left.
pub without_id-change_id :
    (id : GoString) (f : List PortTunnelInfo → List PortTunnelInfo) (g : Registry)
    → without_id id (change_id id f g) ≡ without_id id g
without_id-change_id id f [] = refl
without_id-change_id id f (e ∷ es) = elim (Bool-cases (str_eq e.id id)) [
  | inl hit ↦ rw (hit, hit) (without_id-change_id id f es)
  | inr miss ↦ rw (miss, miss) (ap (λ r. e ∷ r) (without_id-change_id id f es))
]
