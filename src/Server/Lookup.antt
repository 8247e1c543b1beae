-- ===== src/Server/Lookup.antt =====
-- GetClientById of src/joebot/server/server.go, which takes no lock, while other goroutines call
-- RemoveClient, which does: its loop reads each cell as it is in that round.
pub mod Found
pub mod Missed
pub mod Kept
use joebot.Prelude.{
  ℕ, zero, suc, true, false, Option, none, some, List, [], ◌∷◌, get_elem?, GoString, Result, ok,
  err,
}
use joebot.Server.{Server, has_id, remove_client, client_not_found}

-- Calls of RemoveClient one after the other. `none` is a panic.
unfoldable pub remove_all : Server → List GoString → Option Server
remove_all s [] = some s
remove_all s (id ∷ ids) = elim (remove_client s id) [
  | none ↦ none
  | some (s', removed) ↦ remove_all s' ids
]

-- The IDs whose clients are removed before a round, and those that are removed later.
abbrev pub now : List (List GoString) → List GoString
now [] = []
now (ids ∷ later) = ids

abbrev pub after : List (List GoString) → List (List GoString)
after [] = []
after (ids ∷ later) = later

-- The rounds of the loop from the cell `i` on.
unfoldable pub look_up :
    ℕ → ℕ → Server → GoString → List (List GoString) → Option (Server × Result ℕ)
unfolding remove_all
look_up i zero s id removals = some (s, err client_not_found)
look_up i (suc todo) s id removals = elim (remove_all s (now removals)) [
  | none ↦ none
  | some s' ↦ elim (get_elem? s'.clients.cells i) [
    | none ↦ none
    | some a ↦ elim (has_id s' id a) [
      | true ↦ some (s', ok a)
      | false ↦ look_up (suc i) todo s' id (after removals)
    ]
  ]
]

-- The length that `range` runs to is read once.
unfoldable pub get_client_by_id_during :
    Server → GoString → List (List GoString) → Option (Server × Result ℕ)
unfolding look_up
get_client_by_id_during s id removals = look_up 0 s.clients.len s id removals
