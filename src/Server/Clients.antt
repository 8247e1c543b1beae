-- ===== src/Server/Clients.antt =====
-- RemoveClient, AddClient and GetClientById of src/joebot/server/server.go.
use joebot.Prelude.{
  ℕ, ◌≡◌, sym, ap, ◌∙◌, true, false, Option, none, some, List, ◌∷◌, ◌++◌, All, GoString, Result, ok,
  err,
}
use joebot.Slices.{Removed}
use mathlib.Core.Option
use joebot.Slices.Removal.{over, last_of, range_remove_one, range_remove-none, range_remove_panics}
use joebot.Server.{
  Server, is_set, stop_at, stop_at-set, stop_at-unset, stopped_at, has_id, remove_from,
  remove_client, remove_failed,
}

abbrev finish : Option (Removed ℕ Server) → Option (Server × Result ℕ)
finish = Option.map (λ r. (
  record (r.state) { clients = r.slice },
  elim r.found [ some a ↦ ok a | none ↦ err remove_failed ],
))

-- No client of a list has the ID.
abbrev pub Lacks : Server → GoString → List ℕ → Type 0
Lacks s id xs = All (λ a. has_id s id a ≡ false) xs

-- RemoveClient on a list in which exactly one client has the ID, and that one a session: it is stopped and taken
-- out, the others keep their order, and the client is returned.
pub remove_client-one :
    (s : Server) (id : GoString) (pre : List ℕ) (c : ℕ) (post junk : List ℕ)
    → s.clients ≡ over (pre ++ (c ∷ post)) junk
    → Lacks s id pre
    → has_id s id c ≡ true
    → is_set (s.heap c).session ≡ true
    → Lacks s id post
    → remove_client s id
      ≡ some
          (record (stopped_at c s) { clients = over (pre ++ post) (last_of c post ∷ junk) }, ok c)
unfolding remove_client
remove_client-one s id pre c post junk e before here set after =
    ap (λ clients. remove_from clients s id) e
    ∙ ap (λ r. finish r)
        (range_remove_one stop_at (has_id s id) pre c post junk s (stopped_at c s) before here
          (stop_at-set c s set) after)

-- RemoveClient panics where the client with the ID has no session yet.
pub remove_client-unset :
    (s : Server) (id : GoString) (pre : List ℕ) (c : ℕ) (post junk : List ℕ)
    → s.clients ≡ over (pre ++ (c ∷ post)) junk
    → Lacks s id pre
    → has_id s id c ≡ true
    → is_set (s.heap c).session ≡ false
    → remove_client s id ≡ none
unfolding remove_client
remove_client-unset s id pre c post junk e before here not_set =
    ap (λ clients. remove_from clients s id) e
    ∙ ap (λ r. finish r)
        (range_remove_panics stop_at (has_id s id) pre c post junk s before here
          (stop_at-unset c s not_set))

-- Where no client has the ID, RemoveClient returns an error and changes nothing.
pub remove_client-none :
    (s : Server) (id : GoString) (xs junk : List ℕ)
    → s.clients ≡ over xs junk
    → Lacks s id xs
    → remove_client s id ≡ some (s, err remove_failed)
unfolding remove_client
remove_client-none s id xs junk e lacks =
    ap (λ clients. remove_from clients s id) e
    ∙ ap (λ r. finish r) (range_remove-none stop_at (has_id s id) xs junk s lacks)
    ∙ ap (λ clients. some (record s { clients = clients }, err remove_failed)) (sym e)
