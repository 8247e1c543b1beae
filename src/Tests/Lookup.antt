-- ===== src/Tests/Lookup.antt =====
-- Lookups among three clients of which one is removed meanwhile, for the tests of
-- src/joebot/server.
use joebot.Prelude.{All, str_eq, ◌≡◌, refl, some, [], ◌∷◌, ok, err}
use joebot.Server.{Server, client_not_found, get_client_by_id}
use joebot.Server.Lookup.{get_client_by_id_during}
use joebot.Server.Lookup.Found.{get_client_by_id_during-get_client_by_id}
use joebot.Server.Lookup.Kept.{Spares, get_client_by_id_during-finds}
use joebot.Server.Lookup.Missed.{overtaken, get_client_by_id_during-missed}
use joebot.Slices.{visible}
use joebot.Tests.Server.{ident, three_clients, all_differ}

get_client_by_id_during-get_client_by_id_example :
    get_client_by_id_during three_clients (2 ∷ []) []
    ≡ some (three_clients, get_client_by_id three_clients (2 ∷ []))
get_client_by_id_during-get_client_by_id_example =
    get_client_by_id_during-get_client_by_id three_clients (2 ∷ []) (1 ∷ (2 ∷ (3 ∷ []))) [] refl

abbrev two_left : Server
two_left = overtaken ident three_clients 1 2 3 [] [] refl (λ a. refl) all_differ refl

get_client_by_id_during-missed_example :
    (get_client_by_id_during three_clients (2 ∷ []) ([] ∷ (((1 ∷ []) ∷ []) ∷ []))
      ≡ some (two_left, err client_not_found))
    × (visible two_left.clients ≡ 2 ∷ (3 ∷ []))
get_client_by_id_during-missed_example =
    get_client_by_id_during-missed ident three_clients 1 2 3 [] [] refl (λ a. refl) all_differ refl

Spares-front : All (λ ids. All (Spares ident (1 ∷ (2 ∷ []))) ids) ([] ∷ (((3 ∷ []) ∷ []) ∷ []))
unfolding str_eq
Spares-front = (tt, (((refl, (refl, tt)), tt), tt))

get_client_by_id_during-finds_example :
    (s' : Server) × (get_client_by_id_during three_clients (2 ∷ []) ([] ∷ (((3 ∷ []) ∷ []) ∷ []))
      ≡ some (s', ok 2))
get_client_by_id_during-finds_example =
    get_client_by_id_during-finds ident three_clients (1 ∷ []) 2 (3 ∷ []) [] refl (λ a. refl)
      all_differ (refl, tt) ([] ∷ (((3 ∷ []) ∷ []) ∷ [])) Spares-front
