-- ===== src/Server/Lookup/Missed.antt =====
-- A lookup by GetClientById of src/joebot/server/server.go that a removal overtakes.
use joebot.Prelude.{
  ℕ, suc, ◌≡◌, refl, sym, ap, ◌∙◌, true, false, some, List, [], ◌∷◌, ◌++◌, arith, All, All-append,
  length, length-append, take-append, get_elem?, str_eq, str_eq_refl, GoString, err, ok,
}
use mathlib.Core.List.{append_assoc}
use mathlib.Core.Path.{subst}
use joebot.Server.{Server, is_set, has_id, stopped_at, remove_client, client_not_found, find_id}
use joebot.Server.Clients.{Lacks, remove_client-one}
use joebot.Server.Distinct.{Differ, Distinct, Identified, Identified-stopped_at, Lacks-of_Differ}
use joebot.Server.Lookup.{look_up, remove_all, get_client_by_id_during}
use joebot.Server.Lookup.Found.{look_up_quiet, All-last_of}
use joebot.Slices.{Slice, visible}
use joebot.Slices.Removal.{over, last_of}

find_id-lacks :
    (s : Server) (id : GoString) (xs : List ℕ)
    → Lacks s id xs
    → find_id s id xs ≡ err client_not_found
unfolding find_id
find_id-lacks s id [] h = refl
find_id-lacks s id (x ∷ xs) h = rw (h.0, find_id) (find_id-lacks s id xs h.1)

module _ (ident : ℕ → GoString) where
  Lacks-ident :
      (s : Server) (c : ℕ) (xs : List ℕ)
      → Identified ident s
      → All (λ q. Differ ident q c) xs
      → Lacks s (ident c) xs
  Lacks-ident s c xs named h =
      subst (λ id. Lacks s id xs) (named c) (Lacks-of_Differ ident s c xs named h)

  All-back :
      (c : ℕ) (xs : List ℕ)
      → All (λ q. Differ ident c q × Differ ident q c) xs
      → All (λ q. Differ ident q c) xs
  All-back c [] h = tt
  All-back c (x ∷ xs) h = (h.0.1, All-back c xs h.1)

  module _ (s : Server) (x y z : ℕ) (post junk : List ℕ)
      (e : s.clients ≡ over (x ∷ (y ∷ (z ∷ post))) junk) (named : Identified ident s)
      (distinct : Distinct ident (x ∷ (y ∷ (z ∷ post))))
      (set : is_set (s.heap x).session ≡ true) where
    -- The server once `x` is removed.
    abbrev pub overtaken : Server
    overtaken = record (stopped_at x s) { clients = over (y ∷ (z ∷ post)) (last_of z post ∷ junk) }

    after_removal : remove_all s (ident x ∷ []) ≡ some overtaken
    unfolding remove_all
    after_removal = rw (removed, remove_all) refl
      where
        removed : remove_client s (ident x) ≡ some (overtaken, ok x)
        removed =
            remove_client-one s (ident x) [] x (y ∷ (z ∷ post)) junk e tt
              (subst (λ id. str_eq (s.heap x).id id ≡ true) (named x) (str_eq_refl (s.heap x).id))
              set (Lacks-ident s x (y ∷ (z ∷ post)) named (All-back x (y ∷ (z ∷ post)) distinct.0))

    -- No client behind `y` has its ID, whatever cells hold it.
    behind : Lacks overtaken (ident y) (z ∷ (post ++ (last_of z post ∷ [])))
    behind =
        let others = All-back y (z ∷ post) distinct.1.0 in
        Lacks-ident overtaken y (z ∷ (post ++ (last_of z post ∷ [])))
          (Identified-stopped_at ident s x named)
          (
            others.0,
            All-append (λ q. Differ ident q y) post (last_of z post ∷ []) others.1
                (All-last_of (λ q. Differ ident q y) z post others, tt),
          )

    rest_quiet :
        look_up 2 (length (post ++ (last_of z post ∷ []))) overtaken (ident y) []
        ≡ some (overtaken, err client_not_found)
    rest_quiet =
        look_up_quiet overtaken (ident y) (y ∷ (z ∷ [])) (post ++ (last_of z post ∷ [])) junk 2
          (ap (λ t. y ∷ (z ∷ t)) (sym (append_assoc post (last_of z post ∷ []) junk))) refl
        ∙ ap (λ r. some (overtaken, r))
            (find_id-lacks overtaken (ident y) (post ++ (last_of z post ∷ [])) behind.1)

    first_round :
        look_up 0 (suc (suc (suc (length post)))) s (ident y) ([] ∷ ((ident x ∷ []) ∷ []))
        ≡ look_up 1 (suc (suc (length post))) s (ident y) ((ident x ∷ []) ∷ [])
    unfolding look_up remove_all
    first_round = rw (cell, miss, look_up) refl
      where
        cell : get_elem? s.clients.cells 0 ≡ some x
        cell = ap (λ (c : Slice ℕ). get_elem? c.cells 0) e

        miss : has_id s (ident y) x ≡ false
        miss = (Lacks-ident s y (x ∷ []) named (distinct.0.0.0, tt)).0

    second_round :
        look_up 1 (suc (suc (length post))) s (ident y) ((ident x ∷ []) ∷ [])
        ≡ look_up 2 (suc (length post)) overtaken (ident y) []
    unfolding look_up
    second_round = rw (after_removal, behind.0, look_up) refl

    -- In a list of at least three clients with different IDs, when the first, which has a session, is removed after the
    -- first round, the lookup of the second returns an error, though it is in the list all the time:
    -- at the end it is the first.
    pub get_client_by_id_during-missed :
        (get_client_by_id_during s (ident y) ([] ∷ ((ident x ∷ []) ∷ []))
          ≡ some (overtaken, err client_not_found))
        × (visible overtaken.clients ≡ y ∷ (z ∷ post))
    unfolding get_client_by_id_during
    get_client_by_id_during-missed = (
      ap (λ (c : Slice ℕ). look_up 0 c.len s (ident y) ([] ∷ ((ident x ∷ []) ∷ []))) e
          ∙ (first_round
              ∙ (second_round
                  ∙ (ap (λ k. look_up 2 k overtaken (ident y) []) one_more ∙ rest_quiet))),
      take-append (y ∷ (z ∷ post)) (last_of z post ∷ junk),
    )
      where
        one_more : suc (length post) ≡ length (post ++ (last_of z post ∷ []))
        one_more = omega (arith, length-append post (last_of z post ∷ []))
