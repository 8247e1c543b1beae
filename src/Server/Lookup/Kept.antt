-- ===== src/Server/Lookup/Kept.antt =====
-- A lookup by GetClientById of src/joebot/server/server.go that no removal overtakes.
use joebot.Prelude.{
  ℕ, suc, ◌+◌, ◌≡◌, refl, sym, ap, ◌∙◌, inl, inr, true, false, some, List, [], ◌∷◌, ◌++◌, arith,
  All, All-append, All-left, All-right, length, length-append, get_elem?, str_eq, str_eq_refl,
  str_eq→eq, GoString, ok, Result,
}
use mathlib.Core.List.{append_assoc}
use mathlib.Core.Path.{subst}
use joebot.Server.{Server, is_set, has_id, stopped_at, remove_client}
use joebot.Server.Clients.{Lacks, remove_client-none, remove_client-one}
use joebot.Server.Distinct.{
  Differ, Distinct, Identified, Distinct-before, Distinct-after, Distinct-cut,
  Identified-stopped_at, Lacks-of_Differ, Live, Live-stopped_at,
}
use joebot.Server.Leaving.{find_split}
use joebot.Server.Lookup.{now, after, remove_all, look_up, get_client_by_id_during}
use joebot.Slices.{Slice}
use joebot.Slices.Removal.{over, last_of, get_elem?-append}

module _ (ident : ℕ → GoString) where
  -- None of the clients has the ID.
  abbrev pub Spares : List ℕ → GoString → Type 0
  Spares xs id = All (λ x. str_eq (ident x) id ≡ false) xs

  Spares-Lacks :
      (s : Server) (xs : List ℕ) (id : GoString) → Identified ident s → Spares xs id → Lacks s id xs
  Spares-Lacks s [] id named h = tt
  Spares-Lacks s (x ∷ xs) id named h = (rw (named x) h.0, Spares-Lacks s xs id named h.1)

  -- The list of the server begins with `front`, and the clients behind that have sessions.
  record Begins (P : ℕ → Type 0) (front : List ℕ) (s : Server) : Type 0 where
    rest : List ℕ
    junk : List ℕ
    listed : s.clients ≡ over (front ++ rest) junk
    named : Identified ident s
    live : Live P s
    ready : All P rest
    distinct : Distinct ident (front ++ rest)

  remove_client-Begins :
      (P : ℕ → Type 0) (front : List ℕ) (s : Server) (id : GoString)
      → Begins P front s
      → Spares front id
      → (s' : Server) × (res : Result ℕ) × (remove_client s id ≡ some (s', res)) × Begins P front s'
  remove_client-Begins P front s id h spared = elim (find_split s id h.rest) [
    | inl lacks ↦ (
      s,
      _,
      remove_client-none s id (front ++ h.rest) h.junk h.listed (
          All-append (λ a. has_id s id a ≡ false) front h.rest
            (Spares-Lacks s front id h.named spared) lacks),
      h,
    )
    | inr (p, d, q, e, before, hit) ↦
        let split : front ++ h.rest ≡ (front ++ p) ++ (d ∷ q) =
          ap (λ xs. front ++ xs) e ∙ sym (append_assoc front p (d ∷ q)) in
        let apart : Distinct ident ((front ++ p) ++ (d ∷ q)) =
          subst (λ xs. Distinct ident xs) split h.distinct in
        let same : (s.heap d).id ≡ id = str_eq→eq _ _ hit in
        let q_ready = subst (λ xs. All P xs) e h.ready in
        (
          record (stopped_at d s) { clients = over ((front ++ p) ++ q) (last_of d q ∷ h.junk) },
          ok d,
          remove_client-one s id (front ++ p) d q h.junk
              (h.listed ∙ ap (λ xs. over xs h.junk) split)
              (All-append (λ a. has_id s id a ≡ false) front p
                (Spares-Lacks s front id h.named spared) before)
              hit (h.live d (All-right P p (d ∷ q) q_ready).0)
              (subst (λ i. Lacks s i q) same
                (Lacks-of_Differ ident s d q h.named
                  (Distinct-after ident (front ++ p) d q apart))),
          record {
            rest = p ++ q;
            junk = last_of d q ∷ h.junk;
            listed = ap (λ xs. over xs (last_of d q ∷ h.junk)) (append_assoc front p q);
            named = Identified-stopped_at ident s d h.named;
            live = Live-stopped_at P s d h.live;
            ready =
                All-append P p q (All-left P p (d ∷ q) q_ready) (All-right P p (d ∷ q) q_ready).1;
            distinct =
                subst (λ xs. Distinct ident xs) (append_assoc front p q)
                  (Distinct-cut ident (front ++ p) d q apart);
          },
        )
  ]

  remove_all-Begins :
      (P : ℕ → Type 0) (front : List ℕ) (s : Server) (ids : List GoString)
      → Begins P front s
      → All (Spares front) ids
      → (s' : Server) × (remove_all s ids ≡ some s') × Begins P front s'
  unfolding remove_all
  remove_all-Begins P front s [] h spared = (s, refl, h)
  remove_all-Begins P front s (id ∷ ids) h spared =
      let (s', res, e, h') = remove_client-Begins P front s id h spared.0 in
      let (s'', e', h'') = remove_all-Begins P front s' ids h' spared.1 in
      (s'', rw (e, remove_all) e', h'')

  All-now :
      (P : List GoString → Type 0) (removals : List (List GoString))
      → P []
      → All P removals
      → P (now removals) × All P (after removals)
  All-now P [] none_left h = (none_left, tt)
  All-now P (ids ∷ later) none_left h = h

  module _ (P : ℕ → Type 0) (front : List ℕ) where
    cell_of :
        (s : Server) (pre others : List ℕ) (x i : ℕ)
        → front ≡ pre ++ (x ∷ others)
        → i ≡ length pre
        → Begins P front s
        → get_elem? s.clients.cells i ≡ some x
    cell_of s pre others x i e at_i h =
        ap (λ (c : Slice ℕ). get_elem? c.cells i) h.listed
        ∙ ap (λ xs. get_elem? ((xs ++ h.rest) ++ h.junk) i) e
        ∙ ap (λ xs. get_elem? (xs ++ h.junk) i) (append_assoc pre (x ∷ others) h.rest)
        ∙ ap (λ xs. get_elem? xs i) (append_assoc pre (x ∷ (others ++ h.rest)) h.junk)
        ∙ rw at_i (get_elem?-append pre ((others ++ h.rest) ++ h.junk) x)

    look_up-Begins :
        (pre todo : List ℕ) (c i more : ℕ) (s : Server) (removals : List (List GoString))
        → front ≡ pre ++ (todo ++ (c ∷ []))
        → i ≡ length pre
        → Begins P front s
        → Spares todo (ident c)
        → All (λ ids. All (Spares front) ids) removals
        → (s' : Server) × (look_up i (suc (length todo + more)) s (ident c) removals
            ≡ some (s', ok c))
    unfolding look_up
    look_up-Begins pre [] c i more s removals e at_i h misses spared =
        let (spared_now, later) = All-now (λ ids. All (Spares front) ids) removals tt spared in
        let (s', removed, h') = remove_all-Begins P front s (now removals) h spared_now in
        let hit : has_id s' (ident c) c ≡ true = rw (h'.named c) (str_eq_refl (ident c)) in
        (s', rw (removed, cell_of s' pre [] c i e at_i h', hit, look_up) refl)
    look_up-Begins pre (x ∷ todo) c i more s removals e at_i h misses spared =
        let (spared_now, later) = All-now (λ ids. All (Spares front) ids) removals tt spared in
        let (s', removed, h') = remove_all-Begins P front s (now removals) h spared_now in
        let miss : has_id s' (ident c) x ≡ false = rw (h'.named x) misses.0 in
        let (s'', found) =
          look_up-Begins (pre ++ (x ∷ [])) todo c (suc i) more s' (after removals)
            (e ∙ sym (append_assoc pre (x ∷ []) (todo ++ (c ∷ []))))
            (omega (arith, length-append pre (x ∷ []))) h' misses.1 later in
        (
          s'',
          rw (removed, cell_of s' pre (todo ++ (c ∷ [])) x i e at_i h', miss, look_up)
              (ap (λ k. look_up (suc i) k s' (ident c) (after removals)) one_less ∙ found),
        )
      where
        one_less : length (x ∷ todo) + more ≡ suc (length todo + more)
        one_less = omega arith

  Distinct-Spares : (pre : List ℕ) (c : ℕ) → All (λ y. Differ ident y c) pre → Spares pre (ident c)
  Distinct-Spares [] c h = tt
  Distinct-Spares (x ∷ pre) c h = (h.0, Distinct-Spares pre c h.1)

  -- Where no two clients of the list have the same ID, GetClientById finds a client of the list as
  -- long as neither it nor a client before it is removed between the rounds, whichever clients behind
  -- it are; those have sessions.
  pub get_client_by_id_during-finds :
      (s : Server) (pre : List ℕ) (c : ℕ) (post junk : List ℕ)
      → s.clients ≡ over (pre ++ (c ∷ post)) junk
      → Identified ident s
      → Distinct ident (pre ++ (c ∷ post))
      → All (λ a. is_set (s.heap a).session ≡ true) post
      → (removals : List (List GoString)) → All (λ ids. All (Spares (pre ++ (c ∷ []))) ids) removals
      → (s' : Server) × (get_client_by_id_during s (ident c) removals ≡ some (s', ok c))
  unfolding get_client_by_id_during
  get_client_by_id_during-finds s pre c post junk e named distinct ready removals spared =
      let joined : pre ++ (c ∷ post) ≡ (pre ++ (c ∷ [])) ++ post =
        sym (append_assoc pre (c ∷ []) post) in
      let (s', found) =
        look_up-Begins (λ a. is_set (s.heap a).session ≡ true) (pre ++ (c ∷ [])) [] pre c 0
          (length post) s removals refl refl
          (record {
            rest = post;
            junk = junk;
            listed = e ∙ ap (λ xs. over xs junk) joined;
            named = named;
            live = λ a set. set;
            ready = ready;
            distinct = subst (λ xs. Distinct ident xs) joined distinct;
          })
          (Distinct-Spares pre c (Distinct-before ident pre c post distinct)) spared in
      (
        s',
        ap (λ (k : Slice ℕ). look_up 0 k.len s (ident c) removals) e
            ∙ ap (λ k. look_up 0 k s (ident c) removals) rounds
            ∙ found,
      )
    where
      rounds : length (pre ++ (c ∷ post)) ≡ suc (length pre + length post)
      rounds = omega (arith, length-append pre (c ∷ post))
