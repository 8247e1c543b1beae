-- ===== src/Server/Shutdown.antt =====
-- Which clients Stop of src/joebot/server/server.go removes: it ranges over the client list while
-- RemoveClient moves the elements of that list down.
use joebot.Prelude.{
  ℕ, zero, suc, ◌+◌, ◌≡◌, refl, sym, ap, ◌∙◌, true, Option, some, List, [], ◌∷◌, ◌++◌, arith,
  str_eq_refl, length, get_elem?, All, length-append, All-append, take-append, GoString, ok,
}
use mathlib.Core.List.{append_assoc, append-nil}
use mathlib.Core.Option
use joebot.Slices.{Slice, visible}
use joebot.Slices.Removal.{over, last_of, get_elem?-append}
use joebot.Server.{
  no_listener, listening, Server, Listener, has_listener, shut, close_listener, is_set, stopped_at,
  remove_client, stop_loop, server_stop,
}
use joebot.Server.Clients.{Lacks, remove_client-one, remove_client-none}
use joebot.Server.Distinct.{
  Differ, Distinct, Identified, Distinct-before, Distinct-after, Distinct-cut,
  Identified-stopped_at, Lacks-of_Differ, Live, Live-stopped_at,
}

-- Every second client from the second on, but for the last client.
pub survivors : List ℕ → List ℕ
survivors [] = []
survivors (a ∷ []) = []
survivors (a ∷ (b ∷ [])) = []
survivors (a ∷ (b ∷ (c ∷ rest))) = b ∷ survivors (c ∷ rest)

module _ (ident : ℕ → GoString) (P : ℕ → Type 0) where
  -- Rounds over cells whose clients are not in the list.
  stop_loop_idle :
      (seg pre rest xs junk : List ℕ) (i : ℕ) (s : Server)
      → s.clients ≡ over xs junk
      → xs ++ junk ≡ pre ++ (seg ++ rest)
      → i ≡ length pre
      → All (λ q. Lacks s (s.heap q).id xs) seg
      → stop_loop i (length seg) s ≡ some s
  unfolding stop_loop
  stop_loop_idle [] pre rest xs junk i s e cells at_i lacks = refl
  stop_loop_idle (q ∷ seg) pre rest xs junk i s e cells at_i lacks =
      rw (cell, remove_client-none s (s.heap q).id xs junk e lacks.0, stop_loop)
        (stop_loop_idle seg (pre ++ (q ∷ [])) rest xs junk (suc i) s e
          (cells ∙ sym (append_assoc pre (q ∷ []) (seg ++ rest)))
          (omega (arith, length-append pre (q ∷ []))) lacks.1)
    where
      cell : get_elem? s.clients.cells i ≡ some q
      cell =
          ap (λ (c : Slice ℕ). get_elem? c.cells i) e
          ∙ rw (cells, at_i) (get_elem?-append pre (seg ++ rest) q)

  -- A round that reads the client behind `pre`, in whatever cell, removes it.
  stop_loop_hit :
      (pre : List ℕ) (c : ℕ) (post junk : List ℕ) (i todo : ℕ) (s : Server)
      → s.clients ≡ over (pre ++ (c ∷ post)) junk
      → get_elem? ((pre ++ (c ∷ post)) ++ junk) i ≡ some c
      → Identified ident s
      → Distinct ident (pre ++ (c ∷ post))
      → is_set (s.heap c).session ≡ true
      → stop_loop i (suc todo) s
        ≡ stop_loop
            (suc i)
            todo
            (record (stopped_at c s) { clients = over (pre ++ post) (last_of c post ∷ junk) })
  unfolding stop_loop
  stop_loop_hit pre c post junk i todo s e at_i ids d set = rw (cell, removal, stop_loop)
    where
      cell : get_elem? s.clients.cells i ≡ some c
      cell = ap (λ (k : Slice ℕ). get_elem? k.cells i) e ∙ at_i

      removal :
          remove_client s (s.heap c).id
          ≡ some (
            record (stopped_at c s) { clients = over (pre ++ post) (last_of c post ∷ junk) },
            ok c,
          )
      removal =
          remove_client-one s (s.heap c).id pre c post junk e
            (Lacks-of_Differ ident s c pre ids (Distinct-before ident pre c post d))
            (str_eq_refl (s.heap c).id) set
            (Lacks-of_Differ ident s c post ids (Distinct-after ident pre c post d))

  abbrev Stops : List ℕ → Option Server → Type 0
  Stops xs r = (s : Server) × (r ≡ some s) × (visible s.clients ≡ xs) × Identified ident s

  idle-Stops :
      (kept pre seg rest junk : List ℕ) (i todo : ℕ) (s : Server)
      → s.clients ≡ over kept junk
      → kept ++ junk ≡ pre ++ (seg ++ rest)
      → i ≡ length pre
      → todo ≡ length seg
      → Identified ident s
      → All (λ q. All (λ y. Differ ident y q) kept) seg
      → Stops kept (stop_loop i todo s)
  idle-Stops kept pre seg rest junk i todo s e cells at_i n ids differ = (
    s,
    ap (λ k. stop_loop i k s) n
        ∙ stop_loop_idle seg pre rest kept junk i s e cells at_i (lacks seg differ),
    ap visible e ∙ take-append kept junk,
    ids,
  )
    where
      lacks :
          (qs : List ℕ)
          → All (λ q. All (λ y. Differ ident y q) kept) qs
          → All (λ q. Lacks s (s.heap q).id kept) qs
      lacks [] h = tt
      lacks (q ∷ qs) h = (Lacks-of_Differ ident s q kept ids h.0, lacks qs h.1)

  same-Differ :
      (w : ℕ) (ys qs : List ℕ)
      → All (λ q. q ≡ w) qs
      → All (λ y. Differ ident y w) ys
      → All (λ q. All (λ y. Differ ident y q) ys) qs
  same-Differ w ys [] h k = tt
  same-Differ w ys (q ∷ qs) h k = (rw h.0 k, same-Differ w ys qs h.1 k)

  cell_behind :
      (kept : List ℕ) (c : ℕ) (post junk : List ℕ) (i : ℕ)
      → i ≡ length kept
      → get_elem? ((kept ++ (c ∷ post)) ++ junk) i ≡ some c
  cell_behind kept c post junk i e =
      rw (e, append_assoc kept (c ∷ post) junk) (get_elem?-append kept (post ++ junk) c)

  -- The last element again, in the cell behind the slice.
  cell_copy :
      (kept : List ℕ) (c : ℕ) (junk : List ℕ) (i : ℕ)
      → i ≡ suc (length kept)
      → get_elem? ((kept ++ (c ∷ [])) ++ (c ∷ junk)) i ≡ some c
  cell_copy kept c junk i e =
      ap (get_elem? ((kept ++ (c ∷ [])) ++ (c ∷ junk))) (omega (arith, length-append kept (c ∷ [])))
      ∙ get_elem?-append (kept ++ (c ∷ [])) junk c

  stop_loop-Stops :
      (kept : List ℕ) (x : ℕ) (xs junk rest : List ℕ) (i todo : ℕ) (s : Server)
      → s.clients ≡ over (kept ++ (x ∷ xs)) (junk ++ rest)
      → i ≡ length kept
      → todo ≡ suc (length xs) + length junk
      → Identified ident s
      → Distinct ident (kept ++ (x ∷ xs))
      → All (λ q. q ≡ last_of x xs) junk
      → Live P s
      → All P (x ∷ xs)
      → Stops (kept ++ survivors (x ∷ xs)) (stop_loop i todo s)
  unfolding survivors
  stop_loop-Stops kept x xs junk rest i zero s e at_i n ids d copies live ready =
      absurd (omega arith)
  stop_loop-Stops kept x [] junk rest i (suc todo) s e at_i n ids d copies live ready =
      rw
        (stop_loop_hit kept x [] (junk ++ rest) i todo s e (cell_behind kept x [] _ i at_i) ids d
          (live x ready.0))
        (idle-Stops (kept ++ []) (kept ++ (x ∷ [])) junk rest (x ∷ (junk ++ rest)) (suc i) todo _
          refl (simp (append_assoc, append-nil)) (omega (arith, length-append kept (x ∷ [])))
          (omega arith) (Identified-stopped_at ident s x ids)
          (same-Differ x _ junk copies
            (All-append _ kept [] (Distinct-before ident kept x [] d) tt)))
  stop_loop-Stops kept x (y ∷ []) junk rest i (suc zero) s e at_i n ids d copies live ready =
      absurd (omega arith)
  stop_loop-Stops kept x (y ∷ []) junk rest i (suc (suc todo)) s e at_i n ids d copies live ready =
      rw
        (stop_loop_hit kept x (y ∷ []) (junk ++ rest) i (suc todo) s e
          (cell_behind kept x _ _ i at_i) ids d (live x ready.0))
        (rw
          (stop_loop_hit kept y [] (y ∷ (junk ++ rest)) (suc i) todo first refl
            (cell_copy kept y (junk ++ rest) (suc i) (omega arith))
            (Identified-stopped_at ident s x ids) cut (Live-stopped_at P s x live y ready.1.0))
          (idle-Stops (kept ++ []) (kept ++ (y ∷ (y ∷ []))) junk rest (y ∷ (y ∷ (junk ++ rest)))
            (suc (suc i)) todo _ refl (simp (append_assoc, append-nil))
            (omega (arith, length-append kept (y ∷ (y ∷ [])))) (omega arith)
            (Identified-stopped_at ident _ y (Identified-stopped_at ident s x ids))
            (same-Differ y _ junk copies
              (All-append _ kept [] (Distinct-before ident kept y [] cut) tt))))
    where
      first : Server
      first = record (stopped_at x s) { clients = over (kept ++ (y ∷ [])) (y ∷ (junk ++ rest)) }

      cut : Distinct ident (kept ++ (y ∷ []))
      cut = Distinct-cut ident kept x (y ∷ []) d
  stop_loop-Stops kept x (y ∷ (z ∷ zs)) junk rest i (suc todo) s e at_i n ids d copies live ready =
      rw
        (
          stop_loop_hit kept x (y ∷ (z ∷ zs)) (junk ++ rest) i todo s e
              (cell_behind kept x _ _ i at_i) ids d (live x ready.0),
          ← append_assoc kept (y ∷ []) (survivors (z ∷ zs)),
        )
        (stop_loop-Stops (kept ++ (y ∷ [])) z zs (last_of z zs ∷ junk) rest (suc i) todo _
          (ap (λ l. over l (last_of z zs ∷ (junk ++ rest))) regroup)
          (omega (arith, length-append kept (y ∷ []))) (omega arith)
          (Identified-stopped_at ident s x ids)
          (rw (← regroup) (Distinct-cut ident kept x (y ∷ (z ∷ zs)) d)) (refl, copies)
          (Live-stopped_at P s x live) ready.1.1)
    where
      regroup : kept ++ (y ∷ (z ∷ zs)) ≡ (kept ++ (y ∷ [])) ++ (z ∷ zs)
      regroup = sym (append_assoc kept (y ∷ []) (z ∷ zs))

close_listener-has :
    (l : Listener) (s : Server)
    → has_listener l ≡ true
    → close_listener l s ≡ some (record s { gost_tunnels = []; listener = shut })
unfolding close_listener
close_listener-has no_listener s h = cc
close_listener-has listening s h = refl
close_listener-has shut s h = refl

abbrev after_loop : Server → Option Server → Option Server
after_loop s o = Option.bind o λ s'. close_listener s.listener s'

-- Where every client of the list has a session and the server a listener, Stop does not panic on a
-- list of clients with different IDs, and what it leaves in the list is every second client from the
-- second on, the last one excepted.
pub server_stop-survivors :
    (ident : ℕ → GoString) (s : Server) (xs behind : List ℕ)
    → s.clients ≡ over xs behind
    → Identified ident s
    → Distinct ident xs
    → All (λ a. is_set (s.heap a).session ≡ true) xs
    → has_listener s.listener ≡ true
    → (s' : Server) × (server_stop s ≡ some s') × (visible s'.clients ≡ survivors xs)
unfolding server_stop Option.bind
server_stop-survivors ident s [] behind e ids d ready up = (
  record s { cancelled = true; gost_tunnels = []; listener = shut },
  ap (λ n. after_loop s (stop_loop 0 n (record s { cancelled = true })))
        (ap (λ (l : Slice ℕ). l.len) e)
      ∙ (unfold stop_loop in close_listener-has s.listener _ up),
  ap visible e ∙ unfold survivors in refl,
)
server_stop-survivors ident s (x ∷ xs) behind e ids d ready up =
    let (s', runs, left, _) =
      stop_loop-Stops ident (λ a. is_set (s.heap a).session ≡ true) [] x xs [] behind 0
        (suc (length xs)) (record s { cancelled = true }) e refl (omega arith) ids d tt
        (λ a set. set) ready in
    (
      record s' { gost_tunnels = []; listener = shut },
      ap (λ n. after_loop s (stop_loop 0 n (record s { cancelled = true })))
            (ap (λ (l : Slice ℕ). l.len) e)
          ∙ ap (after_loop s) runs
          ∙ close_listener-has s.listener s' up,
      left,
    )
