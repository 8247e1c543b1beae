-- ===== src/Server/Lookup/Found.antt =====
-- What GetClientById of src/joebot/server/server.go returns while clients are removed.
use joebot.Prelude.{
  ℕ, zero, suc, ◌+◌, ◌≤◌, ◌<◌, ◌≡◌, refl, sym, ap, ◌∙◌, inl, inr, true, some, List, [], ◌∷◌, ◌++◌,
  arith, All, All-append, All-left, All-right, Bool-cases, length, length-append, take-append,
  get_elem?, has, ==_refl, str_eq→eq, GoString, Result, ok, err,
}
use mathlib.Core.List.{append_assoc}
use mathlib.Core.Path.{subst}
use joebot.Server.{
  Server, has_id, stopped_at, remove_client, client_not_found, get_client_by_id, find_id,
}
use joebot.Server.Lookup.{now, after, remove_all, look_up, get_client_by_id_during}
use joebot.Server.Clients.{Lacks, remove_client-none, remove_client-one}
use joebot.Server.Distinct.{
  Distinct, Identified, Distinct-after, Distinct-cut, Identified-stopped_at, Lacks-of_Differ, Live,
  Live-stopped_at,
}
use joebot.Server.Leaving.{find_split}
use joebot.Slices.{Slice, visible}
use joebot.Slices.Removal.{over, last_of, get_elem?-append}

-- A server in the middle of the removals: in the first `n` cells only clients stand that `P` holds
-- of, the cells behind them are `rest`, and no two clients of the list have the same ID.
record Shaped (ident : ℕ → GoString) (P : ℕ → Type 0) (n : ℕ) (rest : List ℕ) (s : Server)
    : Type 0 where
  listed : List ℕ
  junk : List ℕ
  cells : s.clients ≡ over listed (junk ++ rest)
  room : length listed + length junk ≡ n
  named : Identified ident s
  live : Live P s
  distinct : Distinct ident listed
  inside : All P listed
  behind : All P junk

pub All-last_of : (P : ℕ → Type 0) (c : ℕ) (post : List ℕ) → All P (c ∷ post) → P (last_of c post)
All-last_of P c [] h = h.0
All-last_of P c (x ∷ xs) h = All-last_of P x xs h.1

All-get_elem? :
    (P : ℕ → Type 0) (xs ys : List ℕ) (i : ℕ)
    → i < length xs
    → All P xs
    → (a : ℕ) × (get_elem? (xs ++ ys) i ≡ some a) × P a
All-get_elem? P [] ys i below h = absurd (omega arith)
All-get_elem? P (x ∷ xs) ys zero below h = (x, refl, h.0)
All-get_elem? P (x ∷ xs) ys (suc i) below h = All-get_elem? P xs ys i (omega arith) h.1

ok-eq : {x y : ℕ} → ok x ≡ ok y → x ≡ y
ok-eq e = cc

module _ (ident : ℕ → GoString) (P : ℕ → Type 0) (n : ℕ) (rest : List ℕ) where
  -- RemoveClient returns, and moves the cells of the array only among themselves.
  remove_client-Shaped :
      (s : Server) (id : GoString)
      → Shaped ident P n rest s
      → (s' : Server) × (res : Result ℕ) × (remove_client s id ≡ some (s', res))
        × Shaped ident P n rest s'
  remove_client-Shaped s id h = elim (find_split s id h.listed) [
    | inl lacks ↦ (s, _, remove_client-none s id h.listed (h.junk ++ rest) h.cells lacks, h)
    | inr (pre, c, post, e, before, hit) ↦
        let same : (s.heap c).id ≡ id = str_eq→eq _ _ hit in
        let p = subst (λ xs. All P xs) e h.inside in
        let d : Distinct ident (pre ++ (c ∷ post)) = subst (λ xs. Distinct ident xs) e h.distinct in
        (
          record (stopped_at c s) {
            clients = over (pre ++ post) (last_of c post ∷ (h.junk ++ rest));
          },
          ok c,
          remove_client-one s id pre c post (h.junk ++ rest)
              (h.cells ∙ ap (λ xs. over xs (h.junk ++ rest)) e) before hit
              (h.live c (All-right P pre (c ∷ post) p).0)
              (subst (λ i. Lacks s i post) same
                (Lacks-of_Differ ident s c post h.named (Distinct-after ident pre c post d))),
          record {
            listed = pre ++ post;
            junk = last_of c post ∷ h.junk;
            cells = refl;
            room = omega (
              arith,
              h.room,
              length-append pre post,
              length-append pre (c ∷ post),
              ap (λ xs. length xs) e,
            );
            named = Identified-stopped_at ident s c h.named;
            live = Live-stopped_at P s c h.live;
            distinct = Distinct-cut ident pre c post d;
            inside =
                All-append P pre post (All-left P pre (c ∷ post) p)
                  (All-right P pre (c ∷ post) p).1;
            behind = (All-last_of P c post (All-right P pre (c ∷ post) p), h.behind);
          },
        )
  ]

  remove_all-Shaped :
      (s : Server) (ids : List GoString)
      → Shaped ident P n rest s
      → (s' : Server) × (remove_all s ids ≡ some s') × Shaped ident P n rest s'
  unfolding remove_all
  remove_all-Shaped s [] h = (s, refl, h)
  remove_all-Shaped s (id ∷ ids) h =
      let (s', res, e, h') = remove_client-Shaped s id h in
      let (s'', e', h'') = remove_all-Shaped s' ids h' in (s'', rw (e, remove_all) e', h'')

  -- A cell of the array holds a client that `P` holds of.
  cell_at :
      (s : Server) (i : ℕ)
      → Shaped ident P n rest s
      → i < n
      → (a : ℕ) × (get_elem? s.clients.cells i ≡ some a) × P a
  cell_at s i h below =
      let (a, at, good) =
        All-get_elem? P (h.listed ++ h.junk) rest i
          (omega (arith, h.room, length-append h.listed h.junk))
          (All-append P h.listed h.junk h.inside h.behind) in
      (
        a,
        ap (λ (c : Slice ℕ). get_elem? c.cells i) h.cells
            ∙ ap (λ xs. get_elem? xs i) (sym (append_assoc h.listed h.junk rest))
            ∙ at,
        good,
      )

  -- Each round returns, and a client that is returned has the ID.
  look_up-Shaped :
      (i todo : ℕ) (s : Server) (id : GoString) (removals : List (List GoString))
      → Shaped ident P n rest s
      → i + todo ≤ n
      → (s' : Server) × (res : Result ℕ) × (look_up i todo s id removals ≡ some (s', res))
        × ((a : ℕ) → res ≡ ok a → (ident a ≡ id) × P a)
  unfolding look_up
  look_up-Shaped i zero s id removals h below = (s, err client_not_found, refl, λ a e. cc)
  look_up-Shaped i (suc todo) s id removals h below =
      let (s', removed, h') = remove_all-Shaped s (now removals) h in
      let (a, at, good) = cell_at s' i h' (omega arith) in
      elim (Bool-cases (has_id s' id a)) [
        | inl hit ↦ (
          s',
          ok a,
          rw (removed, at, hit, look_up) refl,
          λ b e.
              let same : a ≡ b = ok-eq e in
              subst (λ x. (ident x ≡ id) × P x) same ((sym (h'.named a) ∙ str_eq→eq _ _ hit, good)),
        )
        | inr miss ↦
            let (s'', res, e, right) =
              look_up-Shaped (suc i) todo s' id (after removals) h' (omega arith) in
            (s'', res, rw (removed, at, miss, look_up) e, right)
      ]

All-has : (xs : List ℕ) → All (λ a. has a xs ≡ true) xs
All-has xs = All-within xs xs (λ a e. e)
  where
    All-within :
        (ys zs : List ℕ)
        → ((a : ℕ) → has a ys ≡ true → has a zs ≡ true)
        → All (λ a. has a zs ≡ true) ys
    All-within [] zs f = tt
    All-within (y ∷ ys) zs f =
        (f y (ground (arith, ==_refl y)), All-within ys zs (λ a e. f a (ground (arith, e))))

-- Where no two clients of the list have the same ID and all have sessions, GetClientById returns, whichever clients are
-- removed between its rounds; and the client that it returns was in the list at the beginning, and
-- has the ID.
pub get_client_by_id_during_lem :
    (ident : ℕ → GoString) (s : Server) (xs junk : List ℕ)
    → s.clients ≡ over xs junk
    → Identified ident s
    → Distinct ident xs
    → Live (λ a. has a xs ≡ true) s
    → (id : GoString) (removals : List (List GoString))
    → (s' : Server) × (res : Result ℕ) × (get_client_by_id_during s id removals ≡ some (s', res))
      × ((a : ℕ) → res ≡ ok a → (ident a ≡ id) × (has a xs ≡ true))
unfolding get_client_by_id_during
get_client_by_id_during_lem ident s xs junk e named distinct live id removals =
    let (s', res, done, right) =
      look_up-Shaped ident (λ a. has a xs ≡ true) (length xs) junk 0 (length xs) s id removals
        (record {
          listed = xs;
          junk = [];
          cells = e;
          room = omega arith;
          named = named;
          live = live;
          distinct = distinct;
          inside = All-has xs;
          behind = tt;
        })
        (omega arith) in
    (s', res, ap (λ (c : Slice ℕ). look_up 0 c.len s id removals) e ∙ done, right)

pub look_up_quiet :
    (s : Server) (id : GoString) (pre seg rest : List ℕ) (i : ℕ)
    → s.clients.cells ≡ pre ++ (seg ++ rest)
    → i ≡ length pre
    → look_up i (length seg) s id [] ≡ some (s, find_id s id seg)
unfolding look_up find_id remove_all
look_up_quiet s id pre [] rest i e at_i = refl
look_up_quiet s id pre (x ∷ seg) rest i e at_i = elim (Bool-cases (has_id s id x)) [
  | inl hit ↦ rw (cell, hit, look_up, find_id) refl
  | inr miss ↦
      rw (cell, miss, look_up, find_id)
        (look_up_quiet s id (pre ++ (x ∷ [])) seg rest (suc i)
          (e ∙ sym (append_assoc pre (x ∷ []) (seg ++ rest)))
          (omega (arith, length-append pre (x ∷ []))))
]
  where
    cell : get_elem? s.clients.cells i ≡ some x
    cell = rw (e, at_i) (get_elem?-append pre (seg ++ rest) x)

-- When nothing is removed meanwhile, the rounds find what a search of the list finds.
pub get_client_by_id_during-get_client_by_id :
    (s : Server) (id : GoString) (xs junk : List ℕ)
    → s.clients ≡ over xs junk
    → get_client_by_id_during s id [] ≡ some (s, get_client_by_id s id)
unfolding get_client_by_id_during get_client_by_id
get_client_by_id_during-get_client_by_id s id xs junk e =
    ap (λ (c : Slice ℕ). look_up 0 c.len s id []) e
    ∙ look_up_quiet s id [] xs junk 0 (ap (λ (c : Slice ℕ). c.cells) e) refl
    ∙ ap (λ ys. some (s, find_id s id ys)) (sym (ap visible e ∙ take-append xs junk))
