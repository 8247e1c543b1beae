-- ===== src/Server/Leaving.antt =====
-- Clients that are removed, in src/joebot/server/server.go, and the registry.
use joebot.Prelude.{
  ℕ, ◌+◌, ◌≡◌, refl, sym, ap, ◌∙◌, ◌⊎◌, inl, inr, true, false, some, List, [], ◌∷◌, ◌++◌, arith,
  Bool-cases, some-eq, str_eq, str_eq→eq, All, length-append, take-append, count, count-append,
  GoString, Result, ok, err, none, has, ==_refl, ==_iff, ◌==◌, str_eq_refl,
}
use mathlib.Core.Path.{subst}
use joebot.Server.{Server, is_set, has_id, stopped_at, client_stopped, remove_client, remove_failed}
use joebot.Server.Accounting.{Accounted, remove_client-Accounted}
use joebot.Server.Clients.{Lacks, remove_client-none, remove_client-one, remove_client-unset}
use joebot.Server.Distinct.{Distinct-Named, All-has, Distinct, Distinct-after, Distinct-cut, ids}
use joebot.Server.Registry.{registry, registry_of, Change, leaves, left, without_id}
use joebot.Server.Registry.Heap.{registry_of-update_absent, without_id-lacks, without_id-one}
use joebot.Server.Sound.{IsSound, ids-update}
use joebot.Slices.{visible}
use joebot.Slices.Removal.{over, last_of}
use joebot.Server.Members.{over-visible, behind}

pub first_eq : {A B : Type 0} {x y : A} {p q : B} → ◌≡◌ {A = A × B} (x, p) (y, q) → x ≡ y
first_eq e = ap (λ z. z.0) e

-- A list has no client with an ID, or it has one, after others without it.
pub find_split :
    (s : Server) (id : GoString) (xs : List ℕ)
    → Lacks s id xs
      ⊎ ((pre : List ℕ) × (c : ℕ) × (post : List ℕ) × (xs ≡ pre ++ (c ∷ post))
          × Lacks s id pre
          × (has_id s id c ≡ true))
find_split s id [] = inl tt
find_split s id (x ∷ xs) = elim (Bool-cases (has_id s id x)) [
  | inl hit ↦ inr ([], x, xs, refl, tt, hit)
  | inr miss ↦ elim (find_split s id xs) [
    | inl lacks ↦ inl (miss, lacks)
    | inr (pre, c, post, e, before, hit) ↦
        inr (x ∷ pre, c, post, ap (λ t. x ∷ t) e, (miss, before), hit)
  ]
]

remove_none :
    (s : Server) (id : GoString)
    → IsSound s
    → Lacks s id (visible s.clients)
    → remove_client s id ≡ some (s, err remove_failed)
remove_none s id v lacks =
    remove_client-none s id (visible s.clients) (behind s.clients) (over-visible s.clients v.shape)
      lacks

count-cons : (c : ℕ) (xs : List ℕ) → count c (c ∷ xs) ≡ 1 + count c xs
count-cons c xs = ground arith

-- The outcome of RemoveClient: it returns.
pub has-middle : (pre : List ℕ) (c : ℕ) (post : List ℕ) → has c (pre ++ (c ∷ post)) ≡ true
has-middle [] c post = ground (arith, ==_refl c)
has-middle (x ∷ pre) c post = ground (arith, has-middle pre c post)

abbrev pub Removes : Server → GoString → Type 0
Removes s id =
    (s' : Server) × (res : Result ℕ) × (remove_client s id ≡ some (s', res))
    × IsSound s'
    × Change (registry s) (registry s') (leaves id)

module _ (s : Server) (id : GoString) (v : IsSound s) (pre : List ℕ) (c : ℕ) (post : List ℕ)
    (e : visible s.clients ≡ pre ++ (c ∷ post)) (before : Lacks s id pre)
    (hit : has_id s id c ≡ true) (set : is_set (s.heap c).session ≡ true) where
  gone : Server
  gone = record (stopped_at c s) {
    clients = over (pre ++ post) (last_of c post ∷ behind s.clients);
  }

  apart : Distinct (ids s.heap) (pre ++ (c ∷ post))
  apart = rw e at (v.distinct)

  after : Lacks s id post
  after =
      subst (λ i. All (λ y. str_eq (s.heap y).id i ≡ false) post) (str_eq→eq _ _ hit)
        (Distinct-after (ids s.heap) pre c post apart)

  shown : s.clients ≡ over (pre ++ (c ∷ post)) (behind s.clients)
  shown = over-visible s.clients v.shape ∙ ap (λ xs. over xs (behind s.clients)) e

  removed : remove_client s id ≡ some (gone, ok c)
  unfolding gone
  removed = remove_client-one s id pre c post (behind s.clients) shown before hit set after

  seen : visible gone.clients ≡ pre ++ post
  unfolding gone
  seen = take-append (pre ++ post) (last_of c post ∷ behind s.clients)

  books_gone : Accounted (visible gone.clients) gone
  books_gone =
      let (s1, same, books, _) =
        remove_client-Accounted s id pre c post (behind s.clients) shown before hit set after
          (rw e at (v.accounted)) in
      subst (λ k. Accounted (visible k.clients) k) (first_eq (some-eq (sym same ∙ removed))) books

  alone : count c (pre ++ post) ≡ 0
  alone = omega (
    arith,
    v.accounted.single c,
    ap (λ xs. count c xs) e,
    count-append c pre (c ∷ post),
    count-append c pre post,
    count-cons c post,
  )

  unregistered : registry gone ≡ without_id id (registry s)
  unfolding gone stopped_at
  unregistered =
      ap (λ xs. registry_of gone.heap xs) seen
      ∙ registry_of-update_absent s.heap c (client_stopped (s.heap c) s.ports_manager).0
          (pre ++ post) alone
      ∙ sym (without_id-one id s.heap pre c post before hit after)
      ∙ ap (λ xs. without_id id (registry_of s.heap xs)) (sym e)

  remove_one : Removes s id
  remove_one = (
    gone,
    ok c,
    removed,
    record {
      accounted = books_gone;
      shape =
          unfold gone in
          (omega (arith, length-append (pre ++ post) (last_of c post ∷ behind s.clients)));
      distinct =
          subst (λ xs. Distinct (ids gone.heap) xs) (sym seen)
            (unfold gone stopped_at client_stopped in
              rw (ids-update s.heap c (client_stopped (s.heap c) s.ports_manager).0 refl)
                (Distinct-cut (ids s.heap) pre c post apart));
      in_turn = unfold gone stopped_at in v.in_turn;
    },
    left id unregistered,
  )

-- RemoveClient panics, or returns; then the client with the ID leaves the registry, if there is one.
pub remove_client-IsSound :
    (s : Server) (id : GoString) → IsSound s → (remove_client s id ≡ none) ⊎ Removes s id
remove_client-IsSound s id v = elim (find_split s id (visible s.clients)) [
  | inl lacks ↦ inr (
    s,
    err remove_failed,
    remove_none s id v lacks,
    v,
    left id (sym (without_id-lacks id s.heap (visible s.clients) lacks)),
  )
  | inr (pre, c, post, e, before, hit) ↦ elim (Bool-cases (is_set (s.heap c).session)) [
    | inl set ↦ inr (remove_one s id v pre c post e before hit set)
    | inr not_set ↦ inl (
        remove_client-unset s id pre c post (behind s.clients)
          (over-visible s.clients v.shape ∙ ap (λ xs. over xs (behind s.clients)) e) before hit
          not_set)
  ]
]

-- Every client of the list has a session.
abbrev pub Ready : Server → Type 0
Ready s = (a : ℕ) → has a (visible s.clients) ≡ true → is_set (s.heap a).session ≡ true

-- Where every client of the list has a session, RemoveClient returns for every ID.
pub remove_client_returns : (s : Server) (id : GoString) → IsSound s → Ready s → Removes s id
remove_client_returns s id v ready = elim (find_split s id (visible s.clients)) [
  | inl lacks ↦ elim (remove_client-IsSound s id v) [
    | inr r ↦ r
    | inl panics ↦ cc (panics, remove_none s id v lacks)
  ]
  | inr (pre, c, post, e, before, hit) ↦
      remove_one s id v pre c post e before hit (ready c (rw e (has-middle pre c post)))
]

-- RemoveClient of a client of the list that has no session panics.
pub remove_client_panics :
    (s : Server) (a : ℕ)
    → IsSound s
    → has a (visible s.clients) ≡ true
    → is_set (s.heap a).session ≡ false
    → remove_client s (s.heap a).id ≡ none
remove_client_panics s a v m not_set =
    let named = Distinct-Named s.heap a (visible s.clients) v.distinct m in
    elim (find_split s (s.heap a).id (visible s.clients)) [
      | inl lacks ↦ cc (
        All-has (λ y. has_id s (s.heap a).id y ≡ false) (visible s.clients) a lacks m,
        str_eq_refl (s.heap a).id,
      )
      | inr (pre, c, post, e, before, hit) ↦
          let same : a ≡ c = (==_iff a c).0 (
            sym (
              All-has (λ y. str_eq (s.heap y).id (s.heap a).id ≡ (a == y)) (visible s.clients) c
                named (rw e (has-middle pre c post)))
            ∙ hit) in
          remove_client-unset s (s.heap a).id pre c post (behind s.clients)
            (over-visible s.clients v.shape ∙ ap (λ xs. over xs (behind s.clients)) e) before hit
            (subst (λ y. is_set (s.heap y).session ≡ false) same not_set)
    ]
