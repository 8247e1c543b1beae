-- ===== src/Server/Distinct.antt =====
-- Lists of clients with different IDs, for the proofs about src/joebot/server/server.go.
use joebot.Prelude.{
  All-map2, has, Bool-cases, ==_iff, ==_refl, ==_sym, true, inl, inr, ◌==◌, refl, sym, ◌∙◌,
  str_eq_refl, ℕ, ◌≡◌, false, List, [], ◌∷◌, ◌++◌, arith, str_eq, All, All-append, All-left,
  All-right, GoString,
}
use joebot.Slices.Removal.{last_of}
use mathlib.Core.Path.{subst}
use joebot.Server.{is_set, Client, Server, client_stopped, stopped_at}
use joebot.Server.Clients.{Lacks}
use joebot.Server.Registry.Heap.{Named}

module _ (ident : ℕ → GoString) where
  -- The addresses hold clients with different IDs.
  abbrev pub Differ : ℕ → ℕ → Type 0
  Differ a b = str_eq (ident a) (ident b) ≡ false

  abbrev pub Distinct : List ℕ → Type 0
  Distinct [] = Unit {0}
  Distinct (x ∷ xs) = All (λ y. Differ x y × Differ y x) xs × Distinct xs

  pub All-snd :
      (x : ℕ) (xs : List ℕ) → All (λ y. Differ x y × Differ y x) xs → All (λ y. Differ y x) xs
  All-snd x [] h = tt
  All-snd x (y ∷ ys) h = (h.0.1, All-snd x ys h.1)

  pub Distinct-before :
      (pre : List ℕ) (c : ℕ) (post : List ℕ)
      → Distinct (pre ++ (c ∷ post))
      → All (λ y. Differ y c) pre
  Distinct-before [] c post d = tt
  Distinct-before (x ∷ pre) c post d =
      ((All-right _ pre (c ∷ post) d.0).0.0, Distinct-before pre c post d.1)

  pub Distinct-after :
      (pre : List ℕ) (c : ℕ) (post : List ℕ)
      → Distinct (pre ++ (c ∷ post))
      → All (λ y. Differ y c) post
  Distinct-after [] c post d = All-snd c post d.0
  Distinct-after (x ∷ pre) c post d = Distinct-after pre c post d.1

  pub Distinct-cut :
      (pre : List ℕ) (c : ℕ) (post : List ℕ) → Distinct (pre ++ (c ∷ post)) → Distinct (pre ++ post)
  Distinct-cut [] c post d = d.1
  Distinct-cut (x ∷ pre) c post d = (
    All-append _ pre post (All-left _ pre (c ∷ post) d.0) (All-right _ pre (c ∷ post) d.0).1,
    Distinct-cut pre c post d.1,
  )

  -- The last of `c ∷ post` differs from what stands before it.
  pub Distinct-last_of :
      (pre : List ℕ) (c : ℕ) (post : List ℕ)
      → Distinct (pre ++ (c ∷ post))
      → All (λ y. Differ y (last_of c post)) pre
  Distinct-last_of pre c [] d = Distinct-before pre c [] d
  Distinct-last_of pre c (y ∷ ys) d = Distinct-last_of pre y ys (Distinct-cut pre c (y ∷ ys) d)

  -- The heap holds clients with these IDs.
  abbrev pub Identified : Server → Type 0
  Identified s = (a : ℕ) → (s.heap a).id ≡ ident a

  pub Identified-stopped_at : (s : Server) (c : ℕ) → Identified s → Identified (stopped_at c s)
  unfolding stopped_at client_stopped
  Identified-stopped_at s c ids a = ground (arith, ids a, ids c)

  pub Lacks-of_Differ :
      (s : Server) (c : ℕ) (xs : List ℕ)
      → Identified s
      → All (λ y. Differ y c) xs
      → Lacks s (s.heap c).id xs
  Lacks-of_Differ s c [] ids h = tt
  Lacks-of_Differ s c (x ∷ xs) ids h = (rw (ids x, ids c) h.0, Lacks-of_Differ s c xs ids h.1)

-- The clients of a kind have sessions.
abbrev pub Live : (ℕ → Type 0) → Server → Type 0
Live P s = (a : ℕ) → P a → is_set (s.heap a).session ≡ true

pub Live-stopped_at : (P : ℕ → Type 0) (s : Server) (c : ℕ) → Live P s → Live P (stopped_at c s)
unfolding stopped_at client_stopped
Live-stopped_at P s c live a p = ground (arith, live a p)

-- The IDs of the clients in a heap.
abbrev pub ids : (ℕ → Client) → ℕ → GoString
ids heap a = (heap a).id

str_eq_sym : (x y : GoString) → str_eq x y ≡ str_eq y x
unfolding str_eq
str_eq_sym [] [] = refl
str_eq_sym [] (y ∷ ys) = refl
str_eq_sym (x ∷ xs) [] = refl
str_eq_sym (x ∷ xs) (y ∷ ys) = ground (arith, str_eq_sym xs ys)

-- Whether a member of a list has an ID of its own.
pub All-has : (P : ℕ → Type 0) (xs : List ℕ) (a : ℕ) → All P xs → has a xs ≡ true → P a
All-has P [] a h m = cc
All-has P (x ∷ xs) a h m = elim (Bool-cases (x == a)) [
  | inl same ↦ subst P ((==_iff x a).0 same) h.0
  | inr other ↦ All-has P xs a h.1 (rw other at m)
]

-- Clients that differ from one are not it.
Named-rest :
    (heap : ℕ → Client) (a : ℕ) (xs : List ℕ)
    → All (λ y. Differ (ids heap) y a) xs
    → Named heap a xs
Named-rest heap a [] h = tt
Named-rest heap a (x ∷ xs) h = (first, Named-rest heap a xs h.1)
  where
    first : str_eq (heap x).id (heap a).id ≡ (a == x)
    first = elim (Bool-cases (a == x)) [
      | inl same ↦ cc (h.0, rw (← (==_iff a x).0 same) at (h.0), str_eq_refl (heap a).id)
      | inr other ↦ h.0 ∙ sym other
    ]

pub Distinct-Named :
    (heap : ℕ → Client) (a : ℕ) (xs : List ℕ)
    → Distinct (ids heap) xs
    → has a xs ≡ true
    → Named heap a xs
Distinct-Named heap a [] d m = tt
Distinct-Named heap a (x ∷ xs) d m = elim (Bool-cases (x == a)) [
  | inl same ↦
      subst (λ b. Named heap b (x ∷ xs)) ((==_iff x a).0 same)
        (
          str_eq_refl (heap x).id ∙ sym (==_refl x),
          Named-rest heap x xs (All-snd (ids heap) x xs d.0),
        )
  | inr other ↦
      let apart =
        All-has (λ y. Differ (ids heap) x y × Differ (ids heap) y x) xs a d.0 (rw other at m) in
      (apart.0 ∙ sym (==_sym a x ∙ other), Distinct-Named heap a xs d.1 (rw other at m))
]

-- The IDs of a list count, and no others.
pub Distinct-agree :
    (f g : ℕ → GoString) (xs : List ℕ) → All (λ x. f x ≡ g x) xs → Distinct f xs → Distinct g xs
Distinct-agree f g [] same d = tt
Distinct-agree f g (x ∷ xs) same d = (
  All-map2 _ _ _ xs
      (λ y e (h : Differ f x y × Differ f y x). (rw (← same.0, ← e) h.0, rw (← same.0, ← e) h.1))
      same.1 d.0,
  Distinct-agree f g xs same.1 d.1,
)

-- A client with an ID that no other has comes to the end.
pub Distinct-append :
    (heap : ℕ → Client) (a : ℕ) (xs : List ℕ)
    → Distinct (ids heap) xs
    → All (λ x. Differ (ids heap) x a) xs
    → Distinct (ids heap) (xs ++ (a ∷ []))
Distinct-append heap a [] d h = (tt, tt)
Distinct-append heap a (x ∷ xs) d h = (
  All-append _ xs (a ∷ []) d.0 ((h.0, str_eq_sym (heap a).id (heap x).id ∙ h.0), tt),
  Distinct-append heap a xs d.1 h.1,
)
