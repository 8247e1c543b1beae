-- ===== src/Prelude/Lists.antt =====
-- Lists measured, indexed and searched by native numbers, under the library's names.
use Prim.Native.Nat.{ℕ, zero, suc, ◌+◌, ◌≤◌, ◌<◌}
use mathlib.Core.Path.{◌≡◌, refl, ap}
use mathlib.Core.Bool.{Bool, true, false, ◌||◌}
use mathlib.Core.List.{List, [], ◌∷◌, ◌++◌}
use mathlib.Core.Option.{Option, none, some}
use native.Mathlib.Omega.{arith}
use mathlib.Core.Path.{◌∙◌}
use mathlib.Core.Logic.{inl, inr}
use mathlib.Core.Bool.{false}
use joebot.Prelude.Tests.{◌==◌, ==_sym, if◌then◌else◌, Bool-cases}

module _ {ℓ} {A : Type ℓ} where
  abbrev pub length : List A → ℕ
  length [] = 0
  length (x ∷ xs) = suc (length xs)

  abbrev pub get_elem? : List A → ℕ → Option A
  get_elem? [] i = none
  get_elem? (x ∷ xs) zero = some x
  get_elem? (x ∷ xs) (suc i) = get_elem? xs i

  abbrev pub take : ℕ → List A → List A
  take zero xs = []
  take (suc n) [] = []
  take (suc n) (x ∷ xs) = x ∷ take n xs

  abbrev pub drop : ℕ → List A → List A
  drop zero xs = xs
  drop (suc n) [] = []
  drop (suc n) (x ∷ xs) = drop n xs

  abbrev pub replicate : ℕ → A → List A
  replicate zero a = []
  replicate (suc n) a = a ∷ replicate n a

  abbrev pub All {κ} : (A → Type κ) → List A → Type κ
  All P [] = Unit {κ}
  All P (x ∷ xs) = P x × All P xs

  pub length-append : (xs ys : List A) → length (xs ++ ys) ≡ length xs + length ys
  length-append [] ys = omega arith
  length-append (x ∷ xs) ys = omega (arith, length-append xs ys)

module _ {ℓ} {A : Type ℓ} where
  pub length-replicate : (n : ℕ) (a : A) → length (replicate n a) ≡ n
  length-replicate zero a = refl
  length-replicate (suc n) a = ap suc (length-replicate n a)

  pub All-append {κ} : (P : A → Type κ) (xs ys : List A) → All P xs → All P ys → All P (xs ++ ys)
  All-append P [] ys h k = k
  All-append P (x ∷ xs) ys h k = (h.0, All-append P xs ys h.1 k)

  pub All-left {κ} : (P : A → Type κ) (xs ys : List A) → All P (xs ++ ys) → All P xs
  All-left P [] ys h = tt
  All-left P (x ∷ xs) ys h = (h.0, All-left P xs ys h.1)

  pub All-right {κ} : (P : A → Type κ) (xs ys : List A) → All P (xs ++ ys) → All P ys
  All-right P [] ys h = h
  All-right P (x ∷ xs) ys h = All-right P xs ys h.1

  pub All-map2 {κ ν μ} :
      (P : A → Type κ) (Q : A → Type ν) (R : A → Type μ) (xs : List A)
      → ((x : A) → P x → Q x → R x)
      → All P xs
      → All Q xs
      → All R xs
  All-map2 P Q R [] f h k = tt
  All-map2 P Q R (x ∷ xs) f h k = (f x h.0 k.0, All-map2 P Q R xs f h.1 k.1)

  pub take_all : (n : ℕ) (xs : List A) → length xs ≤ n → take n xs ≡ xs
  take_all zero [] h = refl
  take_all zero (x ∷ xs) h = absurd (omega arith)
  take_all (suc n) [] h = refl
  take_all (suc n) (x ∷ xs) h = ap (λ t. x ∷ t) (take_all n xs (omega arith))

  -- `take` and `drop` at the end of the first of two lists.
  pub take-append : (xs ys : List A) → take (length xs) (xs ++ ys) ≡ xs
  take-append [] ys = refl
  take-append (x ∷ xs) ys = ap (λ t. x ∷ t) (take-append xs ys)

  pub drop-append : (xs ys : List A) → drop (length xs) (xs ++ ys) ≡ ys
  drop-append [] ys = refl
  drop-append (x ∷ xs) ys = drop-append xs ys

-- How often a number stands in a list, and whether it does.
abbrev pub count : ℕ → List ℕ → ℕ
count p [] = 0
count p (x ∷ xs) = (if x == p then 1 else 0) + count p xs

abbrev pub has : ℕ → List ℕ → Bool
has p [] = false
has p (x ∷ xs) = x == p || has p xs

abbrev pub without : ℕ → List ℕ → List ℕ
without p [] = []
without p (x ∷ xs) = if x == p then without p xs else x ∷ without p xs

pub count-append : (p : ℕ) (xs ys : List ℕ) → count p (xs ++ ys) ≡ count p xs + count p ys
count-append p [] ys = omega arith
count-append p (x ∷ xs) ys = omega (arith, count-append p xs ys)

pub has→count : (p : ℕ) (xs : List ℕ) → has p xs ≡ true → 0 < count p xs
has→count p [] h = cc
has→count p (x ∷ xs) h = ground (arith, has→count p xs)

pub not_has→count : (p : ℕ) (xs : List ℕ) → has p xs ≡ false → count p xs ≡ 0
not_has→count p [] h = refl
not_has→count p (x ∷ xs) h = ground (arith, not_has→count p xs)

pub count-without_self : (p : ℕ) (xs : List ℕ) → count p (without p xs) ≡ 0
count-without_self p [] = refl
count-without_self p (x ∷ xs) = ground (arith, count-without_self p xs)

pub count-without :
    (p q : ℕ) (xs : List ℕ) → count q (without p xs) ≡ (if p == q then 0 else count q xs)
count-without p q [] = ground arith
count-without p q (x ∷ xs) = ground (arith, count-without p q xs)

pub without_absent : (p : ℕ) (xs : List ℕ) → has p xs ≡ false → without p xs ≡ xs
without_absent p [] h = refl
without_absent p (x ∷ xs) h = ground (arith, without_absent p xs)

-- What is so of all numbers but one is so of a list without it.
pub All-absent {κ} :
    (P : ℕ → Type κ) (a : ℕ) (xs : List ℕ)
    → ((x : ℕ) → (a == x) ≡ false → P x)
    → has a xs ≡ false
    → All P xs
All-absent P a [] f h = tt
All-absent P a (x ∷ xs) f h = elim (Bool-cases (x == a)) [
  | inl same ↦ cc (h, same)
  | inr other ↦ (f x (==_sym a x ∙ other), All-absent P a xs f (rw other at h))
]
