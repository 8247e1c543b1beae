-- ===== src/Prelude/Results.antt =====
-- Go's `error`, and a pair of a value and an error of which one is meant.
use Prim.Native.Nat.{ℕ}
use Prim.Native.Char.{code}
use Prim.Native.String.{String}
use mathlib.Core.Path.{◌≡◌, refl}
use mathlib.Core.Logic.{◌⊎◌, inl, inr}
use mathlib.Core.List.{List, [], ◌∷◌}

-- A Go string is its bytes; `str` spells an ASCII literal.
abbrev pub GoString : Type 0
GoString = List ℕ

abbrev pub str : String → GoString
str String.[] = []
str (String.◌∷◌ c s) = code c ∷ str s

-- `fault` is an error that the system or a library returned; the rest is `errors.New` and
-- `errors.Wrap`.
pub data GoError : Type 0 where
  fault : ℕ → GoError
  message : GoString → GoError
  wrap : GoError → GoString → GoError

pub data Result {ℓ} (A : Type ℓ) : Type ℓ where
  ok : A → Result A
  err : GoError → Result A

-- `if err != nil { return errors.Wrap(err, text) }`.
abbrev pub wrapped {ℓ} : {A : Type ℓ} → Result A → GoString → Result A
wrapped (ok a) text = ok a
wrapped (err e) text = err (wrap e text)

-- `if err != nil { return err }` and then the rest of the function.
infixl 5 ◌>>=◌
abbrev pub ◌>>=◌ {ℓ κ} : {A : Type ℓ} {B : Type κ} → Result A → (A → Result B) → Result B
err failed >>= rest = err failed
ok value >>= rest = rest value

-- The same where there is no value but the error.
infixl 5 ◌>>◌
abbrev pub ◌>>◌ {ℓ κ} : {A : Type ℓ} {B : Type κ} → Result A → Result B → Result B
err failed >> rest = err failed
ok value >> rest = rest

pub Result-cases {ℓ} :
    {A : Type ℓ} (r : Result A) → ((a : A) × (r ≡ ok a)) ⊎ ((e : GoError) × (r ≡ err e))
Result-cases (ok a) = inl (a, refl)
Result-cases (err e) = inr (e, refl)
