-- ===== src/Strings.antt =====
-- The functions of Go's strings and strconv packages that the program calls, on byte strings.
pub mod Split
pub mod Join
pub mod Decimal
use joebot.Prelude.{
  ℕ, zero, suc, ◌+◌, ◌-◌, ◌*◌, ◌/◌, ◌%◌, ◌^◌, ◌≤◌, ◌<◌, ◌≡◌, refl, sym, ap, ◌∙◌, ◌≢◌, ◌↔◌, ◌⊎◌, inl,
  inr, Bool, true, false, not, ◌&&◌, ◌||◌, Option, none, some, List, [], ◌∷◌, ◌++◌, map, arith, ltb,
  leb, ◌==◌, if◌then◌else◌, ==_refl, ==_iff, ltb→lt, lt→ltb, leb→le, Bool-cases, Option-cases,
  some-eq, Result-cases, str_eq, str_eq→eq, str_eq_refl, length, get_elem?, take, drop, replicate,
  All, length-append, All-append, All-left, All-right, length-replicate, take_all, take-append,
  drop-append, count, has, without, count-append, has→count, not_has→count, count-without_self,
  count-without, without_absent, GoString, str, GoError, fault, message, wrap, Result, ok, err,
  ◌>>=◌, ◌>>◌, wrapped,
}
use mathlib.Core.List.{reverse}

-- `strings.Split(s, sep)` for a separator of one byte. There is always one part at least.
unfoldable pub split : ℕ → GoString → List GoString
split sep [] = [] ∷ []
split sep (c ∷ s) =
    if c == sep
    then [] ∷ split sep s
    else (elim (split sep s) [ [] ↦ (c ∷ []) ∷ [] | part ∷ rest ↦ (c ∷ part) ∷ rest ])

-- `strings.Join(parts, sep)`.
unfoldable pub join : ℕ → List GoString → GoString
join sep [] = []
join sep (part ∷ []) = part
join sep (part ∷ (next ∷ rest)) = part ++ (sep ∷ join sep (next ∷ rest))

unfoldable pub has_prefix : GoString → GoString → Bool
has_prefix s [] = true
has_prefix [] (p ∷ ps) = false
has_prefix (c ∷ s) (p ∷ ps) = c == p && has_prefix s ps

-- `strings.Contains(s, sub)`.
unfoldable pub contains : GoString → GoString → Bool
unfolding has_prefix
contains [] sub = has_prefix [] sub
contains (c ∷ s) sub = has_prefix (c ∷ s) sub || contains s sub

-- `strings.Replace(s, old, "", -1)` for an `old` that is not empty. `skip` counts the bytes of an
-- occurrence that are still to be dropped.
unfoldable pub remove_from_text : ℕ → GoString → GoString → GoString
unfolding has_prefix
remove_from_text skip old [] = []
remove_from_text (suc skip) old (c ∷ s) = remove_from_text skip old s
remove_from_text zero old (c ∷ s) = elim (has_prefix (c ∷ s) old) [
  | true ↦ remove_from_text (length old - 1) old s
  | false ↦ c ∷ remove_from_text zero old s
]

unfoldable pub replace_all : GoString → GoString → GoString
unfolding remove_from_text
replace_all s old = remove_from_text 0 old s

-- Drops the leading bytes that pass a test.
unfoldable pub trim_left_by : (ℕ → Bool) → GoString → GoString
trim_left_by test [] = []
trim_left_by test (c ∷ s) = if test c then trim_left_by test s else c ∷ s

-- `strings.TrimRight(s, cut)` for a cutset of one byte.
unfoldable pub trim_right : GoString → ℕ → GoString
unfolding trim_left_by
trim_right s cut = reverse (trim_left_by (λ c. c == cut) (reverse s))

-- The ASCII white space of `strings.TrimSpace`.
unfoldable pub is_space : ℕ → Bool
is_space c = c == 32 || (leb 9 c && leb c 13)

unfoldable pub trim_space : GoString → GoString
unfolding trim_left_by is_space
trim_space s = reverse (trim_left_by is_space (reverse (trim_left_by is_space s)))

-- `strings.SplitN(s, sep, 2)`: the text before the first separator, and that after it.
unfoldable pub split_two : ℕ → GoString → GoString × Option GoString
split_two sep [] = ([], none)
split_two sep (c ∷ s) =
    let (before, after) = split_two sep s in if c == sep then ([], some s) else (c ∷ before, after)

-- A signed integer; `negsuc n` is -(n + 1).
pub data ℤ : Type 0 where
  pos : ℕ → ℤ
  negsuc : ℕ → ℤ

abbrev pub is_digit : ℕ → Bool
is_digit c = leb 48 c && leb c 57

unfoldable pub digits_value : ℕ → GoString → Option ℕ
digits_value acc [] = some acc
digits_value acc (c ∷ s) =
    let rest = digits_value (acc * 10 + (c - 48)) s in if is_digit c then rest else none

abbrev pub max_int : ℕ
max_int = 9223372036854775807

abbrev minus : ℕ → ℤ
minus zero = pos 0
minus (suc n) = negsuc n

-- Digits that are not empty, with the sign in front of them taken off.
unfoldable pub atoi_digits : Bool → GoString → ℤ × Bool
unfolding digits_value
atoi_digits negative [] = (pos 0, false)
atoi_digits negative (c ∷ s) = elim (digits_value 0 (c ∷ s)) [
  | none ↦ (pos 0, false)
  | some n ↦
      if negative
      then (if leb n (max_int + 1) then (minus n, true) else (negsuc max_int, false))
      else (if leb n max_int then (pos n, true) else (pos max_int, false))
]

-- `strconv.Atoi`: the value, and whether there was no error. A syntax error gives 0, and a number
-- out of range the nearest int.
unfoldable pub atoi : GoString → ℤ × Bool
unfolding atoi_digits
atoi [] = (pos 0, false)
atoi (c ∷ s) =
    if c == 45
    then atoi_digits true s
    else if c == 43
    then atoi_digits false s
    else atoi_digits false (c ∷ s)

-- The digits of a number in front of a text; 20 digits hold every number of 64 bits.
unfoldable pub itoa_digits : ℕ → ℕ → GoString → GoString
itoa_digits zero n text = text
itoa_digits (suc fuel) n text =
    let rest = itoa_digits fuel (n / 10) ((48 + n % 10) ∷ text) in
    if ltb n 10 then (48 + n) ∷ text else rest

-- `strconv.Itoa` of a number that is not negative.
unfoldable pub itoa : ℕ → GoString
unfolding itoa_digits
itoa n = itoa_digits 20 n []
