-- ===== src/Slices.antt =====
-- Go slices that share a backing array, and the loop that removes from a slice while it ranges
-- over it: `for i, x := range s { if hit(x) { s = append(s[:i], s[i+1:]...) } }`, which is the
-- body of RemoveClient in src/joebot/server/server.go and of RemoveTunnel in
-- src/joebot/client/client.go.
pub mod Removal
use joebot.Prelude.{
  ℕ, zero, suc, ◌+◌, ◌-◌, ◌*◌, ◌/◌, ◌%◌, ◌^◌, ◌≤◌, ◌<◌, ◌≡◌, refl, sym, ap, ◌∙◌, ◌≢◌, ◌↔◌, ◌⊎◌, inl,
  inr, Bool, true, false, not, ◌&&◌, ◌||◌, Option, none, some, List, [], ◌∷◌, ◌++◌, map, arith, ltb,
  leb, ◌==◌, if◌then◌else◌, ==_refl, ==_iff, ltb→lt, lt→ltb, leb→le, Bool-cases, Option-cases,
  Result-cases, str_eq, str_eq→eq, str_eq_refl, length, get_elem?, take, drop, replicate, All,
  length-append, length-replicate, take_all, take-append, drop-append, count, has, without,
  count-append, has→count, not_has→count, count-without_self, count-without, without_absent,
  GoString, str, GoError, fault, message, wrap, Result, ok, err, ◌>>=◌, ◌>>◌, wrapped,
}

-- The cells of the backing array; the slice is the first `len` of them.
pub record Slice {ℓ} (A : Type ℓ) : Type ℓ where
  pub cells : List A
  pub len : ℕ

module _ {ℓ} {A : Type ℓ} where
  abbrev pub visible : Slice A → List A
  visible s = take s.len s.cells

  abbrev pub of_list : List A → Slice A
  of_list xs = record { cells = xs; len = length xs }

  -- `append(s[:i], s[i+1:]...)`: the later elements move down in place, and the cells from the new
  -- end on stay. `none` is the panic of a lower bound beyond the length.
  unfoldable pub remove_at : Slice A → ℕ → Option (Slice A)
  remove_at s i =
      if leb (suc i) s.len
      then some (record {
        cells = take i s.cells ++ (drop (suc i) (take s.len s.cells) ++ drop (s.len - 1) s.cells);
        len = s.len - 1;
      })
      else none

  -- `append(s, x)`; the cells behind the slice are overwritten or a new array is made.
  unfoldable pub append_one : Slice A → A → Slice A
  append_one s x = record { cells = visible s ++ (x ∷ drop (suc s.len) s.cells); len = suc s.len }

-- The state after the loop, and the element found last.
pub record Removed {ℓ} (A : Type ℓ) (S : Type ℓ) : Type ℓ where
  pub slice : Slice A
  pub state : S
  pub found : Option A

-- The length that `range` runs to is read once, the cells are read as they are in each round.
-- `effect` is what else the code does with an element that it removes; `none` is a panic.
module _ {ℓ} {A S : Type ℓ} (effect : A → S → Option S) (hit : A → Bool) where
  pub range_remove : ℕ → ℕ → Removed A S → Option (Removed A S)
  range_remove i zero r = some r
  range_remove i (suc todo) r = elim (get_elem? r.slice.cells i) [
    | none ↦ none
    | some x ↦ elim (hit x) [
      | false ↦ range_remove (suc i) todo r
      | true ↦ elim (remove_at r.slice i) [
        | none ↦ none
        | some s ↦ elim (effect x r.state) [
          | none ↦ none
          | some state ↦
              range_remove (suc i) todo (record { slice = s; state = state; found = some x })
        ]
      ]
    ]
  ]
