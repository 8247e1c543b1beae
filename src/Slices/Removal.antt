-- ===== src/Slices/Removal.antt =====
-- What the removing loop of src/joebot/server/server.go (RemoveClient) does to a slice.
use joebot.Prelude.{
  ℕ, zero, suc, ◌+◌, ◌-◌, ◌≡◌, refl, sym, ap, ◌∙◌, Bool, true, false, Option, none, some, List, [],
  ◌∷◌, ◌++◌, arith, leb, length, get_elem?, take, drop, All, length-append, take-append,
}
use mathlib.Core.List.{append_assoc}
use mathlib.Core.Path.{ap₂}
use joebot.Slices.{Slice, remove_at, Removed, range_remove}

module _ {ℓ} {A : Type ℓ} where
  abbrev pub last_of : A → List A → A
  last_of x [] = x
  last_of x (y ∷ ys) = last_of y ys

  pub drop-last :
      (x : A) (xs junk : List A) → drop (length xs) ((x ∷ xs) ++ junk) ≡ last_of x xs ∷ junk
  drop-last x [] junk = refl
  drop-last x (y ∷ ys) junk = drop-last y ys junk

  pub get_elem?-append : (xs ys : List A) (y : A) → get_elem? (xs ++ (y ∷ ys)) (length xs) ≡ some y
  get_elem?-append [] ys y = refl
  get_elem?-append (x ∷ xs) ys y = get_elem?-append xs ys y

  -- The slice whose elements are `xs`, with `junk` in the cells behind them.
  abbrev pub over : List A → List A → Slice A
  over xs junk = record { cells = xs ++ junk; len = length xs }

  take_prefix : (pre rest : List A) → take (length pre) (pre ++ rest) ≡ pre
  take_prefix pre rest = take-append pre rest

  drop_prefix :
      (pre : List A) (c : A) (rest : List A) → drop (suc (length pre)) (pre ++ (c ∷ rest)) ≡ rest
  drop_prefix [] c rest = refl
  drop_prefix (x ∷ pre) c rest = drop_prefix pre c rest

  drop_prefix_last :
      (n : ℕ) (pre : List A) (c : A) (post junk : List A)
      → n ≡ length pre + length post
      → drop n ((pre ++ (c ∷ post)) ++ junk) ≡ last_of c post ∷ junk
  drop_prefix_last n [] c post junk e =
      ap (λ k. drop k ((c ∷ post) ++ junk)) (omega arith) ∙ drop-last c post junk
  drop_prefix_last zero (x ∷ pre) c post junk e = absurd (omega arith)
  drop_prefix_last (suc n) (x ∷ pre) c post junk e =
      drop_prefix_last n pre c post junk (omega arith)

  over_eq :
      (cells cells' : List A) (n n' : ℕ)
      → cells ≡ cells'
      → n ≡ n'
      → ◌≡◌ {A = Option (Slice A)}
          (some (record { cells = cells; len = n }))
          (some (record { cells = cells'; len = n' }))
  over_eq cells cells' n n' p q = cc

  -- Cutting out the element behind `pre` leaves a copy of the last element behind the slice.
  pub remove_at_lem :
      (pre : List A) (c : A) (post junk : List A)
      → remove_at (over (pre ++ (c ∷ post)) junk) (length pre)
        ≡ some (over (pre ++ post) (last_of c post ∷ junk))
  unfolding remove_at
  remove_at_lem pre c post junk = rw (lt→ltb_suc) (
      over_eq _ _ _ _ cells_eq
        (omega (arith, length-append pre (c ∷ post), length-append pre post)))
    where
      lt→ltb_suc : leb (suc (length pre)) (length (pre ++ (c ∷ post))) ≡ true
      lt→ltb_suc = ground (arith, length-append pre (c ∷ post))

      kept : take (length pre) ((pre ++ (c ∷ post)) ++ junk) ≡ pre
      kept = rw (append_assoc pre (c ∷ post) junk) (take-append pre ((c ∷ post) ++ junk))

      moved :
          drop (suc (length pre)) (take (length (pre ++ (c ∷ post))) ((pre ++ (c ∷ post)) ++ junk))
          ≡ post
      moved = rw (take-append (pre ++ (c ∷ post)) junk) (drop_prefix pre c post)

      left :
          drop (length (pre ++ (c ∷ post)) - 1) ((pre ++ (c ∷ post)) ++ junk)
          ≡ last_of c post ∷ junk
      left = drop_prefix_last _ pre c post junk (omega (arith, length-append pre (c ∷ post)))

      cells_eq :
          take (length pre) ((pre ++ (c ∷ post)) ++ junk)
            ++ (drop
                  (suc (length pre))
                  (take (length (pre ++ (c ∷ post))) ((pre ++ (c ∷ post)) ++ junk))
                ++ drop (length (pre ++ (c ∷ post)) - 1) ((pre ++ (c ∷ post)) ++ junk))
          ≡ (pre ++ post) ++ (last_of c post ∷ junk)
      cells_eq = rw (kept, moved, left) (sym (append_assoc pre post (last_of c post ∷ junk)))

module _ {ℓ} {A S : Type ℓ} (effect : A → S → Option S) (hit : A → Bool) where
  abbrev pub Misses : List A → Type 0
  Misses xs = All (λ x. hit x ≡ false) xs

  Misses-last_of : (x : A) (xs : List A) → hit x ≡ false → Misses xs → hit (last_of x xs) ≡ false
  Misses-last_of x [] h m = h
  Misses-last_of x (y ∷ ys) h m = Misses-last_of y ys m.0 m.1

  Misses-append : (xs ys : List A) → Misses xs → Misses ys → Misses (xs ++ ys)
  Misses-append [] ys m k = k
  Misses-append (x ∷ xs) ys m k = (m.0, Misses-append xs ys m.1 k)

  -- The loop passes over cells that it does not hit.
  pub range_remove_pass :
      (pre seg rest : List A) (i j todo more : ℕ) (r : Removed A S)
      → r.slice.cells ≡ pre ++ (seg ++ rest)
      → i ≡ length pre
      → todo ≡ length seg + more
      → j ≡ i + length seg
      → Misses seg
      → range_remove effect hit i todo r ≡ range_remove effect hit j more r
  range_remove_pass pre [] rest i j todo more r c p e q m =
      ap₂ (λ a b. range_remove effect hit a b r) (omega arith) (omega arith)
  range_remove_pass pre (x ∷ seg) rest i j zero more r c p e q m = absurd (omega arith)
  range_remove_pass pre (x ∷ seg) rest i j (suc todo) more r c p e q m =
      step
      ∙ range_remove_pass (pre ++ (x ∷ [])) seg rest (suc i) j todo more r
          (c ∙ sym (append_assoc pre (x ∷ []) (seg ++ rest)))
          (omega (arith, length-append pre (x ∷ []))) (omega arith) (omega arith) m.1
    where
      cell : get_elem? r.slice.cells i ≡ some x
      cell = rw (c, p) (get_elem?-append pre (seg ++ rest) x)

      step : range_remove effect hit i (suc todo) r ≡ range_remove effect hit (suc i) todo r
      step = unfold range_remove in rw (cell, m.0, range_remove)

  pub range_remove-none :
      (xs junk : List A) (s : S)
      → Misses xs
      → range_remove effect hit 0
          (length xs)
          (record { slice = over xs junk; state = s; found = none })
        ≡ some (record { slice = over xs junk; state = s; found = none })
  range_remove-none xs junk s m =
      range_remove_pass [] xs junk 0 (length xs) (length xs) 0 _ refl refl (omega arith)
        (omega arith) m
      ∙ unfold range_remove in refl

  -- A round that hits.
  range_remove_hit :
      (pre : List A) (c : A) (post junk : List A) (todo : ℕ) (s s' : S)
      → hit c ≡ true
      → effect c s ≡ some s'
      → range_remove effect hit
          (length pre)
          (suc todo)
          (record { slice = over (pre ++ (c ∷ post)) junk; state = s; found = none })
        ≡ range_remove effect hit (suc (length pre)) todo (record {
          slice = over (pre ++ post) (last_of c post ∷ junk);
          state = s';
          found = some c;
        })
  unfolding range_remove
  range_remove_hit pre c post junk todo s s' here does =
      rw (cell, here, remove_at_lem pre c post junk, does, range_remove)
    where
      cell : get_elem? ((pre ++ (c ∷ post)) ++ junk) (length pre) ≡ some c
      cell = rw (append_assoc pre (c ∷ post) junk) (get_elem?-append pre (post ++ junk) c)

  -- What the loop still visits after it has cut out `c`: the rest, and its last element again.
  range_remove_rest :
      (pre : List A) (c : A) (post junk : List A) (s' : S)
      → Misses post
      → range_remove effect hit (suc (length pre)) (length post) (record {
        slice = over (pre ++ post) (last_of c post ∷ junk);
        state = s';
        found = some c;
      })
        ≡ some (record {
          slice = over (pre ++ post) (last_of c post ∷ junk);
          state = s';
          found = some c;
        })
  range_remove_rest pre c [] junk s' m = unfold range_remove in refl
  range_remove_rest pre c (y ∷ ys) junk s' m =
      range_remove_pass (pre ++ (y ∷ [])) (ys ++ (last_of y ys ∷ [])) junk _
        (suc (length pre) + length (ys ++ (last_of y ys ∷ []))) _ 0 _ cells
        (omega (arith, length-append pre (y ∷ [])))
        (omega (arith, length-append ys (last_of y ys ∷ []))) refl
        (Misses-append ys (last_of y ys ∷ []) m.1 (Misses-last_of y ys m.0 m.1, tt))
      ∙ unfold range_remove in refl
    where
      cells :
          (pre ++ (y ∷ ys)) ++ (last_of y ys ∷ junk)
          ≡ (pre ++ (y ∷ [])) ++ ((ys ++ (last_of y ys ∷ [])) ++ junk)
      cells = simp append_assoc

  -- With one element that it hits the loop removes it, and it alone.
  pub range_remove_one :
      (pre : List A) (c : A) (post junk : List A) (s s' : S)
      → Misses pre
      → hit c ≡ true
      → effect c s ≡ some s'
      → Misses post
      → range_remove effect hit 0
          (length (pre ++ (c ∷ post)))
          (record { slice = over (pre ++ (c ∷ post)) junk; state = s; found = none })
        ≡ some (record {
          slice = over (pre ++ post) (last_of c post ∷ junk);
          state = s';
          found = some c;
        })
  range_remove_one pre c post junk s s' before here does after =
      range_remove_pass [] pre ((c ∷ post) ++ junk) 0 (length pre) _ (suc (length post)) _
        (append_assoc pre (c ∷ post) junk) refl (omega (arith, length-append pre (c ∷ post)))
        (omega arith) before
      ∙ range_remove_hit pre c post junk (length post) s s' here does
      ∙ range_remove_rest pre c post junk s' after

  -- The loop panics where the effect on the first element that it hits does.
  pub range_remove_panics :
      (pre : List A) (c : A) (post junk : List A) (s : S)
      → Misses pre
      → hit c ≡ true
      → effect c s ≡ none
      → range_remove effect hit 0
          (length (pre ++ (c ∷ post)))
          (record { slice = over (pre ++ (c ∷ post)) junk; state = s; found = none })
        ≡ none
  range_remove_panics pre c post junk s before here panics =
      range_remove_pass [] pre ((c ∷ post) ++ junk) 0 (length pre) _ (suc (length post)) _
        (append_assoc pre (c ∷ post) junk) refl (omega (arith, length-append pre (c ∷ post)))
        (omega arith) before
      ∙ unfold range_remove in
        rw (cell, here, remove_at_lem pre c post junk, panics, range_remove) refl
    where
      cell : get_elem? ((pre ++ (c ∷ post)) ++ junk) (length pre) ≡ some c
      cell = rw (append_assoc pre (c ∷ post) junk) (get_elem?-append pre (post ++ junk) c)
