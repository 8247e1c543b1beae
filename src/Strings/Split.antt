-- ===== src/Strings/Split.antt =====
-- Splitting and joining texts, for the lists of addresses in src/joebot.
use joebot.Prelude.{
  ℕ, ◌≡◌, refl, sym, ap, ◌∙◌, inl, inr, false, List, [], ◌∷◌, arith, ◌==◌, ==_iff, Bool-cases, All,
  has, GoString,
}
use mathlib.Core.Path.{ap₂}
use joebot.Strings.{split, join}

split-cons :
    (sep : ℕ) (s : GoString)
    → (part : GoString) × (rest : List GoString) × (split sep s ≡ part ∷ rest)
unfolding split
split-cons sep [] = ([], [], refl)
split-cons sep (c ∷ s) =
    let (part, rest, e) = split-cons sep s in
    elim (Bool-cases (c == sep)) [
      | inl hit ↦ ([], split sep s, rw hit)
      | inr miss ↦ (c ∷ part, rest, rw (miss, e))
    ]

join_longer :
    (sep c : ℕ) (part : GoString) (rest : List GoString)
    → join sep ((c ∷ part) ∷ rest) ≡ c ∷ join sep (part ∷ rest)
unfolding join
join_longer sep c part [] = refl
join_longer sep c part (next ∷ rest) = refl

-- Splitting a text and joining the parts gives the text back.
pub join-split : (sep : ℕ) (s : GoString) → join sep (split sep s) ≡ s
unfolding split join
join-split sep [] = refl
join-split sep (c ∷ s) =
    let (part, rest, e) = split-cons sep s in
    elim (Bool-cases (c == sep)) [
      | inl hit ↦
          rw (hit, e) (ap₂ (λ a r. a ∷ r) (sym ((==_iff c sep).0 hit)) (rw e at (join-split sep s)))
      | inr miss ↦
          rw (miss, e) (join_longer sep c part rest ∙ ap (λ r. c ∷ r) (rw e at (join-split sep s)))
    ]

-- A text without the separator is one part.
pub split_one : (sep : ℕ) (s : GoString) → has sep s ≡ false → split sep s ≡ s ∷ []
unfolding split
split_one sep [] h = refl
split_one sep (c ∷ s) h = ground (arith, split_one sep s)

-- The parts of a split have no separator, so each is a text that was between two of them.
pub split_parts : (sep : ℕ) (s : GoString) → All (λ part. has sep part ≡ false) (split sep s)
unfolding split
split_parts sep [] = (refl, tt)
split_parts sep (c ∷ s) =
    let (part, rest, e) = split-cons sep s in
    let ih = split_parts sep s in
    elim (Bool-cases (c == sep)) [
      | inl hit ↦ rw hit (refl, ih)
      | inr miss ↦ (grow miss part rest e ih)
    ]
  where
    grow :
        (c == sep) ≡ false
        → (part : GoString) (rest : List GoString) → split sep s ≡ part ∷ rest
        → All (λ p. has sep p ≡ false) (split sep s)
        → All (λ p. has sep p ≡ false) (split sep (c ∷ s))
    grow miss part rest e ih =
        let (first, others) : (has sep part ≡ false) × All (λ p. has sep p ≡ false) rest =
          rw e at ih in
        rw (miss, e) (rw miss first, others)
