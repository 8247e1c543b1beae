-- ===== src/Strings/Join.antt =====
-- Texts that are joined and split again, for src/joebot/sshconnect/cfg.go.
use joebot.Prelude.{
  ℕ, ◌≡◌, refl, ap, ◌∙◌, false, List, [], ◌∷◌, ◌++◌, arith, All, has, ==_refl, GoString,
}
use joebot.Strings.{split, join}
use joebot.Strings.Split.{split_one}

-- The first part ends at the first separator.
pub split-append :
    (sep : ℕ) (part s : GoString)
    → has sep part ≡ false
    → split sep (part ++ (sep ∷ s)) ≡ part ∷ split sep s
unfolding split
split-append sep [] s h = rw (==_refl sep) refl
split-append sep (c ∷ part) s h = ground (arith, split-append sep part s)

-- Parts without the separator come back when they are joined and split, if there is one at least.
pub split-join :
    (sep : ℕ) (part : GoString) (parts : List GoString)
    → All (λ p. has sep p ≡ false) (part ∷ parts)
    → split sep (join sep (part ∷ parts)) ≡ part ∷ parts
unfolding join
split-join sep part [] h = split_one sep part h.0
split-join sep part (next ∷ parts) h =
    split-append sep part (join sep (next ∷ parts)) h.0
    ∙ ap (λ r. part ∷ r) (split-join sep next parts h.1)
