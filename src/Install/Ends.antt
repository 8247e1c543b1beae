-- ===== src/Install/Ends.antt =====
-- The end of an installation on many hosts, src/joebot/server/server.go.
use joebot.Prelude.{
  ℕ, zero, suc, ◌+◌, ◌-◌, ◌*◌, ◌/◌, ◌%◌, ◌≡◌, ◌≤◌, ◌<◌, ◌⊎◌, inl, inr, refl, ltb, lt→ltb, ==_iff,
  Bool-cases, some, List, [], ◌∷◌, ◌++◌, length, get_elem?, arith,
}
use joebot.Install.Limit.{
  Phase, uploading, installing, sent, released, results, Bulk, Move, launches, receives, sends,
  releases, send_next, release_next, change_nth, move,
}
use joebot.Install.Goroutines.{Reaches, Reaches-Holds, Holds, running, occupies, steps_to_go, total}

-- The first goroutine that has a step to do.
data Work (ps : List Phase) : Type 0 where
  sending : (i : ℕ) (qs : List Phase) → change_nth send_next i ps ≡ some qs → Work ps
  releasing :
      (i : ℕ) (qs : List Phase)
      → change_nth release_next i ps ≡ some qs
      → 1 ≤ total occupies ps
      → Work ps
  ended :
      total occupies ps ≡ 0 → ((j : ℕ) → j < length ps → get_elem? ps j ≡ some released) → Work ps

Work-first : (ps : List Phase) → Work ps
unfolding change_nth send_next release_next
Work-first [] = ended refl (λ j h. absurd (omega arith))
Work-first (uploading ∷ ps) = sending 0 (installing ∷ ps) refl
Work-first (installing ∷ ps) = sending 0 (sent ∷ ps) refl
Work-first (sent ∷ ps) = releasing 0 (released ∷ ps) refl (omega arith)
Work-first (released ∷ ps) = behind (Work-first ps)
  where
    at :
        (j : ℕ)
        → ((j : ℕ) → j < length ps → get_elem? ps j ≡ some released)
        → j < suc (length ps)
        → get_elem? (released ∷ ps) j ≡ some released
    at zero all h = refl
    at (suc j) all h = all j (omega arith)

    behind : Work ps → Work (released ∷ ps)
    behind (sending i qs e) = sending (suc i) (released ∷ qs) (rw e refl)
    behind (releasing i qs e held) =
        releasing (suc i) (released ∷ qs) (rw e refl) (omega (arith, held))
    behind (ended none_held all) = ended (omega (arith, none_held)) (λ j h. at j all h)

-- A step that is possible.
abbrev pub GoesOn : ℕ → Bulk → Type 0
GoesOn n b = (m : Move) × (b' : Bulk) × (move n b m ≡ some b')

module _ (n k : ℕ) (b : Bulk) (r : Reaches n k b) where
  h : Holds n k b
  h = Reaches-Holds n k b r

  all_ended :
      total occupies b.phases ≡ 0
      → ((j : ℕ) → j < length b.phases → get_elem? b.phases j ≡ some released)
      → (b.received ≡ 2 * n) ⊎ GoesOn n b
  unfolding move results
  all_ended empty all = elim (Bool-cases (ltb (length b.phases) n)) [
    | inl more ↦ inr (
      launches,
      record b { phases = b.phases ++ (uploading ∷ []); limit = suc b.limit },
      rw (more, lt→ltb b.limit 10 (omega (arith, h.counted, empty)), move) refl,
    )
    | inr full ↦ elim (Bool-cases (ltb b.received (2 * n))) [
      | inr finished ↦ inl (ground (arith, finished, h.told))
      | inl waiting ↦ inr (
        receives,
        record b { received = suc b.received },
        rw
            (
              (==_iff (length b.phases) n).1 (ground (arith, full, h.hosts)),
              waiting,
              all (b.received / 2) (ground (arith, full, h.hosts, waiting)),
              lt→ltb (b.received % 2) 2 (omega arith),
              move,
            )
            refl,
      )
    ]
  ]

  -- In every state that is reached, either all results of all hosts were received, or a step is
  -- possible: the limit of ten and the channels never leave the installation stuck.
  pub bulk_install_never_stuck : (b.received ≡ 2 * n) ⊎ GoesOn n b
  unfolding move
  bulk_install_never_stuck = go (Work-first b.phases)
    where
      go : Work b.phases → (b.received ≡ 2 * n) ⊎ GoesOn n b
      go (sending i qs e) = inr (sends i, record b { phases = qs }, rw (e, move) refl)
      go (releasing i qs e held) = inr (
        releases i,
        record b { phases = qs; limit = b.limit - 1 },
        rw (e, lt→ltb 0 b.limit (omega (arith, held, h.counted)), move) refl,
      )
      go (ended empty all) = all_ended empty all

  -- In every state that is reached, at most ten hosts are worked on, and chLimit holds a value for
  -- each of them.
  pub bulk_install_limit : (b.limit ≡ running b) × (running b ≤ 10)
  bulk_install_limit = (h.counted, omega (arith, h.counted, h.short))

  -- After any number of steps, that number and the steps that are left make six for each host, and
  -- each step counts: so the installation ends after at most that many, whatever the order in which
  -- the goroutines run.
  pub bulk_install_steps : k + steps_to_go n b ≡ 6 * n
  bulk_install_steps = h.steps
