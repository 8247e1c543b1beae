-- ===== src/Install/Goroutines.antt =====
-- The states that the goroutines of BulkInstallJoebot in src/joebot/server/server.go reach, and the
-- steps that they have left.
use joebot.Prelude.{
  ℕ, zero, suc, ◌+◌, ◌-◌, ◌*◌, ◌/◌, ◌%◌, ◌≡◌, ◌≤◌, inl, inr, refl, ◌&&◌, ltb, ◌==◌, ltb→lt,
  Bool-cases, Option, some, some-eq, Option-cases, List, [], ◌∷◌, ◌++◌, length, length-append,
  get_elem?, arith,
}
use mathlib.Core.Path.{subst}
use joebot.Install.Limit.{
  Phase, uploading, installing, sent, released, results, Bulk, Move, launches, receives, sends,
  releases, send_next, release_next, change_nth, move, no_hosts_yet,
}

-- The steps that limitFunc has left.
abbrev pub steps_left : Phase → ℕ
steps_left uploading = 3
steps_left installing = 2
steps_left sent = 1
steps_left released = 0

abbrev pub occupies : Phase → ℕ
occupies uploading = 1
occupies installing = 1
occupies sent = 1
occupies released = 0

abbrev pub total : (Phase → ℕ) → List Phase → ℕ
total w [] = 0
total w (p ∷ ps) = w p + total w ps

-- The goroutines that hold a place in chLimit.
abbrev pub running : Bulk → ℕ
running b = total occupies b.phases

-- The steps that the goroutines, those that are not started and the receiving loop have left.
abbrev pub steps_to_go : ℕ → Bulk → ℕ
steps_to_go n b = 4 * (n - length b.phases) + total steps_left b.phases + (2 * n - b.received)

total-append :
    (w : Phase → ℕ) (p : Phase) (ps : List Phase) → total w (ps ++ (p ∷ [])) ≡ total w ps + w p
total-append w p [] = omega arith
total-append w p (q ∷ ps) = omega (arith, total-append w p ps)

-- A change of one phase by `f`, which lowers the weight by `k`.
module _ (w : Phase → ℕ) (f : Phase → Option Phase) (k : ℕ)
    (lowers : (p q : Phase) → f p ≡ some q → w q + k ≡ w p) where
  total-change_nth :
      (i : ℕ) (ps qs : List Phase)
      → change_nth f i ps ≡ some qs
      → (total w qs + k ≡ total w ps) × (length qs ≡ length ps)
  unfolding change_nth
  total-change_nth i [] qs e = cc
  total-change_nth zero (p ∷ ps) qs e = elim (Option-cases (f p)) [
    | inl blocked ↦ cc (rw (blocked, change_nth) at e)
    | inr (q, given) ↦
        let same = some-eq (rw (given, change_nth) at e) in
        rw (← same) (omega (arith, lowers p q given), refl)
  ]
  total-change_nth (suc i) (p ∷ ps) qs e = elim (Option-cases (change_nth f i ps)) [
    | inl blocked ↦ cc (rw (blocked, change_nth) at e)
    | inr (rs, given) ↦
        let same = some-eq (rw (given, change_nth) at e) in
        let (less, long) = total-change_nth i ps rs given in
        rw (← same) (omega (arith, less), omega (arith, long))
  ]

send_lowers : (p q : Phase) → send_next p ≡ some q → steps_left q + 1 ≡ steps_left p
unfolding send_next
send_lowers uploading q e = rw (← some-eq e) refl
send_lowers installing q e = rw (← some-eq e) refl
send_lowers sent q e = cc
send_lowers released q e = cc

send_holds : (p q : Phase) → send_next p ≡ some q → occupies q + 0 ≡ occupies p
unfolding send_next
send_holds uploading q e = rw (← some-eq e) refl
send_holds installing q e = rw (← some-eq e) refl
send_holds sent q e = cc
send_holds released q e = cc

release_lowers : (p q : Phase) → release_next p ≡ some q → steps_left q + 1 ≡ steps_left p
unfolding release_next
release_lowers uploading q e = cc
release_lowers installing q e = cc
release_lowers sent q e = rw (← some-eq e) refl
release_lowers released q e = cc

release_frees : (p q : Phase) → release_next p ≡ some q → occupies q + 1 ≡ occupies p
unfolding release_next
release_frees uploading q e = cc
release_frees installing q e = cc
release_frees sent q e = rw (← some-eq e) refl
release_frees released q e = cc

-- The state after any steps, with their number.
pub data Reaches (n : ℕ) : ℕ → Bulk → Type 0 where
  begun : Reaches n 0 no_hosts_yet
  further :
      {k : ℕ} {b b' : Bulk}
      → Reaches n k b
      → (m : Move) → move n b m ≡ some b'
      → Reaches n (suc k) b'

pub record Holds (n k : ℕ) (b : Bulk) : Type 0 where
  pub counted : b.limit ≡ running b
  pub short : b.limit ≤ 10
  pub hosts : length b.phases ≤ n
  pub told : b.received ≤ 2 * n
  pub steps : k + steps_to_go n b ≡ 6 * n

-- A step that changes the phases by `f`, and frees `k` places.
changed_phase :
    (n k : ℕ) (b : Bulk) (ps : List Phase) (limit freed : ℕ)
    → Holds n k b
    → (total steps_left ps + 1 ≡ total steps_left b.phases) × (length ps ≡ length b.phases)
    → total occupies ps + freed ≡ total occupies b.phases
    → limit + freed ≡ b.limit
    → Holds n (suc k) (record b { phases = ps; limit = limit })
changed_phase n k b ps limit freed h (less, long) frees places = record {
  counted = omega (arith, h.counted, frees, places);
  short = omega (arith, h.short, places);
  hosts = omega (arith, h.hosts, long);
  told = h.told;
  steps = omega (arith, h.steps, less, long);
}

move-Holds :
    (n k : ℕ) (b b' : Bulk) (m : Move) → Holds n k b → move n b m ≡ some b' → Holds n (suc k) b'
unfolding move results
move-Holds n k b b' launches h e = elim (Bool-cases (ltb (length b.phases) n && ltb b.limit 10)) [
  | inr blocked ↦ cc (rw (blocked, move) at e)
  | inl open_now ↦
      subst (λ x. Holds n (suc k) x) (some-eq (rw (open_now, move) at e))
        (record {
          counted = omega (arith, h.counted, total-append occupies uploading b.phases);
          short = ground (arith, open_now);
          hosts = ground (arith, open_now, length-append b.phases (uploading ∷ []));
          told = h.told;
          steps = ground (
            arith,
            open_now,
            h.steps,
            length-append b.phases (uploading ∷ []),
            total-append steps_left uploading b.phases,
          );
        })
]
move-Holds n k b b' (sends i) h e = elim (Option-cases (change_nth send_next i b.phases)) [
  | inl blocked ↦ cc (rw (blocked, move) at e)
  | inr (ps, given) ↦
      subst (λ x. Holds n (suc k) x) (some-eq (rw (given, move) at e))
        (changed_phase n k b ps b.limit 0 h
          (total-change_nth steps_left send_next 1 send_lowers i b.phases ps given)
          (total-change_nth occupies send_next 0 send_holds i b.phases ps given).0 (omega arith))
]
move-Holds n k b b' (releases i) h e = elim (Option-cases (change_nth release_next i b.phases)) [
  | inl blocked ↦ cc (rw (blocked, move) at e)
  | inr (ps, given) ↦ elim (Bool-cases (ltb 0 b.limit)) [
    | inr empty ↦ cc (rw (given, empty, move) at e)
    | inl full ↦
        subst (λ x. Holds n (suc k) x) (some-eq (rw (given, full, move) at e))
          (changed_phase n k b ps (b.limit - 1) 1 h
            (total-change_nth steps_left release_next 1 release_lowers i b.phases ps given)
            (total-change_nth occupies release_next 1 release_frees i b.phases ps given).0
            (omega (arith, ltb→lt 0 b.limit full)))
  ]
]
move-Holds n k b b' receives h e =
    elim (Bool-cases ((length b.phases == n) && ltb b.received (2 * n))) [
      | inr blocked ↦ cc (rw (blocked, move) at e)
      | inl open_now ↦ elim (Option-cases (get_elem? b.phases (b.received / 2))) [
        | inl none_there ↦ cc (rw (open_now, none_there, move) at e)
        | inr (p, there) ↦ elim (Bool-cases (ltb (b.received % 2) (results p))) [
          | inr empty ↦ cc (rw (open_now, there, empty, move) at e)
          | inl full ↦
              subst (λ x. Holds n (suc k) x) (some-eq (rw (open_now, there, full, move) at e))
                (record {
                  counted = h.counted;
                  short = h.short;
                  hosts = h.hosts;
                  told = ground (arith, open_now);
                  steps = ground (arith, open_now, h.steps);
                })
        ]
      ]
    ]

pub Reaches-Holds : (n k : ℕ) (b : Bulk) → Reaches n k b → Holds n k b
unfolding no_hosts_yet
Reaches-Holds n zero b begun = record {
  counted = refl;
  short = omega arith;
  hosts = omega arith;
  told = omega arith;
  steps = omega arith;
}
Reaches-Holds n k b (further r m e) = move-Holds n _ _ b m (Reaches-Holds n _ _ r) e
