-- ===== src/Install/Limit.antt =====
-- The goroutines of BulkInstallJoebot in src/joebot/server/server.go: one for each host, at most ten
-- at a time by the channel chLimit, and the loop that receives their results.
use joebot.Prelude.{
  ℕ, zero, suc, ◌-◌, ◌*◌, ◌/◌, ◌%◌, ◌&&◌, ltb, ◌==◌, Option, none, some, List, [], ◌∷◌, ◌++◌,
  length, get_elem?, if◌then◌else◌,
}

-- Where limitFunc of a host is: before UploadMyself has sent its result, before Dossh has, before
-- `<-chLimit`, and at its end.
pub data Phase : Type 0 where
  uploading installing sent released : Phase

-- How many results are sent to the channel of the host, which has room for two.
unfoldable pub results : Phase → ℕ
results uploading = 0
results installing = 1
results sent = 2
results released = 2

-- The goroutines that were started, the values in chLimit, and how many results were received.
pub record Bulk : Type 0 where
  pub phases : List Phase
  pub limit : ℕ
  pub received : ℕ

pub data Move : Type 0 where
  launches receives : Move
  sends releases : ℕ → Move

unfoldable pub send_next : Phase → Option Phase
send_next uploading = some installing
send_next installing = some sent
send_next sent = none
send_next released = none

unfoldable pub release_next : Phase → Option Phase
release_next uploading = none
release_next installing = none
release_next sent = some released
release_next released = none

-- Changes the i-th of a list where `f` allows it.
unfoldable pub change_nth : (Phase → Option Phase) → ℕ → List Phase → Option (List Phase)
change_nth f i [] = none
change_nth f zero (p ∷ ps) = elim (f p) [ none ↦ none | some q ↦ some (q ∷ ps) ]
change_nth f (suc i) (p ∷ ps) = elim (change_nth f i ps) [ none ↦ none | some qs ↦ some (p ∷ qs) ]

-- One step for `n` hosts; `none` where it has to wait or has nothing to do. The results are
-- received once all hosts have their goroutine, two from each channel in the order of the hosts.
unfoldable pub move : ℕ → Bulk → Move → Option Bulk
move n b launches =
    if ltb (length b.phases) n && ltb b.limit 10
    then some (record b { phases = b.phases ++ (uploading ∷ []); limit = suc b.limit })
    else none
move n b (sends i) = elim (change_nth send_next i b.phases) [
  | none ↦ none
  | some ps ↦ some (record b { phases = ps })
]
move n b (releases i) = elim (change_nth release_next i b.phases) [
  | none ↦ none
  | some ps ↦ if ltb 0 b.limit then some (record b { phases = ps; limit = b.limit - 1 }) else none
]
move n b receives =
    if (length b.phases == n) && ltb b.received (2 * n)
    then (elim (get_elem? b.phases (b.received / 2)) [
      | none ↦ none
      | some p ↦
          if ltb (b.received % 2) (results p)
          then some (record b { received = suc b.received })
          else none
    ])
    else none

unfoldable pub no_hosts_yet : Bulk
no_hosts_yet = record { phases = []; limit = 0; received = 0 }
