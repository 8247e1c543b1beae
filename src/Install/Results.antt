-- ===== src/Install/Results.antt =====
-- What the installation reports: one result for each upload and each run of commands, in
-- src/joebot/sshconnect/sshconnect.go and BulkInstallJoebot of src/joebot/server/server.go.
use joebot.Prelude.{
  ℕ, suc, ◌+◌, ◌*◌, ◌≤◌, ◌≡◌, refl, ap, ◌≢◌, inl, inr, Bool, true, false, some, List, [], ◌∷◌, ◌++◌,
  arith, if◌then◌else◌, Bool-cases, Result-cases, str_eq, length, All, GoString, str, Result, ok,
  err,
}
use mathlib.Core.Path.{ap₂}
use joebot.Models.{Address, BulkInstallInfo}
use joebot.Install.Ssh.{
  SshResult, SshHost, Remote, failure, answered, buffers, upload, dossh_session, dossh_run,
  select_result, upload_myself, dossh, connect, timed_out, session_of, join_and,
}
use joebot.Install.{
  limit_func, host_of, told, collect, Surroundings, channels, install_on, bulk_install_joebot,
  install_commands, remote_file,
}

module _ (remote : Remote) (h : SshHost) where
  answered_host : (r : Result GoString) → (answered remote h r).host ≡ h.host
  unfolding failure
  answered_host (ok text) = refl
  answered_host (err e) = refl

  buffers_host : (b : GoString × GoString) → (buffers remote h b).host ≡ h.host
  unfolding buffers
  buffers_host (outbt, errbt) = elim (Bool-cases (str_eq errbt [])) [
    | inl y ↦ rw y refl
    | inr n ↦ rw n refl
  ]

  -- A session that was set up, or an error, and then the outcome of the commands.
  dossh_session_host :
      (cmds ciphers : List GoString) → (dossh_session remote h cmds ciphers).host ≡ h.host
  unfolding dossh_session failure
  dossh_session_host cmds ciphers = elim (Result-cases (connect remote h ciphers true)) [
    | inr (e, x) ↦ rw (x, dossh_session) refl
    | inl ((client, session), x) ↦ elim (Result-cases (remote.shell (session_of remote session))) [
      | inr (e, y) ↦ rw (x, y, dossh_session) refl
      | inl (u, y) ↦ rw (x, y, dossh_session) (buffers_host _)
    ]
  ]

  dossh_run_host : (cmds ciphers : List GoString) → (dossh_run remote h cmds ciphers).host ≡ h.host
  unfolding dossh_run failure
  dossh_run_host cmds ciphers = elim (Result-cases (connect remote h ciphers true)) [
    | inr (e, x) ↦ rw (x, dossh_run) refl
    | inl ((client, session), x) ↦
        elim (Result-cases
          (remote.run (session_of remote session) (join_and remote (cmds ++ (str "exit" ∷ []))))) [
            | inr (e, y) ↦ rw (x, y, dossh_run) refl
            | inl (u, y) ↦ rw (x, y, dossh_run) (buffers_host _)
          ]
  ]

  select_result_host :
      (timeout : ℕ) (res : SshResult)
      → res.host ≡ h.host
      → (r : SshResult) × (select_result remote h timeout res ≡ r ∷ []) × (r.host ≡ h.host)
  unfolding select_result timed_out
  select_result_host timeout res e = elim (Bool-cases remote.late) [
    | inl y ↦ (
      timed_out remote h timeout,
      ap (λ b. (if b then timed_out remote h timeout else res) ∷ []) y,
      refl,
    )
    | inr n ↦ (res, ap (λ b. (if b then timed_out remote h timeout else res) ∷ []) n, e)
  ]

  -- Whatever fails or is late, UploadMyself sends one result, with the host's name.
  upload_myself_one :
      (dst : GoString) (timeout : ℕ) (ciphers : List GoString)
      → (r : SshResult) × (upload_myself remote dst h timeout ciphers ≡ r ∷ []) × (r.host ≡ h.host)
  unfolding upload_myself upload
  upload_myself_one dst timeout ciphers = select_result_host timeout _ (answered_host _)

  -- The same of Dossh, in both modes.
  dossh_one :
      (cmds : List GoString) (timeout : ℕ) (ciphers : List GoString) (linux_mode : Bool)
      → (r : SshResult) × (dossh remote h cmds timeout ciphers linux_mode ≡ r ∷ [])
        × (r.host ≡ h.host)
  unfolding dossh
  dossh_one cmds timeout ciphers true = select_result_host timeout _ (dossh_run_host cmds ciphers)
  dossh_one cmds timeout ciphers false =
      select_result_host timeout _ (dossh_session_host cmds ciphers)

-- Whatever the connections do, limitFunc sends two results, both with the host's name: so neither
-- receive waits for ever, and the buffer of two is enough.
pub limit_func_two :
    (first second : Remote) (info : BulkInstallInfo) (n : ℕ) (h : SshHost)
    → (a : SshResult) × (b : SshResult) × (limit_func first second info n h ≡ a ∷ (b ∷ []))
      × (a.host ≡ h.host)
      × (b.host ≡ h.host)
unfolding limit_func
limit_func_two first second info n h =
    let (a, sent, named) = upload_myself_one first h (remote_file n) 120 [] in
    let (b, sent', named') =
      dossh_one second h (install_commands info (remote_file n)) 120 [] false in
    (a, b, ap₂ (λ xs ys. xs ++ ys) sent sent', named, named')

length-told : (r : SshResult) (rs : List SshResult) → length (told r rs) ≤ length rs + 1
length-told r rs = ground arith

collect-channels :
    (w : Surroundings) (info : BulkInstallInfo) (i : ℕ) (addresses : List Address)
    → (results : List SshResult) × (collect (channels w info i addresses) ≡ some results)
      × (length results ≤ 2 * length addresses)
      × All (λ r. str_eq r.result [] ≡ false) results
unfolding collect
collect-channels w info i [] = ([], refl, omega arith, tt)
collect-channels w info i (addr ∷ rest) =
    let (a, b, sent, na, nb) =
      limit_func_two (w.remote i false) (w.remote i true) info (w.random i) (host_of info addr) in
    let (results, e, short, texts) = collect-channels w info (suc i) rest in
    (
      told a (told b results),
      rw (sent, e) refl,
      omega (arith, short, length-told a (told b results), length-told b results),
      told_all a (told b results) (told_all b results texts),
    )
  where
    told_all :
        (r : SshResult) (rs : List SshResult)
        → All (λ x. str_eq x.result [] ≡ false) rs
        → All (λ x. str_eq x.result [] ≡ false) (told r rs)
    told_all r rs h = elim (Bool-cases (str_eq r.result [])) [
      | inl y ↦ rw y h
      | inr n ↦ rw n (n, h)
    ]

install_on_ends :
    (w : Surroundings) (info : BulkInstallInfo) (addresses : List Address)
    → addresses ≢ []
    → (results : List SshResult) × (install_on w info addresses ≡ some (ok [], results))
      × (length results ≤ 2 * length addresses)
      × All (λ r. str_eq r.result [] ≡ false) results
unfolding install_on
install_on_ends w info [] given = absurd (given refl)
install_on_ends w info (addr ∷ rest) given =
    let (results, x, short, texts) = collect-channels w info 0 (addr ∷ rest) in
    (results, rw (x, install_on) refl, short, texts)

-- For a list of addresses that is not empty, BulkInstallJoebot always ends, and its text is empty:
-- no failure of a host is told to the caller. It prints at most two results for a host, none of
-- them an empty text.
bulk_install_joebot_ends :
    (w : Surroundings) (info : BulkInstallInfo)
    → info.addresses ≢ []
    → (results : List SshResult) × (bulk_install_joebot w info ≡ some (ok [], results))
      × (length results ≤ 2 * length info.addresses)
      × All (λ r. str_eq r.result [] ≡ false) results
unfolding bulk_install_joebot
bulk_install_joebot_ends w info given = install_on_ends w info info.addresses given
