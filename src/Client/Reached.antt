-- ===== src/Client/Reached.antt =====
-- A client of src/joebot/client/client.go after any steps of its process.
use joebot.Prelude.{
  ℕ, suc, ◌≤◌, ◌≡◌, refl, ap, ◌∙◌, Bool, true, false, not, some, inl, inr, List, [], ◌∷◌, arith,
  All, Option, length, count, ◌==◌, if◌then◌else◌, GoString, GoError, err,
}
use mathlib.Core.Path.{ap₂}
use joebot.Client.{Client, Settings, stop, reconnect, new_client}
use joebot.Client.Heirs.{
  Lives, loop_chances, given_up-Lives, Stays-Lives, length-Grows, serve_stream-Stays,
  remove_tunnel-Keeps,
}
use joebot.Client.Keeps.{Stays-same}
use joebot.Client.New.{new_client-New}
use joebot.Client.Life.{given_up, reconnect_lem, update_client_info_lem, update_client_info-broken}
use joebot.Client.Process.{Libraries, Surroundings, client_handler, exit_if_error}
use joebot.Client.Runs.{
  Process, running_from, look, looking, accepting, ended, Loop, Step, looks, accepts, serves, fails,
  updates, ends, Runs, begun, next, counted, Event,
}
use joebot.Handler.{handle_error, on_error, register_task}

looking_chances : (b : Bool) → loop_chances looking b ≤ 1
looking_chances b = ground arith

look_chances : (b : Bool) → loop_chances (if b then ended else accepting) b ≤ loop_chances looking b
look_chances b = ground arith

stopped_chances : (loop : Loop) (b : Bool) → loop_chances loop true ≤ loop_chances loop b
stopped_chances loop b = ground arith

-- Every step keeps what holds of the process.
Step-Lives :
    (l : Libraries) (w : Surroundings) (local_addr : GoString) (c : Client) (n : ℕ) (p p' : Process)
    {e : Event}
    → Lives c n p
    → Step l w local_addr p p' e
    → Lives c (counted e n) p'
unfolding handle_error client_handler register_task on_error exit_if_error
Step-Lives l w local_addr c n p p' h (looks at running e) = rw e (
    Stays-Lives l.os c n n p (record p { loop = look p }) h (Stays-same l.os p.running)
      (rw at (omega (arith, look_chances p.running.client.stopped))) h.bounded)
Step-Lives l w local_addr c n p p' h (accepts at running e) = rw e (
    Stays-Lives l.os c n n p _ h (Stays-same l.os p.running)
      (rw at (omega (arith, looking_chances p.running.client.stopped))) h.bounded)
Step-Lives l w local_addr c n p p' h (serves stream answer others at running e) =
    let s = serve_stream-Stays l stream (record (p.running) { stream = answer }) in
    rw e (
      Stays-Lives l.os c n (suc n) p _ h (record { client = s.client; successors = s.successors })
        (rw s.client.stopped (omega arith))
        (omega (arith, h.bounded, length-Grows l.os _ _ s.client.ports)))
Step-Lives l w local_addr c n p p' h (fails x at running e) =
    rw e (given_up-Lives c n p _ h refl (rw at (omega arith)))
Step-Lives l w local_addr c n p p' h (updates at running e) =
    elim (update_client_info_lem w local_addr p.running) [
      | inl same ↦ rw e (
          Stays-Lives l.os c n n p _ h (rw same (Stays-same l.os p.running))
            (rw (same, at) (omega arith)) (rw same h.bounded))
      | inr gone ↦ rw e (
          given_up-Lives c n p _ h gone
            (rw (gone, at) (omega (arith, stopped_chances p.loop p.running.client.stopped))))
    ]
Step-Lives l w local_addr c n p p' h (ends g c' running e now) =
    let (k, ports) = remove_tunnel-Keeps l.os g p.running.client c' e in
    rw now (
      Stays-Lives l.os c n n p _ h (record { client = k; successors = refl })
        (rw k.stopped (omega arith)) (rw ports h.bounded))

Runs-Lives :
    (l : Libraries) (w : Surroundings) (local_addr : GoString) (c : Client) (p p' : Process) {n : ℕ}
    → Lives c 0 p
    → Runs l w local_addr p n p'
    → Lives c n p'
Runs-Lives l w local_addr c p p' h begun = h
Runs-Lives l w local_addr c p p'' h (next {p' = p'} {n = n} run step) =
    Step-Lives l w local_addr c n p' p'' (Runs-Lives l w local_addr c p p' h run) step

running_from-Lives :
    (c : Client)
    → c.stopped ≡ false
    → c.ports_manager.ports_in_use ≡ []
    → Lives c 0 (running_from c)
running_from-Lives c running unused = record {
  settings = refl;
  directory = refl;
  heirs = tt;
  stopped = running;
  few = rw running (omega arith);
  distinct = λ q. rw unused (omega arith);
  bounded = rw unused (omega arith);
}

module _ (l : Libraries) (w : Surroundings) (local_addr : GoString) (settings : Settings)
    (c : Client) (directory : GoString) (made : new_client settings ≡ some c) where
  -- The client that main starts: a new client with the directory of its file browser.
  abbrev pub started : Client
  started = record c { filebrowser_default_dir = directory }

  running_from-run :
      {n : ℕ} (p : Process) → Runs l w local_addr (running_from started) n p → Lives started n p
  running_from-run p run =
      let new = new_client-New settings c made in
      Runs-Lives l w local_addr started (running_from started) p
        (running_from-Lives started new.running new.unused) run

  -- Every client with the settings and the directory reconnects as the client that was started.
  heir :
      (old : Client)
      → old.settings ≡ c.settings
      → old.filebrowser_default_dir ≡ directory
      → reconnect old ≡ some started
  heir old alike stays =
      reconnect_lem c old (ap (λ s. new_client s) (new_client-New settings c made).given ∙ made)
        alike
      ∙ ap (λ d. some (record c { filebrowser_default_dir = d })) stays

  All-heirs :
      (xs : List (Option Client))
      → All (λ x. x ≡ reconnect started) xs
      → All (λ x. x ≡ some started) xs
  All-heirs [] h = tt
  All-heirs (x ∷ xs) h = (h.0 ∙ heir started refl refl, All-heirs xs h.1)

  -- However the process of a client that NewClient made goes on: it has at most two successors, each
  -- of them is exactly the client that was started, and the client is stopped just when it has one.
  pub reached_successors :
      {n : ℕ} (p : Process)
      → Runs l w local_addr (running_from started) n p
      → (length p.running.successors ≤ 2)
        × All (λ x. x ≡ some started) p.running.successors
        × (p.running.client.stopped ≡ not (length p.running.successors == 0))
  reached_successors p run =
      let h = running_from-run p run in
      (omega (arith, h.few), All-heirs p.running.successors h.heirs, h.stopped)

  -- However the process of a client that NewClient made goes on, after `n` streams at most `n` of its
  -- ports are in use, and none twice; the settings of the client are those that it was made with.
  pub reached_ports_in_use :
      {n : ℕ} (p : Process)
      → Runs l w local_addr (running_from started) n p
      → (length p.running.client.ports_manager.ports_in_use ≤ n)
        × ((q : ℕ) → count q p.running.client.ports_manager.ports_in_use ≤ 1)
        × (p.running.client.settings ≡ settings)
  reached_ports_in_use p run =
      let h = running_from-run p run in
      (h.bounded, h.distinct, h.settings ∙ (new_client-New settings c made).given)

  -- When the session breaks before UpdateClientInfo has sent its request, the client that NewClient
  -- made gives up twice: Accept and the opening of a stream both fail, and two clients are started in
  -- its place.
  pub gives_up_twice :
      (x y : GoError)
      → w.opened ≡ err y
      → (p : Process) × Runs l w local_addr (running_from started) 0 p
        × (p.running.successors ≡ some started ∷ (some started ∷ []))
  unfolding handle_error client_handler register_task on_error exit_if_error stop
  gives_up_twice x y broken = (
    _,
    next
        (next (next begun (looks refl refl refl))
          (fails x (rw (new_client-New settings c made).running refl) refl refl))
        (updates refl refl refl),
    ap (λ r. r.successors)
          (update_client_info-broken w local_addr (given_up (running_from started).running) y
            broken)
        ∙ ap₂ (λ a b. a ∷ (b ∷ [])) (heir (stop started) refl refl) (heir started refl refl),
  )
