-- ===== src/Client/Inside.antt =====
-- The ports that a client of src/joebot/client uses, when its range is restricted.
use joebot.Prelude.{
  ℕ, ◌≤◌, ◌<◌, ◌≡◌, ◌≢◌, refl, sym, ap, ◌∙◌, true, false, ◌&&◌, ◌==◌, ==_iff, some, inl, inr, [],
  arith, has, leb, Bool-cases, some-eq, GoString,
}
use mathlib.Core.Path.{subst, ap₂}
use joebot.Client.{Client, Settings, new_client, stop, set_allowed_port_range}
use joebot.Client.Allowed.{set_allowed_port_range_lem}
use joebot.Client.Heirs.{serve_stream-Stays, remove_tunnel-Keeps}
use joebot.Client.Keeps.{Grows, same, more}
use joebot.Client.Life.{update_client_info_lem}
use joebot.Client.New.{new_client-New}
use joebot.Client.Process.{Libraries, Surroundings, client_handler, exit_if_error}
use joebot.Client.Runs.{
  Process, running_from, Step, looks, accepts, serves, fails, updates, ends, Runs, begun, next,
  Event,
}
use joebot.Handler.{handle_error, on_error, register_task}
use joebot.Ports.{Os, IsOs, PortsManager, new_ports_manager}
use joebot.Ports.Reserve.{reserve_port-allowed}
use joebot.Strings.{pos}

abbrev manager : Process → PortsManager
manager p = p.running.client.ports_manager

-- A step reserves at most one port.
Step-Grows :
    (l : Libraries) (w : Surroundings) (local_addr : GoString) (p p' : Process) {e : Event}
    → Step l w local_addr p p' e
    → Grows l.os (manager p) (manager p')
unfolding handle_error client_handler register_task on_error exit_if_error stop
Step-Grows l w local_addr p p' (looks at running e) = rw e (same refl)
Step-Grows l w local_addr p p' (accepts at running e) = rw e (same refl)
Step-Grows l w local_addr p p' (serves stream answer others at running e) =
    let s = serve_stream-Stays l stream (record (p.running) { stream = answer }) in
    rw e s.client.ports
Step-Grows l w local_addr p p' (fails x at running e) = rw e (same refl)
Step-Grows l w local_addr p p' (updates at running e) =
    elim (update_client_info_lem w local_addr p.running) [
      | inl unchanged ↦ rw e (same (ap (λ r. r.client.ports_manager) unchanged))
      | inr gone ↦ rw e (same (ap (λ r. r.client.ports_manager) gone))
    ]
Step-Grows l w local_addr p p' (ends g c running e now) =
    let (k, ports) = remove_tunnel-Keeps l.os g p.running.client c e in rw now (same ports)

-- The allowed ports are those of another manager, and only such ports are in use.
record Inside (m m' : PortsManager) : Type 0 where
  allowed : m'.allowed_ports ≡ m.allowed_ports
  within : (q : ℕ) → has q m'.ports_in_use ≡ true → has q m.allowed_ports ≡ true

module _ (os : Os) (laws : IsOs os) (m : PortsManager) (some_allowed : m.allowed_ports ≢ [])
    (no_zero : has 0 m.allowed_ports ≡ false) where
  Grows-Inside : (m' m'' : PortsManager) → Inside m m' → Grows os m' m'' → Inside m m''
  Grows-Inside m' m'' h (same e) = rw e h
  Grows-Inside m' m'' h (more p t fresh given e) = rw e (record {
    allowed = h.allowed;
    within = λ q used. elim (Bool-cases (p == q)) [
      | inl here ↦ subst (λ x. has x m.allowed_ports ≡ true) ((==_iff p q).0 here) listed
      | inr other ↦ h.within q (rw other at used)
    ];
  })
    where
      listed : has p m.allowed_ports ≡ true
      listed =
          subst (λ ports. has p ports ≡ true) h.allowed
            (reserve_port-allowed os laws m' t p
              (λ none_left. some_allowed (sym h.allowed ∙ none_left))
              (ap (λ ports. has 0 ports) h.allowed ∙ no_zero) given)

Runs-Inside :
    (l : Libraries) (laws : IsOs l.os) (w : Surroundings) (local_addr : GoString) (m : PortsManager)
    (p p' : Process) {n : ℕ}
    → m.allowed_ports ≢ []
    → has 0 m.allowed_ports ≡ false
    → Inside m (manager p)
    → Runs l w local_addr p n p'
    → Inside m (manager p')
Runs-Inside l laws w local_addr m p p' some_allowed no_zero h begun = h
Runs-Inside l laws w local_addr m p p'' some_allowed no_zero h (next {p' = p'} run step) =
    Grows-Inside l.os laws m some_allowed no_zero (manager p') (manager p'')
      (Runs-Inside l laws w local_addr m p p' some_allowed no_zero h run)
      (Step-Grows l w local_addr p' p'' step)

-- On a system that keeps the laws, however the process of a client goes on that NewClient made for a
-- range of ports above 0, with any directory for its file browser, every port that it has in use lies in the range.
pub reached_range :
    (l : Libraries) (laws : IsOs l.os) (w : Surroundings) (local_addr : GoString)
    (settings : Settings) (c : Client) (directory : GoString) (lo hi : ℕ)
    → settings.allowed_port_range_lbound ≡ pos lo
    → settings.allowed_port_range_ubound ≡ pos hi
    → 0 < lo
    → lo ≤ hi
    → new_client settings ≡ some c
    → (p : Process) {n : ℕ}
    → Runs l w local_addr (running_from (record c { filebrowser_default_dir = directory })) n p
    → (q : ℕ) → has q p.running.client.ports_manager.ports_in_use ≡ true
    → (lo ≤ q) × (q ≤ hi)
reached_range l laws w local_addr settings c directory lo hi low high above ordered made p run q
      used =
    let new = new_client-New settings c made in
    let h =
      Runs-Inside l laws w local_addr c.ports_manager
        (running_from (record c { filebrowser_default_dir = directory })) p
        (λ none_left.
          no_port (sym (ap (λ ports. has lo ports) none_left) ∙ (range_at lo ∙ ground arith)))
        (range_at 0 ∙ ground arith)
        (record { allowed = refl; within = λ x y. cc (ap (λ ports. has x ports) new.unused) })
        run in
    ground (arith, range_at q, h.within q used)
  where
    no_port : false ≡ true → ⊥
    no_port e = cc

    range_at : (x : ℕ) → has x c.ports_manager.allowed_ports ≡ (leb lo x && leb x hi)
    range_at x =
        let (m, ranged, allows) = set_allowed_port_range_lem lo hi x ordered (ground arith) in
        let same_manager : c.ports_manager ≡ m = some-eq (
          sym (new_client-New settings c made).ranged
          ∙ (ap₂ (λ a b. set_allowed_port_range a b new_ports_manager) low high ∙ ranged)) in
        ap (λ n. has x n.allowed_ports) same_manager ∙ allows
