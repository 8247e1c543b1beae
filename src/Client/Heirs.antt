-- ===== src/Client/Heirs.antt =====
-- The successors and the ports of a client of src/joebot/client/client.go, whatever happens to it.
use mathlib.Core.Path.{ap₂}
use joebot.Prelude.{
  ℕ, suc, ◌+◌, ◌≤◌, ◌≡◌, refl, sym, ap, ◌∙◌, Bool, true, not, none, some, inl, inr, List, [], arith,
  All, Option, Option-cases, length, count, not_has→count, ◌==◌, if◌then◌else◌, GoString, some-eq,
}
use joebot.Client.{
  Client, Settings, GostServer, remove_tunnel, same_addr, stop, reconnect, new_client,
}
use joebot.Client.Keeps.{Keeps, Grows, same, more, Stays, Stays-same, client_tasks-Stays}
use joebot.Client.Life.{given_up}
use joebot.Client.Process.{Running, Libraries, client_tasks, client_handler}
use joebot.Client.Runs.{Process, looking, accepting, ended, Loop}
use joebot.Handler.{serve_stream, on_error, new_incoming_request_handler, register_task}
use joebot.Handler.Registered.{serve_stream-Respects}
use joebot.Ports.{Os, PortsManager}
use joebot.Slices.{range_remove}
use joebot.Task.{
  port_tunnel_request, ssh_tunnel_request, novnc_request, gotty_web_terminal_request,
  filebrowser_request, Delivery,
}

-- The chances left to the loop, and to UpdateClientInfo, of giving up.
abbrev pub loop_chances : Loop → Bool → ℕ
loop_chances looking stopped = if stopped then 0 else 1
loop_chances accepting stopped = 1
loop_chances ended stopped = 0

abbrev pub chances : Process → ℕ
chances p = loop_chances p.loop p.running.client.stopped + (if p.updating then 1 else 0)

-- What holds of a process that was started with the client `c`, after `n` streams.
pub record Lives (c : Client) (n : ℕ) (p : Process) : Type 0 where
  pub settings : p.running.client.settings ≡ c.settings
  pub directory : p.running.client.filebrowser_default_dir ≡ c.filebrowser_default_dir
  pub heirs : All (λ s. s ≡ reconnect c) p.running.successors
  pub stopped : p.running.client.stopped ≡ not (length p.running.successors == 0)
  pub few : length p.running.successors + chances p ≤ 2
  pub distinct : (q : ℕ) → count q p.running.client.ports_manager.ports_in_use ≤ 1
  pub bounded : length p.running.client.ports_manager.ports_in_use ≤ n

-- Reconnect reads nothing of a client but these two.
abbrev reconnected : Settings → GoString → Option Client
reconnected settings directory = elim (new_client settings) [
  | none ↦ none
  | some n ↦ some (record n { filebrowser_default_dir = directory })
]

reconnect-same :
    (c c' : Client)
    → c'.settings ≡ c.settings
    → c'.filebrowser_default_dir ≡ c.filebrowser_default_dir
    → reconnect c' ≡ reconnect c
unfolding reconnect
reconnect-same c c' s d = ap₂ (λ settings directory. reconnected settings directory) s d

suc_positive : (n : ℕ) → true ≡ not (suc n == 0)
suc_positive n = ground arith

-- A step that gives up, with a chance fewer.
pub given_up-Lives :
    (c : Client) (n : ℕ) (p p' : Process)
    → Lives c n p
    → p'.running ≡ given_up p.running
    → suc (chances p') ≤ chances p
    → Lives c n p'
unfolding stop
given_up-Lives c n p p' h e fewer = record {
  settings = rw e h.settings;
  directory = rw e h.directory;
  heirs = rw e (reconnect-same c p.running.client h.settings h.directory, h.heirs);
  stopped = rw e (suc_positive (length p.running.successors));
  few = omega (arith, h.few, fewer, one_more);
  distinct = rw e h.distinct;
  bounded = rw e h.bounded;
}
  where
    one_more : length p'.running.successors ≡ suc (length p.running.successors)
    one_more = rw e refl

pub length-Grows :
    (os : Os) (m m' : PortsManager)
    → Grows os m m'
    → length m'.ports_in_use ≤ suc (length m.ports_in_use)
length-Grows os m m' (same e) = rw e (omega arith)
length-Grows os m m' (more p t fresh given e) = rw e (omega arith)

distinct-Grows :
    (os : Os) (m m' : PortsManager)
    → Grows os m m'
    → ((q : ℕ) → count q m.ports_in_use ≤ 1)
    → (q : ℕ) → count q m'.ports_in_use ≤ 1
distinct-Grows os m m' (same e) h q = rw e (h q)
distinct-Grows os m m' (more p t fresh given e) h q =
    rw e (ground (arith, h q, not_has→count p m.ports_in_use fresh))

-- A step that stays, with no chance more.
pub Stays-Lives :
    (os : Os) (c : Client) (n k : ℕ) (p p' : Process)
    → Lives c n p
    → Stays os p.running p'.running
    → chances p' ≤ chances p
    → length p'.running.client.ports_manager.ports_in_use ≤ k
    → Lives c k p'
Stays-Lives os c n k p p' h s fewer bounded = record {
  settings = s.client.settings ∙ h.settings;
  directory = s.client.directory ∙ h.directory;
  heirs = rw s.successors h.heirs;
  stopped = s.client.stopped ∙ (h.stopped ∙ ap (λ xs. not (length xs == 0)) (sym s.successors));
  few = omega (arith, h.few, fewer, ap (λ xs. length xs) s.successors);
  distinct = distinct-Grows os p.running.client.ports_manager _ s.client.ports h.distinct;
  bounded = bounded;
}

pub serve_stream-Stays :
    (l : Libraries) (stream : List Delivery) (r : Running)
    → Stays l.os r
        (serve_stream
          (client_handler (client_tasks l))
          stream
          (record { state = r; log = [] })).state
unfolding client_handler register_task on_error new_incoming_request_handler
serve_stream-Stays l stream r =
    serve_stream-Respects (Stays l.os) (client_handler (client_tasks l)) stream
      (record { state = r; log = [] }) (Stays-same l.os)
      (
        client_tasks-Stays l filebrowser_request,
        (
          client_tasks-Stays l gotty_web_terminal_request,
          (
            client_tasks-Stays l novnc_request,
            (
              client_tasks-Stays l ssh_tunnel_request,
              (client_tasks-Stays l port_tunnel_request, tt),
            ),
          ),
        ),
      )

pub remove_tunnel-Keeps :
    (os : Os) (g : GostServer) (c c' : Client)
    → remove_tunnel g c ≡ some c'
    → Keeps os c c' × (c'.ports_manager ≡ c.ports_manager)
unfolding remove_tunnel
remove_tunnel-Keeps os g c c' e =
    elim (Option-cases (
      range_remove {S = ℕ} (λ x s. some s) (same_addr g) 0 c.gost_tunnels.len
        (record { slice = c.gost_tunnels; state = 0; found = none }))) [
          | inl panics ↦ cc (rw (panics, remove_tunnel) at e)
          | inr (r, done) ↦
              let now : record c { gost_tunnels = r.slice } ≡ c' =
                some-eq (rw (done, remove_tunnel) at e) in
              rw (sym now) (
                record { settings = refl; directory = refl; stopped = refl; ports = same refl },
                refl,
              )
        ]
