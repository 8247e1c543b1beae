-- ===== src/Client/Ended.antt =====
-- What the process of a client of src/joebot/client/client.go still does when the client has given up.
use joebot.Prelude.{ℕ, ◌+◌, ◌≤◌, ◌≡◌, refl, ap, ◌∙◌, true, inl, inr, arith, GoString}
use joebot.Client.{stop}
use joebot.Client.Heirs.{loop_chances, serve_stream-Stays, remove_tunnel-Keeps}
use joebot.Client.Life.{update_client_info_lem}
use joebot.Client.Process.{Libraries, Surroundings, client_handler, exit_if_error}
use joebot.Client.Runs.{
  Process, Loop, Step, looks, accepts, serves, fails, updates, ends, Runs, begun, next, counted,
  Event,
}
use joebot.Handler.{handle_error, on_error, register_task}

-- A stopped process that can serve no more streams than a bound.
record Stopped (bound n : ℕ) (p : Process) : Type 0 where
  stopped : p.running.client.stopped ≡ true
  left : n + (p.waiting + loop_chances p.loop true) ≤ bound

Step-Stopped :
    (l : Libraries) (w : Surroundings) (local_addr : GoString) (chances n : ℕ) (p p' : Process)
    {e : Event}
    → Stopped chances n p
    → Step l w local_addr p p' e
    → Stopped chances (counted e n) p'
unfolding handle_error client_handler register_task on_error exit_if_error stop
Step-Stopped l w local_addr chances n p p' h (looks at running e) =
    rw e (record { stopped = h.stopped; left = rw h.stopped (omega (arith, h.left)) })
Step-Stopped l w local_addr chances n p p' h (accepts at running e) =
    rw e (record {
      stopped = h.stopped;
      left = omega (arith, h.left, ap (λ k. loop_chances k true) at);
    })
Step-Stopped l w local_addr chances n p p' h (serves stream answer others at running e) =
    let s = serve_stream-Stays l stream (record (p.running) { stream = answer }) in
    rw e (record { stopped = s.client.stopped ∙ h.stopped; left = omega (arith, h.left, at) })
Step-Stopped l w local_addr chances n p p' h (fails x at running e) =
    rw e (record { stopped = refl; left = omega (arith, h.left) })
Step-Stopped l w local_addr chances n p p' h (updates at running e) =
    elim (update_client_info_lem w local_addr p.running) [
      | inl same ↦ rw e (record { stopped = rw same h.stopped; left = h.left })
      | inr gone ↦ rw e (record { stopped = rw gone refl; left = h.left })
    ]
Step-Stopped l w local_addr chances n p p' h (ends g c' running e now) =
    let (k, ports) = remove_tunnel-Keeps l.os g p.running.client c' e in
    rw now (record { stopped = k.stopped ∙ h.stopped; left = h.left })

Runs-Stopped :
    (l : Libraries) (w : Surroundings) (local_addr : GoString) (p p' : Process) {n : ℕ}
    → p.running.client.stopped ≡ true
    → Runs l w local_addr p n p'
    → Stopped (p.waiting + loop_chances p.loop true) n p'
Runs-Stopped l w local_addr p p' stopped begun = record { stopped = stopped; left = omega arith }
Runs-Stopped l w local_addr p p'' stopped (next {p' = p'} {n = n} run step) =
    Step-Stopped l w local_addr (p.waiting + loop_chances p.loop true) n p' p''
      (Runs-Stopped l w local_addr p p' stopped run) step

at_most_one : (loop : Loop) → loop_chances loop true ≤ 1
at_most_one loop = ground arith

-- A client that is stopped stays so, and however its process goes on, the streams that it serves from
-- then on, with those that still wait for their goroutines, are at most one more than those that it
-- had accepted and not served when it was stopped.
pub stopped_serves_accepted :
    (l : Libraries) (w : Surroundings) (local_addr : GoString) (p p' : Process) {n : ℕ}
    → p.running.client.stopped ≡ true
    → Runs l w local_addr p n p'
    → (p'.running.client.stopped ≡ true) × (n + p'.waiting ≤ p.waiting + 1)
stopped_serves_accepted l w local_addr p p' stopped run =
    let h = Runs-Stopped l w local_addr p p' stopped run in
    (h.stopped, omega (arith, h.left, at_most_one p.loop))
