-- ===== src/Tests/Processes.antt =====
-- Runs of a client's process, for the tests of src/joebot/client.
use joebot.Prelude.{
  true, ℕ, ◌≤◌, ◌≡◌, refl, not, some, [], ◌∷◌, ◌==◌, All, length, count, fault, map, ok, ◌++◌, ◌+◌,
  arith, true, err, str, wrap,
}
use joebot.Client.{Client, stop}
use joebot.Client.Ended.{stopped_serves_accepted}
use joebot.Client.Outlives.{tunnel_outlives}
use joebot.Client.Process.{Surroundings, client_tasks, client_handler, exit_if_error}
use joebot.Client.Reached.{reached_successors, reached_ports_in_use, gives_up_twice}
use joebot.Client.Runs.{
  Process, running_from, looking, accepting, ended, looks, accepts, serves, fails, Runs, begun,
  next,
}
use joebot.Handler.{handle_error, on_error, register_task, serve_stream}
use joebot.Handler.Dispatch.{frame}
use joebot.Task.{filebrowser_request, port_tunnel_request, request, Writer, bytes}
use joebot.Slices.{visible}
use joebot.Tests.Client.{fresh, fresh_made, some_settings, tunnel_at}
use joebot.Tests.System.{idle}
use joebot.Tests.Tunnels.{some_libraries}
use joebot.Tests.Updates.{connected}

abbrev home : Client
home = record fresh { filebrowser_default_dir = str "/home" }

abbrev waiting : Process
waiting = record (running_from home) { loop = accepting }

abbrev browsing : Process
browsing = record waiting {
  loop = looking;
  running =
      (serve_stream (client_handler (client_tasks some_libraries))
        (map bytes (frame filebrowser_request []))
        (record { state = record (waiting.running) { stream = idle }; log = [] })).state;
}

served_once : Runs some_libraries connected (str "10.0.0.2:50000") (running_from home) 1 browsing
served_once =
    next (next (next begun (looks refl refl refl)) (accepts refl refl refl))
      (serves _ idle 0 refl refl refl)

reached_ports_in_use_example :
    (length browsing.running.client.ports_manager.ports_in_use ≤ 1)
    × ((q : ℕ) → count q browsing.running.client.ports_manager.ports_in_use ≤ 1)
    × (browsing.running.client.settings ≡ some_settings)
reached_ports_in_use_example =
    reached_ports_in_use some_libraries connected (str "10.0.0.2:50000") some_settings fresh
      (str "/home") fresh_made browsing served_once

abbrev broken : Process
broken = record waiting {
  loop = looking;
  running =
      handle_error (client_handler (client_tasks some_libraries))
        (wrap (fault 5) (str "Requests Handler: Unable to create yamux stream")) waiting.running;
}

failed_once : Runs some_libraries connected (str "10.0.0.2:50000") (running_from home) 0 broken
failed_once = next (next begun (looks refl refl refl)) (fails (fault 5) refl refl refl)

reached_successors_example :
    (length broken.running.successors ≤ 2)
    × All (λ x. x ≡ some home) broken.running.successors
    × (broken.running.client.stopped ≡ not (length broken.running.successors == 0))
reached_successors_example =
    reached_successors some_libraries connected (str "10.0.0.2:50000") some_settings fresh
      (str "/home") fresh_made broken failed_once

abbrev cut_off : Surroundings
cut_off = record connected { opened = err (fault 6) }

gives_up_twice_example :
    (p : Process) × Runs some_libraries cut_off (str "10.0.0.2:50000") (running_from home) 0 p
    × (p.running.successors ≡ some home ∷ (some home ∷ []))
gives_up_twice_example =
    gives_up_twice some_libraries cut_off (str "10.0.0.2:50000") some_settings fresh (str "/home")
      fresh_made (fault 5) (fault 6) refl

-- A client that is stopped with one stream accepted, while its loop is in Accept; and after one more.
abbrev late : Process
late = record broken { loop = accepting; waiting = 1 }

abbrev later : Process
later = record late { loop = looking; waiting = 2 }

stopped_serves_accepted_example : (later.running.client.stopped ≡ true) × (0 + 2 ≤ 1 + 1)
unfolding handle_error client_handler register_task on_error exit_if_error stop
stopped_serves_accepted_example =
    stopped_serves_accepted some_libraries connected (str "10.0.0.2:50000") late later refl
      (next begun (accepts refl refl refl))

tunnel_outlives_example :
    (w' : Writer) × (p' : Process) × (request
        (ok idle)
        port_tunnel_request
        (9000 ∷ (4000 ∷ (22 ∷ [])))
      ≡ ok w')
    × Runs some_libraries cut_off (str "10.0.0.2:50000") waiting 1 p'
    × (p'.loop ≡ ended)
    × (p'.running.client.stopped ≡ true)
    × (p'.running.client.closed ≡ [] ++ visible home.gost_tunnels)
    × (visible p'.running.client.gost_tunnels ≡ tunnel_at 4000 ∷ [])
tunnel_outlives_example =
    tunnel_outlives some_libraries (9000 ∷ (4000 ∷ (22 ∷ [])))
      (record { gost_server_port = 9000; server_port = 4000; client_port = 22 }) (tunnel_at 4000)
      refl (omega arith) cut_off (str "10.0.0.2:50000") waiting (fault 6) refl refl refl refl refl
      idle idle (λ n. refl) refl
