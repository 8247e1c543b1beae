-- ===== src/Tests/Ranges.antt =====
-- A client with a range of three ports, for the tests of src/joebot/client.
use joebot.Prelude.{◌≤◌, ◌≡◌, refl, true, some, [], ◌∷◌, arith, has, map, str}
use joebot.Client.{Client, Settings, new_client, set_allowed_port_range}
use joebot.Client.Inside.{reached_range}
use joebot.Client.Process.{client_tasks, client_handler}
use joebot.Client.Runs.{
  Process, running_from, looking, accepting, looks, accepts, serves, Runs, begun, next,
}
use joebot.Client.Tasks.{handle_filebrowser}
use joebot.Handler.{serve_stream, read_request, find_handler}
use joebot.Handler.Dispatch.{frame}
use joebot.Ports.{
  new_ports_manager, add_allowed_port, reserve_port, reserve_loop, get_allowed_and_free_port,
  first_free, get_free_port,
}
use joebot.Strings.{pos}
use joebot.Task.{filebrowser_request, bytes, read_buf, task_code, write}
use joebot.Task.Bytes.{le_value, le_bytes}
use joebot.Tests.Client.{fresh, some_settings}
use joebot.Tests.System.{free_os-IsOs, idle}
use joebot.Tests.Tunnels.{some_libraries}
use joebot.Tests.Updates.{connected}

abbrev ranged_settings : Settings
ranged_settings = record some_settings {
  allowed_port_range_lbound = pos 8000;
  allowed_port_range_ubound = pos 8002;
}

abbrev ranged : Client
ranged = record fresh {
  settings = ranged_settings;
  ports_manager = record { ports_in_use = []; allowed_ports = 8002 ∷ (8001 ∷ (8000 ∷ [])) };
}

ranged_made : new_client ranged_settings ≡ some ranged
unfolding new_client set_allowed_port_range new_ports_manager add_allowed_port
ranged_made = refl

abbrev waiting_in_range : Process
waiting_in_range = record (running_from ranged) { loop = accepting }

abbrev browsing_in_range : Process
browsing_in_range = record waiting_in_range {
  loop = looking;
  running =
      (serve_stream (client_handler (client_tasks some_libraries))
        (map bytes (frame filebrowser_request []))
        (record { state = record (waiting_in_range.running) { stream = idle }; log = [] })).state;
}

served_in_range :
    Runs some_libraries connected (str "10.0.0.2:50000") (running_from ranged) 1 browsing_in_range
served_in_range =
    next (next (next begun (looks refl refl refl)) (accepts refl refl refl))
      (serves _ idle 0 refl refl refl)

first_port : has 8002 browsing_in_range.running.client.ports_manager.ports_in_use ≡ true
unfolding serve_stream read_request read_buf le_value le_bytes find_handler client_handler task_code
    client_tasks handle_filebrowser reserve_port reserve_loop get_allowed_and_free_port first_free
    get_free_port write
first_port = refl

reached_range_example : (8000 ≤ 8002) × (8002 ≤ 8002)
reached_range_example =
    reached_range some_libraries free_os-IsOs connected (str "10.0.0.2:50000") ranged_settings
      ranged [] 8000 8002 refl refl (omega arith) (omega arith) ranged_made browsing_in_range
      served_in_range 8002 first_port
