-- ===== src/Tests/Updates.antt =====
-- The information of a client that reaches the server, for the tests of src/joebot/client and
-- src/joebot/server.
use joebot.Prelude.{◌≡◌, refl, arith, false, [], map, str, ok}
use joebot.Client.Process.{Running, Surroundings, update_client_info, own_info, first_part}
use joebot.Handler.{new_incoming_request_handler, register_task, serve_stream}
use joebot.Server.{Server}
use joebot.Server.Tunnel.{Gob}
use joebot.Strings.{split}
use joebot.Task.{Writer, bytes, client_info_update_request, request}
use joebot.Tests.Client.{fresh}
use joebot.Tests.Server.{some_gob, three_clients}
use joebot.Tests.System.{idle}
use joebot.Updates.{client_info_update_task, update_client_info-client_info_update_task}

abbrev pub connected : Surroundings
connected = record {
  dial = λ transport addr. ok (str "10.0.0.2:50000");
  yamux_client = ok tt;
  hostname = ok (str "lab");
  user = str "root";
  opened = ok idle;
  encode_client = λ i. i.host_name;
}

abbrev running_client : Running
running_client = record { client = fresh; successors = []; stream = idle; time = 0; exited = false }

-- A decoding of the texts that are sent here.
abbrev one_info : Gob
one_info = record some_gob {
  encode_client = λ i. i.host_name;
  decode_client =
      λ b i. ok (record (own_info connected fresh (str "10.0.0.2:50000")) { host_name = b });
}

update_client_info-client_info_update_task_example :
    (w' : Writer) × (s' : Server) × (request (ok idle) client_info_update_request (str "lab")
      ≡ ok w')
    × (update_client_info connected (str "10.0.0.2:50000") running_client ≡ running_client)
    × (serve_stream
          (register_task new_incoming_request_handler client_info_update_request
            (client_info_update_task one_info 2))
          (map bytes w'.written)
          (record { state = three_clients; log = [] })
        ≡ record { state = s'; log = [] })
    × ((s'.heap 2).info.ip ≡ first_part (split 58 (str "10.0.0.2:50000")))
    × ((s'.heap 2).info.host_name ≡ str "lab")
    × ((s'.heap 2).info.username ≡ str "root")
    × ((s'.heap 2).info.tags ≡ (three_clients.heap 2).info.tags)
    × ((s'.heap 2).id ≡ (three_clients.heap 2).id)
    × ((s'.heap 2).info.port_tunnels ≡ (three_clients.heap 2).info.port_tunnels)
unfolding own_info
update_client_info-client_info_update_task_example =
    update_client_info-client_info_update_task one_info connected (str "10.0.0.2:50000")
      running_client three_clients 2 refl refl (omega arith) new_incoming_request_handler [] idle
      refl (λ n. refl) refl
