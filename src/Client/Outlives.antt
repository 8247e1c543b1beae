-- ===== src/Client/Outlives.antt =====
-- A tunnel that is asked for while a client of src/joebot/client/client.go gives up.
use joebot.Prelude.{
  ℕ, ◌≡◌, ◌<◌, ◌^◌, refl, sym, ap, ◌∙◌, true, false, inl, inr, List, [], ◌∷◌, ◌++◌, Result-cases,
  length, map, str, GoString, GoError, err, ok, if◌then◌else◌,
}
use joebot.Client.{GostServer, stop, add_tunnel}
use joebot.Client.Life.{given_up, update_client_info-broken, client_handler_lem}
use joebot.Client.Process.{Running, Libraries, Surroundings, client_tasks, client_handler}
use joebot.Client.Runs.{
  Process, looking, accepting, ended, looks, accepts, serves, updates, Runs, begun, next,
}
use joebot.Client.Tasks.{no_port_tunnel, handle_port_tunnel}
use joebot.Handler.{serve_stream}
use joebot.Handler.Dispatch.{serve_stream-frame}
use joebot.Handler.Registered.{log_result-state}
use joebot.Models.{PortTunnelInfo}
use joebot.Slices.{append_one, visible}
use joebot.Strings.{itoa}
use joebot.Task.{Writer, Delivery, bytes, port_tunnel_request, request, confirm_task_complete}
use joebot.Task.Frames.{Writes}

module _ (l : Libraries) (body : List ℕ) (tunnel : PortTunnelInfo) (ln : GostServer)
    (decodes : l.gob.decode_tunnel body no_port_tunnel ≡ ok tunnel)
    (small : length body < 2 ^ 64) where
  -- The task adds the listener, whether or not the confirmation can be written.
  client_tasks-tunnel :
      (r : Running)
      → l.gost.listen_remote
          (r.client.settings.server_ip ++ (str ":" ++ itoa tunnel.gost_server_port))
          tunnel.server_port
        ≡ ok ln
      → (v : Writer) × ((client_tasks l port_tunnel_request body [] r).0
          ≡ record r { client = add_tunnel ln r.client; stream = v })
  unfolding client_tasks handle_port_tunnel
  client_tasks-tunnel r listens = elim (Result-cases (confirm_task_complete r.stream)) [
    | inl (v, fine) ↦ (v, rw (decodes, listens, fine, client_tasks, handle_port_tunnel) refl)
    | inr (e, fails) ↦
        (r.stream, rw (decodes, listens, fails, client_tasks, handle_port_tunnel) refl)
  ]

  module _ (w : Surroundings) (local_addr : GoString) (p : Process) (y : GoError)
      (at : p.loop ≡ accepting) (updating : p.updating ≡ true) (running : p.running.exited ≡ false)
      (broken : w.opened ≡ err y)
      (listens : l.gost.listen_remote
          (p.running.client.settings.server_ip ++ (str ":" ++ itoa tunnel.gost_server_port))
          tunnel.server_port
        ≡ ok ln) where
    -- The process once UpdateClientInfo has failed, and once it has served a stream after that.
    abbrev gone : Process
    gone = record p { updating = false; running = given_up p.running }

    abbrev serving : List Delivery → Writer → Process
    serving stream answer = record gone {
      loop = looking;
      running =
          (serve_stream (client_handler (client_tasks l)) stream
            (record { state = record (gone.running) { stream = answer }; log = [] })).state;
    }

    -- A client that waits for a stream while its UpdateClientInfo fails, and then gets the request for
    -- a tunnel, goes on to the end of its loop: it is stopped, it has closed the tunnels that it had,
    -- and the tunnel that it was asked for stays open.
    pub tunnel_outlives :
        (asking answer : Writer)
        → Writes asking
        → asking.written ≡ []
        → (w' : Writer) × (p' : Process) × (request (ok asking) port_tunnel_request body ≡ ok w')
          × Runs l w local_addr p 1 p'
          × (p'.loop ≡ ended)
          × (p'.running.client.stopped ≡ true)
          × (p'.running.client.closed
              ≡ p.running.client.closed ++ visible p.running.client.gost_tunnels)
          × (visible p'.running.client.gost_tunnels ≡ ln ∷ [])
    unfolding stop add_tunnel append_one
    tunnel_outlives asking answer writes fresh =
        let (w', sent, served) =
          serve_stream-frame (client_handler (client_tasks l)) port_tunnel_request
            (client_tasks l port_tunnel_request) asking body
            (record { state = record (gone.running) { stream = answer }; log = [] }) writes fresh
            small (client_handler_lem (client_tasks l) port_tunnel_request) in
        let (v, added) = client_tasks-tunnel (record (gone.running) { stream = answer }) listens in
        let now : (serving (map bytes w'.written) answer).running
            ≡ record (gone.running) { client = add_tunnel ln gone.running.client; stream = v } =
          ap (λ x. x.state) served ∙ (log_result-state [] _ ∙ added) in
        (
          w',
          record (serving (map bytes w'.written) answer) { loop = ended },
          sent,
          next
              (next
                (next
                  (next begun (
                    updates updating running (
                      ap (λ r. record p { updating = false; running = r })
                        (sym (update_client_info-broken w local_addr p.running y broken)))))
                  (accepts at running refl))
                (serves (map bytes w'.written) answer p.waiting refl running refl))
              (looks refl (rw now running) (
                ap
                  (λ b. record (serving (map bytes w'.written) answer) {
                    loop = if b then ended else accepting;
                  })
                  (sym (ap (λ r. r.client.stopped) now)))),
          refl,
          ap (λ r. r.client.stopped) now,
          ap (λ r. r.client.closed) now,
          ap (λ r. visible r.client.gost_tunnels) now,
        )
