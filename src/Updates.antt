-- ===== src/Updates.antt =====
-- The information about a client on its way from UpdateClientInfo in src/joebot/client/client.go to
-- the Handle of the server in src/joebot/server/client_info_update_task.go.
use joebot.Prelude.{
  ℕ, ◌≡◌, ◌<◌, ◌^◌, refl, ap, ◌∙◌, some, none, List, [], map, length, ==_refl, GoString, GoError,
  ok,
}
use joebot.Client.Process.{
  Running, Surroundings, update_client_info, own_info, exit_if_error, first_part, text_or_empty,
}
use joebot.Handler.{HandlerFunc, IncomingRequestHandler, register_task, serve_stream, log_result}
use joebot.Handler.Dispatch.{serve_stream-request}
use joebot.Models.{ClientInfo}
use joebot.Server.{Server, update_info, update}
use joebot.Server.Services.{client_info_update, zero_info}
use joebot.Server.Tunnel.{Gob}
use joebot.Strings.{split}
use joebot.Task.{Writer, bytes, client_info_update_request, request}
use joebot.Task.Frames.{Writes}

-- The Handle that the server registers for a client's information; the state is the server.
unfoldable pub client_info_update_task : Gob → ℕ → HandlerFunc Server
client_info_update_task gob a body rest s = client_info_update gob s a body

module _ (gob : Gob) (w : Surroundings) (local_addr : GoString) (r : Running) (s : Server) (a : ℕ)
    (alike : w.encode_client ≡ gob.encode_client)
    (decoded : gob.decode_client (gob.encode_client (own_info w r.client local_addr)) zero_info
      ≡ ok (own_info w r.client local_addr))
    (short : length (gob.encode_client (own_info w r.client local_addr)) < 2 ^ 64) where
  abbrev info : ClientInfo
  info = own_info w r.client local_addr

  handled :
      client_info_update_task gob a (gob.encode_client info) [] s
      ≡ (record s { heap = update s.heap a (update_info (s.heap a) info) }, none)
  unfolding client_info_update_task client_info_update
  handled = rw (decoded, client_info_update) refl

  sent_on :
      (stream w' : Writer)
      → w.opened ≡ ok stream
      → request (ok stream) client_info_update_request (gob.encode_client info) ≡ ok w'
      → update_client_info w local_addr r ≡ r
  unfolding update_client_info exit_if_error
  sent_on stream w' opens sent = rw (alike, opens, sent, update_client_info) refl

  -- The information that a client sends reaches its entry on the server: where the stream takes
  -- every write and delivers each in one read, and the encoding of this information is below
  -- 2 ^ 64 bytes and undone by the decoding, the client runs on, nothing is logged, and the server
  -- has the client's IP, host name and user, and its tags if it has any; the ID and the tunnels stay.
  pub update_client_info-client_info_update_task :
      (H : IncomingRequestHandler Server) (log : List GoError) (stream : Writer)
      → w.opened ≡ ok stream
      → Writes stream
      → stream.written ≡ []
      → (w' : Writer) × (s' : Server) × (request
            (ok stream)
            client_info_update_request
            (gob.encode_client info)
          ≡ ok w')
        × (update_client_info w local_addr r ≡ r)
        × (serve_stream
              (register_task H client_info_update_request (client_info_update_task gob a))
              (map bytes w'.written)
              (record { state = s; log = log })
            ≡ record { state = s'; log = log })
        × ((s'.heap a).info.ip ≡ first_part (split 58 local_addr))
        × ((s'.heap a).info.host_name ≡ text_or_empty w.hostname)
        × ((s'.heap a).info.username ≡ w.user)
        × ((s'.heap a).info.tags
            ≡ (elim r.client.settings.tags [ none ↦ (s.heap a).info.tags | some tags ↦ some tags ]))
        × ((s'.heap a).id ≡ (s.heap a).id)
        × ((s'.heap a).info.port_tunnels ≡ (s.heap a).info.port_tunnels)
  unfolding own_info update_info
  update_client_info-client_info_update_task H log stream opens writes fresh =
      let (w', sent, served) =
        serve_stream-request H client_info_update_request (client_info_update_task gob a) [] []
          stream (gob.encode_client info) (record { state = s; log = log }) tt writes fresh short in
      (
        w',
        record s { heap = update s.heap a (update_info (s.heap a) info) },
        sent,
        sent_on stream w' opens sent,
        served ∙ ap (λ x. log_result log x) handled,
        rw (==_refl a) refl,
        rw (==_refl a) refl,
        rw (==_refl a) refl,
        rw (==_refl a) refl,
        rw (==_refl a) refl,
        rw (==_refl a) refl,
      )
