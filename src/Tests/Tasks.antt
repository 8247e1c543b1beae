-- ===== src/Tests/Tasks.antt =====
-- Frames and requests of src/joebot/task and src/joebot/handler.
use joebot.Prelude.{
  ℕ, ◌≡◌, refl, Bool, false, none, List, [], ◌∷◌, ◌++◌, map, arith, length, replicate, str, ok,
}
use joebot.Handler.{IncomingRequestHandler, HandlerFunc, Logged, log_result, serve_stream}
use joebot.Handler.Dispatch.{registered, serve_stream-request}
use joebot.Strings.{split, join}
use joebot.Strings.Split.{join-split}
use joebot.Task.{
  Writer, bytes, send_object, receive_object, request, ssh_tunnel_request, filebrowser_request,
}
use joebot.Task.Bytes.{le_bytes}
use joebot.Task.Frames.{receive_object-send_object, receive_object_short}
use joebot.Tests.System.{idle}

receive_object-send_object_example :
    (w' : Writer) × (send_object (7 ∷ (8 ∷ [])) idle ≡ ok w')
    × (receive_object (map bytes w'.written) ≡ ok (7 ∷ (8 ∷ [])))
receive_object-send_object_example =
    receive_object-send_object (7 ∷ (8 ∷ [])) idle (λ n. refl) refl (omega arith)

receive_object_short_example :
    receive_object (
      bytes (le_bytes 8 (length {A = ℕ} ((7 ∷ (8 ∷ [])) ++ (9 ∷ []))))
      ∷ (bytes (7 ∷ (8 ∷ [])) ∷ []))
    ≡ ok ((7 ∷ (8 ∷ [])) ++ replicate {A = ℕ} 1 0)
receive_object_short_example = receive_object_short (7 ∷ (8 ∷ [])) (9 ∷ []) [] (omega arith)

-- A handler that keeps the body that it was given.
abbrev keeper : HandlerFunc (List ℕ)
keeper body rest s = (body, none)

abbrev no_tasks : IncomingRequestHandler (List ℕ)
no_tasks = record { handlers = []; error_callback = none }

abbrev nothing_yet : Logged (List ℕ)
nothing_yet = record { state = []; log = [] }

-- A handler that forgets everything.
abbrev dropper : HandlerFunc (List ℕ)
dropper body rest s = ([], none)

serve_stream-request_example :
    (w' : Writer) × (request (ok idle) ssh_tunnel_request (7 ∷ []) ≡ ok w')
    × (serve_stream
          (registered no_tasks (
            (filebrowser_request, dropper)
            ∷ ((ssh_tunnel_request, keeper) ∷ ((ssh_tunnel_request, dropper) ∷ []))))
          (map bytes w'.written)
          nothing_yet
        ≡ log_result [] (7 ∷ [], none))
serve_stream-request_example =
    serve_stream-request no_tasks ssh_tunnel_request keeper ((filebrowser_request, dropper) ∷ [])
      ((ssh_tunnel_request, dropper) ∷ []) idle (7 ∷ []) nothing_yet (λ e. cc, tt) (λ n. refl) refl
      (omega arith)

abbrev waiting : Logged Bool
waiting = record { state = false; log = [] }

join-split_example : join 44 (split 44 (str "10.0.0.1,10.0.0.2")) ≡ str "10.0.0.1,10.0.0.2"
join-split_example = join-split 44 (str "10.0.0.1,10.0.0.2")
