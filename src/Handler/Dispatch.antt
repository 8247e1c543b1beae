-- ===== src/Handler/Dispatch.antt =====
-- A request of src/joebot/task/task.go on its way to a handler of src/joebot/handler/handler.go.
use joebot.Prelude.{
  All, ◌∙◌, ℕ, suc, ◌+◌, ◌%◌, ◌^◌, ◌<◌, ◌≡◌, refl, ◌≢◌, inl, inr, Bool, true, false, none, some,
  List, [], ◌∷◌, ◌++◌, map, arith, ltb, ◌==◌, if◌then◌else◌, ==_refl, ==_iff, lt→ltb, Bool-cases,
  Result-cases, length, str, GoError, wrap, ok,
}
use joebot.Task.{TaskType, task_code, Delivery, bytes, Writer, request}
use joebot.Task.Bytes.{le_bytes, length-le_bytes, le_value-le_bytes}
use joebot.Task.Frames.{Writes, write-ok, read_buf_whole, le_value_8}
use joebot.Handler.{
  HandlerFunc, IncomingRequestHandler, Logged, handle_error, register_task, find_handler,
  read_request, log_result, serve_stream, Accepted, accepted, accept_error, serve,
}

-- The frame of a request.
abbrev pub frame : TaskType → List ℕ → List (List ℕ)
frame task payload =
    le_bytes 4 (task_code task)
    ∷ (le_bytes 8 (length payload % 2 ^ 64) ∷ (if ltb 0 (length payload) then payload ∷ [] else []))

task_code-lt : (task : TaskType) → task_code task < 256 ^ 4
unfolding task_code
task_code-lt task = ground arith

read_request-frame :
    (task : TaskType) (payload : List ℕ)
    → length payload < 2 ^ 64
    → read_request (map bytes (frame task payload)) ≡ ok (task_code task, payload, [])
unfolding read_request
read_request-frame task [] small =
    rw
      (
        read_buf_whole 4 (le_bytes 4 (task_code task)) _ (length-le_bytes 4 (task_code task)),
        read_request,
      )
      (rw (read_buf_whole 8 (le_bytes 8 0) [] (length-le_bytes 8 0))
        (rw (le_value-le_bytes 8 0 (omega arith), le_value-le_bytes 4 _ (task_code-lt task))))
read_request-frame task (b ∷ bs) small =
    rw
      (
        read_buf_whole 4 (le_bytes 4 (task_code task)) _ (length-le_bytes 4 (task_code task)),
        read_request,
      )
      (rw
        (read_buf_whole 8 (le_bytes 8 (length (b ∷ bs) % 2 ^ 64)) _
          (length-le_bytes 8 (length (b ∷ bs) % 2 ^ 64)))
        (rw
          (
            le_value_8 (length (b ∷ bs)) small,
            le_value-le_bytes 4 _ (task_code-lt task),
            some_bytes,
          )
          (rw (read_buf_whole (length (b ∷ bs)) (b ∷ bs) [] refl))))
  where
    some_bytes : ltb 0 (suc (length bs)) ≡ true
    some_bytes = lt→ltb 0 (suc (length bs)) (omega arith)

request-frame :
    (w : Writer) (task : TaskType) (payload : List ℕ)
    → Writes w
    → w.written ≡ []
    → (w' : Writer) × (request (ok w) task payload ≡ ok w') × (w'.written ≡ frame task payload)
unfolding request
request-frame w task payload writes fresh = (
  sent,
  ground (arith, write-ok w code writes, write-ok typed size writes, write-ok sized payload writes),
  rw fresh (ground arith),
)
  where
    code : List ℕ
    code = le_bytes 4 (task_code task)

    size : List ℕ
    size = le_bytes 8 (length payload % 2 ^ 64)

    typed : Writer
    typed = record w { written = w.written ++ (code ∷ []) }

    sized : Writer
    sized = record w { written = (w.written ++ (code ∷ [])) ++ (size ∷ []) }

    sent : Writer
    sent =
        if ltb 0 (length payload)
        then record w { written = ((w.written ++ (code ∷ [])) ++ (size ∷ [])) ++ (payload ∷ []) }
        else sized

-- A frame is read by the handler that its type has, however the handlers were registered.
pub serve_stream-frame :
    {S : Type 0} (h : IncomingRequestHandler S) (task : TaskType) (f : HandlerFunc S) (w : Writer)
    (payload : List ℕ) (l : Logged S)
    → Writes w
    → w.written ≡ []
    → length payload < 2 ^ 64
    → find_handler (task_code task) h.handlers ≡ some f
    → (w' : Writer) × (request (ok w) task payload ≡ ok w')
      × (serve_stream h (map bytes w'.written) l ≡ log_result l.log (f payload [] l.state))
unfolding serve_stream
serve_stream-frame h task f w payload l writes fresh small found =
    let (w', sent, written) = request-frame w task payload writes fresh in
    (w', sent, rw (written, read_request-frame task payload small, found, serve_stream) refl)

task_code-injective : (a b : TaskType) → task_code a ≡ task_code b → a ≡ b
unfolding task_code
task_code-injective a b = ground arith

-- A registration does not change which handler any other type has.
find_handler-register_task :
    {S : Type 0} (h : IncomingRequestHandler S) (task other : TaskType) (f : HandlerFunc S)
    → task ≢ other
    → find_handler (task_code other) (register_task h task f).handlers
      ≡ find_handler (task_code other) h.handlers
unfolding register_task find_handler
find_handler-register_task h task other f differ =
    elim (Bool-cases (task_code task == task_code other)) [
      | inl same ↦ absurd (differ (task_code-injective task other ((==_iff _ _).0 same)))
      | inr e ↦ rw e
    ]

-- A handler with registrations, the last one first.
abbrev pub registered :
    {S : Type 0}
    → IncomingRequestHandler S
    → List (TaskType × HandlerFunc S)
    → IncomingRequestHandler S
registered h [] = h
registered h ((task, f) ∷ earlier) = register_task (registered h earlier) task f

find_handler-registered :
    {S : Type 0} (h : IncomingRequestHandler S) (task : TaskType) (f : HandlerFunc S)
    (later earlier : List (TaskType × HandlerFunc S))
    → All (λ r. r.0 ≢ task) later
    → find_handler (task_code task) (registered h (later ++ ((task, f) ∷ earlier))).handlers
      ≡ some f
find_handler-registered h task f [] earlier others =
    unfold register_task find_handler in rw (==_refl (task_code task)) refl
find_handler-registered h task f ((other, g) ∷ later) earlier others =
    find_handler-register_task (registered h (later ++ ((task, f) ∷ earlier))) other task g others.0
    ∙ find_handler-registered h task f later earlier others.1

-- After any registrations of handlers for tasks, a request with a payload below 2 ^ 64 bytes, written
-- to an empty stream whose writes succeed and arrive each in one read, is given to the handler that
-- was registered last for its type, whatever was registered for other types after it: the handler
-- gets exactly the payload, and its error, if it returns one, is logged.
pub serve_stream-request :
    {S : Type 0} (h : IncomingRequestHandler S) (task : TaskType) (f : HandlerFunc S)
    (later earlier : List (TaskType × HandlerFunc S)) (w : Writer) (payload : List ℕ) (l : Logged S)
    → All (λ r. r.0 ≢ task) later
    → Writes w
    → w.written ≡ []
    → length payload < 2 ^ 64
    → (w' : Writer) × (request (ok w) task payload ≡ ok w')
      × (serve_stream (registered h (later ++ ((task, f) ∷ earlier))) (map bytes w'.written) l
          ≡ log_result l.log (f payload [] l.state))
serve_stream-request h task f later earlier w payload l others writes fresh small =
    serve_stream-frame (registered h (later ++ ((task, f) ∷ earlier))) task f w payload l writes
      fresh small (find_handler-registered h task f later earlier others)

-- A stream whose request cannot be read, or whose type has no handler, leaves the state as it was,
-- and logs one error.
serve_stream_refused :
    {S : Type 0} (h : IncomingRequestHandler S) (stream : List Delivery) (l : Logged S)
    → ((code : ℕ) (body : List ℕ) (rest : List Delivery)
        → read_request stream ≡ ok (code, body, rest)
        → find_handler code h.handlers ≡ none)
    → ((serve_stream h stream l).state ≡ l.state)
      × (length (serve_stream h stream l).log ≡ length l.log + 1)
unfolding serve_stream
serve_stream_refused h stream l refuses = elim (Result-cases (read_request stream)) [
  | inr (e, fails) ↦ rw (fails, serve_stream) (refl, omega arith)
  | inl ((code, body, rest), reads) ↦
      rw (reads, refuses code body rest reads, serve_stream) (refl, omega arith)
]

serve_done :
    {S : Type 0} (done : S → Bool) (h : IncomingRequestHandler S) (later : List Accepted)
    (l : Logged S)
    → done l.state ≡ true
    → serve done h later l ≡ l
unfolding serve
serve_done done h [] l e = refl
serve_done done h (accepted d ∷ later) l e = rw (e, serve)
serve_done done h (accept_error x ∷ later) l e = rw (e, serve)

-- When accepting fails while the context is not done, and the error callback cancels it, the loop
-- ends there: no stream that comes later is served.
serve_after_error :
    {S : Type 0} (done : S → Bool) (h : IncomingRequestHandler S) (callback : GoError → S → S)
    (e : GoError) (later : List Accepted) (l : Logged S)
    → h.error_callback ≡ some callback
    → ((x : GoError) (s : S) → done (callback x s) ≡ true)
    → done l.state ≡ false
    → serve done h (accept_error e ∷ later) l ≡ record l {
      state = callback (wrap e (str "Requests Handler: Unable to create yamux stream")) l.state;
    }
unfolding serve handle_error
serve_after_error done h callback e later l set cancels running =
    rw (running, serve) (rw (set, handle_error) (serve_done done h later _ (cancels _ l.state)))
