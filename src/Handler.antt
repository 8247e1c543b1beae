-- ===== src/Handler.antt =====
-- src/joebot/handler/handler.go: the loop that accepts streams and hands each to the handler that
-- is registered for its request type. Here the goroutine of each
-- stream runs to its end before the next Accept; Client/Runs lets it run at any later time.
pub mod Dispatch
pub mod Registered
use joebot.Prelude.{
  ℕ, zero, suc, ◌+◌, ◌-◌, ◌*◌, ◌/◌, ◌%◌, ◌^◌, ◌≤◌, ◌<◌, ◌≡◌, refl, sym, ap, ◌∙◌, ◌≢◌, ◌↔◌, ◌⊎◌, inl,
  inr, Bool, true, false, not, ◌&&◌, ◌||◌, Option, none, some, List, [], ◌∷◌, ◌++◌, map, arith, ltb,
  leb, ◌==◌, if◌then◌else◌, ==_refl, ==_iff, ltb→lt, lt→ltb, leb→le, Bool-cases, Option-cases,
  Result-cases, str_eq, str_eq→eq, str_eq_refl, length, get_elem?, take, drop, replicate, All,
  length-append, All-append, All-left, All-right, length-replicate, take_all, take-append,
  drop-append, count, has, without, count-append, has→count, not_has→count, count-without_self,
  count-without, without_absent, GoString, str, GoError, fault, message, wrap, Result, ok, err,
  ◌>>=◌, ◌>>◌, wrapped,
}
use joebot.Task.{TaskType, task_code, Delivery, bytes, failed, read_buf}
use joebot.Task.Bytes.{le_value}

-- A handler takes the body and the rest of the stream, and may change the state.
abbrev pub HandlerFunc : Type 0 → Type 0
HandlerFunc S = List ℕ → List Delivery → S → S × Option GoError

-- `handlers` is the map from request types; a later registration hides an earlier one.
pub record IncomingRequestHandler (S : Type 0) : Type 0 where
  pub handlers : List (ℕ × HandlerFunc S)
  pub error_callback : Option (GoError → S → S)

-- A state, and the errors that were logged, the last one first.
pub record Logged (S : Type 0) : Type 0 where
  pub state : S
  pub log : List GoError

-- What is read from a stream: the request type, the body, and what comes after it.
unfoldable pub read_request : List Delivery → Result (ℕ × List ℕ × List Delivery)
read_request stream = do
  (type_buf, typed) ← wrapped (read_buf 4 stream) (str "Unable to read request type from stream")
  (len_buf, sized) ←
      wrapped (read_buf 8 typed) (str "Unable to read request body length from stream")
  if ltb 0 (le_value len_buf)
      then (do
        (body, rest) ←
            wrapped (read_buf (le_value len_buf) sized)
              (str "Unable to read request body from stream")
        ok (le_value type_buf, body, rest))
      else ok (le_value type_buf, [], sized)

abbrev pub handler_failed : GoError → GoError
handler_failed e = wrap e (str "Request Handler Failed To Handle Request")

abbrev pub handler_not_found : GoError
handler_not_found = message (str "Request Handler Not Found")

-- What `session.Accept` returns, in turn.
pub data Accepted : Type 0 where
  accepted : List Delivery → Accepted
  accept_error : GoError → Accepted

module _ {S : Type 0} where
  unfoldable pub new_incoming_request_handler : IncomingRequestHandler S
  new_incoming_request_handler = record { handlers = []; error_callback = none }

  unfoldable pub on_error : IncomingRequestHandler S → (GoError → S → S) → IncomingRequestHandler S
  on_error h callback = record h { error_callback = some callback }

  unfoldable pub handle_error : IncomingRequestHandler S → GoError → S → S
  handle_error h e s = elim h.error_callback [ none ↦ s | some callback ↦ callback e s ]

  unfoldable pub register_task :
      IncomingRequestHandler S → TaskType → HandlerFunc S → IncomingRequestHandler S
  register_task h task handle = record h { handlers = (task_code task, handle) ∷ h.handlers }

  unfoldable pub find_handler : ℕ → List (ℕ × HandlerFunc S) → Option (HandlerFunc S)
  find_handler code [] = none
  find_handler code ((c, f) ∷ rest) = if c == code then some f else find_handler code rest

  abbrev pub log_result : List GoError → S × Option GoError → Logged S
  log_result log (s, none) = record { state = s; log = log }
  log_result log (s, some e) = record { state = s; log = handler_failed e ∷ log }

  -- The goroutine of one stream.
  unfoldable pub serve_stream : IncomingRequestHandler S → List Delivery → Logged S → Logged S
  serve_stream h stream l = elim (read_request stream) [
    | err e ↦ record l { log = e ∷ l.log }
    | ok (code, body, rest) ↦ elim (find_handler code h.handlers) [
      | none ↦ record l { log = handler_not_found ∷ l.log }
      | some f ↦ log_result l.log (f body rest l.state)
    ]
  ]

  -- Start: each round looks first whether the context is done.
  pub serve : (S → Bool) → IncomingRequestHandler S → List Accepted → Logged S → Logged S
  serve done h [] l = l
  serve done h (accepted d ∷ later) l = elim (done l.state) [
    | true ↦ l
    | false ↦ serve done h later (serve_stream h d l)
  ]
  serve done h (accept_error e ∷ later) l = elim (done l.state) [
    | true ↦ l
    | false ↦ serve done h later (record l {
      state =
          handle_error h (wrap e (str "Requests Handler: Unable to create yamux stream")) l.state;
    })
  ]
