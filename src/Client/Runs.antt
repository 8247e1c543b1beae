-- ===== src/Client/Runs.antt =====
-- The process of a client of src/joebot/client/client.go from Start on: the handler's loop, which
-- looks at the context and then waits for a stream, the goroutines of the streams that it has
-- accepted, UpdateClientInfo, and the ends of its tunnels, in any order.
use joebot.Prelude.{
  ℕ, suc, ◌≡◌, Bool, true, false, none, some, List, [], if◌then◌else◌, GoString, GoError, str, wrap,
}
use joebot.Client.{Client, GostServer, remove_tunnel}
use joebot.Client.Process.{
  Running, Libraries, Surroundings, client_tasks, client_handler, update_client_info,
}
use joebot.Handler.{handle_error, serve_stream}
use joebot.Task.{Delivery, Writer}

-- The handler's loop is before its look at the context, or in Accept, or over.
pub data Loop : Type 0 where
  looking accepting ended : Loop

-- `waiting` counts the streams whose goroutines have not run yet; `updating` says that
-- UpdateClientInfo has not returned yet.
pub record Process : Type 0 where
  pub running : Running
  pub loop : Loop
  pub waiting : ℕ
  pub updating : Bool

abbrev pub running_from : Client → Process
running_from c = record {
  running = record {
    client = c;
    successors = [];
    stream = record { answer = λ n. none; written = [] };
    time = 0;
    exited = false;
  };
  loop = looking;
  waiting = 0;
  updating = true;
}

-- What a step is: the goroutine of a stream, from its first read to its end, or another.
pub data Event : Type 0 where
  request_served : Event
  other : Event

abbrev pub look : Process → Loop
look p = if p.running.client.stopped then ended else accepting

pub data Step (l : Libraries) (w : Surroundings) (local_addr : GoString) (p p' : Process)
    : Event → Type 0 where
  looks :
      p.loop ≡ looking
      → p.running.exited ≡ false
      → p' ≡ record p { loop = look p }
      → Step l w local_addr p p' other
  accepts :
      p.loop ≡ accepting
      → p.running.exited ≡ false
      → p' ≡ record p { loop = looking; waiting = suc p.waiting }
      → Step l w local_addr p p' other
  serves :
      (stream : List Delivery) (answer : Writer) (others : ℕ)
      → p.waiting ≡ suc others
      → p.running.exited ≡ false
      → p' ≡ record p {
        waiting = others;
        running =
            (serve_stream
              (client_handler (client_tasks l))
              stream
              (record { state = record (p.running) { stream = answer }; log = [] })).state;
      }
      → Step l w local_addr p p' request_served
  fails :
      (e : GoError)
      → p.loop ≡ accepting
      → p.running.exited ≡ false
      → p' ≡ record p {
        loop = looking;
        running =
            handle_error
              (client_handler (client_tasks l))
              (wrap e (str "Requests Handler: Unable to create yamux stream"))
              p.running;
      }
      → Step l w local_addr p p' other
  updates :
      p.updating ≡ true
      → p.running.exited ≡ false
      → p' ≡ record p { updating = false; running = update_client_info w local_addr p.running }
      → Step l w local_addr p p' other
  ends :
      (g : GostServer) (c : Client)
      → p.running.exited ≡ false
      → remove_tunnel g p.running.client ≡ some c
      → p' ≡ record p { running = record (p.running) { client = c } }
      → Step l w local_addr p p' other

-- The number of streams served, after a step.
abbrev pub counted : Event → ℕ → ℕ
counted request_served n = suc n
counted other n = n

-- The steps from a process to another, and the number of streams served.
pub data Runs (l : Libraries) (w : Surroundings) (local_addr : GoString) (p : Process)
    : ℕ → Process → Type 0 where
  begun : Runs l w local_addr p 0 p
  next :
      {p' p'' : Process} {n : ℕ} {e : Event}
      → Runs l w local_addr p n p'
      → Step l w local_addr p' p'' e
      → Runs l w local_addr p (counted e n) p''
