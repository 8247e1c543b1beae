-- ===== src/Task.antt =====
-- src/joebot/task/task.go: the frames that requests, answers and confirmations are sent in.
pub mod Bytes
pub mod Frames
use joebot.Prelude.{
  ℕ, zero, suc, ◌+◌, ◌-◌, ◌*◌, ◌/◌, ◌%◌, ◌^◌, ◌≤◌, ◌<◌, ◌≡◌, refl, sym, ap, ◌∙◌, ◌≢◌, ◌↔◌, ◌⊎◌, inl,
  inr, Bool, true, false, not, ◌&&◌, ◌||◌, Option, none, some, List, [], ◌∷◌, ◌++◌, map, arith, ltb,
  leb, ◌==◌, if◌then◌else◌, ==_refl, ==_iff, ltb→lt, lt→ltb, leb→le, Bool-cases, Option-cases,
  Result-cases, str_eq, str_eq→eq, str_eq_refl, length, get_elem?, take, drop, replicate, All,
  length-append, All-append, All-left, All-right, length-replicate, take_all, take-append,
  drop-append, count, has, without, count-append, has→count, not_has→count, count-without_self,
  count-without, without_absent, GoString, str, GoError, fault, message, wrap, Result, ok, err,
  ◌>>=◌, ◌>>◌, wrapped,
}
use Bytes.{le_bytes, le_value}

pub data TaskType : Type 0 where
  client_info_update_request port_tunnel_request ssh_tunnel_request : TaskType
  novnc_request gotty_web_terminal_request filebrowser_request : TaskType

-- `1 + iota`.
unfoldable pub task_code : TaskType → ℕ
task_code client_info_update_request = 1
task_code port_tunnel_request = 2
task_code ssh_tunnel_request = 3
task_code novnc_request = 4
task_code gotty_web_terminal_request = 5
task_code filebrowser_request = 6

abbrev pub task_complete : ℕ
task_complete = 888

abbrev pub task_failed : ℕ
task_failed = 444

-- What one Read of a stream gives: the bytes that have arrived, or an error.
pub data Delivery : Type 0 where
  bytes : List ℕ → Delivery
  failed : GoError → Delivery

-- `stream.Read(buf)` with a buffer of `n` zero bytes. The code drops the count that Read returns
-- and takes the whole buffer, so a short read leaves zeros in it. When nothing comes any more the
-- deadline gives an error.
unfoldable pub read_buf : ℕ → List Delivery → Result (List ℕ × List Delivery)
read_buf n [] = err (message (str "timeout"))
read_buf n (failed e ∷ later) = err e
read_buf n (bytes b ∷ later) = ok (take n b ++ replicate (n - length b) 0, later)

-- A stream to write to: the answer of the n-th Write, and the number of writes so far.
pub record Writer : Type 0 where
  pub answer : ℕ → Option GoError
  pub written : List (List ℕ)

unfoldable pub write : Writer → List ℕ → Result Writer
write w b = elim (w.answer (length w.written)) [
  | some e ↦ err e
  | none ↦ ok (record w { written = w.written ++ (b ∷ []) })
]

-- Request: the type in 4 bytes, the length in 8, and the payload if it is not empty.
unfoldable pub request : Result Writer → TaskType → List ℕ → Result Writer
unfolding write
request opened task payload = do
  stream ← wrapped opened (str "Session Open Failed...")
  typed ← wrapped (write stream (le_bytes 4 (task_code task))) (str "Write task type failed")
  sized ←
      wrapped (write typed (le_bytes 8 (length payload % 2 ^ 64)))
        (str "Write task payload length failed")
  if ltb 0 (length payload)
      then wrapped (write sized payload) (str "Write task payload failed")
      else ok sized

-- The Handle of a task that does not define its own.
unfoldable pub empty_handle : TaskType → Option GoError
empty_handle task = some (message (str "The handle function is empty | Task Type: "))

unfoldable pub confirm_task_complete : Writer → Result Writer
confirm_task_complete stream = write stream (le_bytes 2 task_complete)

unfoldable pub wait_task_complete_signal : List Delivery → Result (Unit {0})
wait_task_complete_signal deliveries = do
  (buf, later) ←
      wrapped (read_buf 2 deliveries)
        (str "Failed To Receive Task Complete Confirmation From Client")
  if le_value buf == task_complete
      then ok tt
      else err (message (str "Recieved Task Failed Status From Client"))

unfoldable pub receive_object : List Delivery → Result (List ℕ)
receive_object deliveries = do
  (header, later) ←
      wrapped (read_buf 8 deliveries)
        (str "ReceiveObject Unable to read request body length from stream")
  (body, rest) ←
      wrapped (read_buf (le_value header) later)
        (str "ReceiveObject Unable to read request body from stream")
  ok body

unfoldable pub send_object : List ℕ → Writer → Result Writer
send_object payload stream = do
  sized ←
      wrapped (write stream (le_bytes 8 (length payload % 2 ^ 64)))
        (str "SendObject writes payload length failed")
  wrapped (write sized payload) (str "SendObject writes payload failed")
