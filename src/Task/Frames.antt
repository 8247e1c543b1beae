-- ===== src/Task/Frames.antt =====
-- What the frames of src/joebot/task/task.go carry from one side to the other.
use joebot.Prelude.{
  ℕ, ◌+◌, ◌-◌, ◌*◌, ◌%◌, ◌^◌, ◌<◌, ◌≡◌, refl, ap, ◌↔◌, none, List, [], ◌∷◌, ◌++◌, map, arith,
  length, replicate, length-append, take_all, ok,
}
use mathlib.Core.List.{append-nil}
use native.Mathlib.Nat.{mod-eq_of_lt}
use joebot.Task.Bytes.{le_bytes, le_value, length-le_bytes, le_value-le_bytes}
use joebot.Task.{
  task_complete, Delivery, bytes, read_buf, Writer, write, confirm_task_complete,
  wait_task_complete_signal, receive_object, send_object,
}

-- A stream on which every write succeeds.
abbrev pub Writes : Writer → Type 0
Writes w = (n : ℕ) → w.answer n ≡ none

pub write-ok :
    (w : Writer) (b : List ℕ)
    → Writes w
    → write w b ≡ ok (record w { written = w.written ++ (b ∷ []) })
unfolding write
write-ok w b h = rw (h (length w.written), write)

-- A read that gets all the bytes that it has room for.
pub read_buf_whole :
    (n : ℕ) (b : List ℕ) (later : List Delivery)
    → length b ≡ n
    → read_buf n (bytes b ∷ later) ≡ ok (b, later)
unfolding read_buf
read_buf_whole n b later e = rw (take_all n b (omega arith), none_left, append-nil b)
  where
    none_more : n - length b ≡ 0
    none_more = omega arith

    none_left : replicate {A = ℕ} (n - length b) 0 ≡ []
    none_left = ap (λ k. replicate {A = ℕ} k 0) none_more

-- A read that gets fewer bytes than it has room for leaves zeros behind them.
pub read_buf_short :
    (n k : ℕ) (b : List ℕ) (later : List Delivery)
    → n ≡ length b + k
    → read_buf n (bytes b ∷ later) ≡ ok (b ++ replicate k 0, later)
unfolding read_buf
read_buf_short n k b later e = rw (take_all n b (omega arith), ap (λ j. replicate {A = ℕ} j 0) left)
  where
    left : n - length b ≡ k
    left = omega arith

pub le_value_8 : (v : ℕ) → v < 2 ^ 64 → le_value (le_bytes 8 (v % 2 ^ 64)) ≡ v
le_value_8 v h = rw (mod-eq_of_lt h) (le_value-le_bytes 8 v h)

-- ReceiveObject on a frame whose parts arrive whole.
receive_object_whole :
    (payload : List ℕ) (later : List Delivery)
    → length payload < 2 ^ 64
    → receive_object (bytes (le_bytes 8 (length payload % 2 ^ 64)) ∷ (bytes payload ∷ later))
      ≡ ok payload
unfolding receive_object
receive_object_whole payload later h =
    rw
      (
        read_buf_whole 8 (le_bytes 8 (length payload % 2 ^ 64)) (bytes payload ∷ later)
            (length-le_bytes 8 (length payload % 2 ^ 64)),
        receive_object,
      )
      (rw (le_value_8 (length payload) h) (rw (read_buf_whole (length payload) payload later refl)))

-- What SendObject writes is what ReceiveObject reads: on a stream whose writes succeed, and whose
-- writes arrive each in one read, a payload below 2 ^ 64 bytes comes back unchanged.
pub receive_object-send_object :
    (payload : List ℕ) (w : Writer)
    → Writes w
    → w.written ≡ []
    → length payload < 2 ^ 64
    → (w' : Writer) × (send_object payload w ≡ ok w')
      × (receive_object (map bytes w'.written) ≡ ok payload)
unfolding send_object
receive_object-send_object payload w writes fresh small = (
  sent,
  rw (write-ok w header writes, send_object) (rw (write-ok once payload writes)),
  rw fresh (receive_object_whole payload [] small),
)
  where
    header : List ℕ
    header = le_bytes 8 (length payload % 2 ^ 64)

    once : Writer
    once = record w { written = w.written ++ (header ∷ []) }

    sent : Writer
    sent = record w { written = (w.written ++ (header ∷ [])) ++ (payload ∷ []) }

-- When the first read of a payload below 2 ^ 64 bytes gets only a part of it, ReceiveObject
-- returns that part with zeros in place of the rest, and no error.
pub receive_object_short :
    (front back : List ℕ) (later : List Delivery)
    → length (front ++ back) < 2 ^ 64
    → receive_object (bytes (le_bytes 8 (length (front ++ back))) ∷ (bytes front ∷ later))
      ≡ ok (front ++ replicate (length back) 0)
unfolding receive_object
receive_object_short front back later small =
    rw
      (
        read_buf_whole 8 (le_bytes 8 (length (front ++ back))) (bytes front ∷ later)
            (length-le_bytes 8 (length (front ++ back))),
        receive_object,
      )
      (rw (le_value-le_bytes 8 (length (front ++ back)) small)
        (rw (read_buf_short _ (length back) front later (length-append front back))))

-- What ConfirmTaskComplete writes to an empty stream whose writes succeed, WaitTaskCompleteSignal
-- accepts when it arrives.
pub wait_task_complete_signal-confirm_task_complete :
    (w : Writer)
    → Writes w
    → w.written ≡ []
    → (w' : Writer) × (confirm_task_complete w ≡ ok w')
      × (wait_task_complete_signal (map bytes w'.written) ≡ ok tt)
unfolding confirm_task_complete
wait_task_complete_signal-confirm_task_complete w writes fresh = (
  record w { written = w.written ++ (le_bytes 2 task_complete ∷ []) },
  write-ok w (le_bytes 2 task_complete) writes,
  rw fresh (unfold wait_task_complete_signal read_buf le_bytes le_value in refl),
)

-- It returns no error exactly when two bytes arrive that spell the completion code.
wait_task_complete_signal_iff :
    (a b : ℕ) (later : List Delivery)
    → (wait_task_complete_signal (bytes (a ∷ (b ∷ [])) ∷ later) ≡ ok tt)
      ↔ (a + 256 * b ≡ task_complete)
unfolding wait_task_complete_signal read_buf le_value
wait_task_complete_signal_iff a b later = ground arith
