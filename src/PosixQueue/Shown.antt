-- ===== src/PosixQueue/Shown.antt =====
-- What pmsg_receive.c writes.
use linux_unix_system_progra.Prelude.{
  ℕ, Bool, true, false, ◌≡◌, ◌++◌, none, some, Option, [], ◌∷◌, Text, arith, length, take-length,
  append_assoc,
}
use linux_unix_system_progra.Sys.{
  Trace, Kernel, Reply, and_then, or_die, ◌>>=◌, call, malloc, mq_msgsize, End, exited, ok, fail,
  halted, mq_receive, printf, num, write,
}
use linux_unix_system_progra.Sys.Files.{Accepts}
use linux_unix_system_progra.Sys.View.{sent}
use linux_unix_system_progra.PosixQueue.Receive.{allocate, take_message, show_message}

-- The message that came last.
unfoldable pub last_message : Trace → Option Text
last_message [] = none
last_message ((mq_receive _ _, ok m) ∷ t) = some m.0
last_message (_ ∷ t) = last_message t

module _ (k : Kernel) (accepts : Accepts k 1) where
  show-sent :
      (bs : Text) (prio : ℕ) (t u : Trace) (e : End)
      → show_message bs prio k t ≡ halted e u
      → (e ≡ exited 0)
        × (sent 1 u ≡ sent 1 t ++ (bs ++ 10 ∷ []))
        × (last_message u ≡ last_message t)
  unfolding show_message sent last_message
  show-sent bs prio t u e h =
      let one : Trace =
        (printf "Read %ld bytes; priority = %u\n" (num (length bs) ∷ num prio ∷ []), tt) ∷ t in
      let two : Trace = (write 1 bs (length bs), ok (length bs)) ∷ one in
      let first = accepts.write_ok one bs in
      let second = accepts.write_ok two (10 ∷ []) in
      ground (arith, first, second, take-length bs, append_assoc (sent 1 t) bs (10 ∷ []))

  abbrev Shows : Trace → Trace → Type 0
  Shows t u = (bs : Text) × (last_message u ≡ some bs) × (sent 1 u ≡ sent 1 t ++ (bs ++ 10 ∷ []))

  after_receive :
      (mqd n : ℕ) (t u : Trace) (r : Reply (Text × ℕ))
      → and_then
          (or_die "mq_receive\n" 1 r k ((mq_receive mqd n, r) ∷ t))
          (λ m. show_message m.0 m.1)
          k
        ≡ halted (exited 0) u
      → Shows t u
  unfolding sent last_message
  after_receive mqd n t u (ok (bs, prio)) h =
      let (_, s, l) = show-sent bs prio ((mq_receive mqd n, ok (bs, prio)) ∷ t) u (exited 0) h in
      (bs, l, s)
  after_receive mqd n t u (fail e) h = ground arith

  after_malloc :
      (mqd n : ℕ) (t u : Trace) (b : Bool)
      → and_then
          (allocate b k ((malloc n, b) ∷ t))
          (λ _. (call (mq_receive mqd n) >>= λ r. or_die "mq_receive\n" 1 r) >>= λ m.
            show_message m.0 m.1)
          k
        ≡ halted (exited 0) u
      → Shows t u
  unfolding sent
  after_malloc mqd n t u true h =
      let t' : Trace = (malloc n, true) ∷ t in after_receive mqd n t' u (k t' (mq_receive mqd n)) h
  after_malloc mqd n t u false h = ground arith

  after_size :
      (mqd : ℕ) (t u : Trace) (r : Reply ℕ)
      → and_then
          (or_die "mq_getattr\n" 1 r k ((mq_msgsize mqd, r) ∷ t))
          (λ n. call (malloc n) >>= λ b. allocate b >>= λ _.
            (call (mq_receive mqd n) >>= λ r. or_die "mq_receive\n" 1 r) >>= λ m.
            show_message m.0 m.1)
          k
        ≡ halted (exited 0) u
      → Shows t u
  unfolding sent
  after_size mqd t u (ok n) h =
      let t' : Trace = (mq_msgsize mqd, ok n) ∷ t in after_malloc mqd n t' u (k t' (malloc n)) h
  after_size mqd t u (fail e) h = ground arith

  -- If standard output takes every write and pmsg_receive.c ends with status 0 once the queue is open,
  -- then it took a message, and standard output has grown by exactly its bytes and a newline.
  pub take_message-sent :
      (mqd : ℕ) (t u : Trace)
      → take_message mqd k t ≡ halted (exited 0) u
      → (bs : Text) × (last_message u ≡ some bs) × (sent 1 u ≡ sent 1 t ++ (bs ++ 10 ∷ []))
  unfolding take_message sent last_message
  take_message-sent mqd t u h = after_size mqd t u (k t (mq_msgsize mqd)) h
