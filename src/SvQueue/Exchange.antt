-- ===== src/SvQueue/Exchange.antt =====
-- One message from svmsg_send.c to svmsg_receive.c.
use linux_unix_system_progra.Prelude.{
  ◌+◌, ◌≤◌, ◌<◌, ◌≡◌, ap, subst, ◌∙◌, true, false, [], ◌∷◌, ◌++◌, List, Text, length, drop, take,
  arith, Option, none, some, ltb, ℤ, c_string, IsCString, c_string-append, take_all, length-append,
  append_assoc,
}
use linux_unix_system_progra.Sys.{
  IpcFlag, Event, Trace, Kernel, End, exited, halted, queue_send, printf, str, int, num, ok,
}
use linux_unix_system_progra.SvQueue.Send
use linux_unix_system_progra.SvQueue.Receive.{show_message}

-- The message that a queue took last, as many bytes as it was given as its size, and the text that was
-- shown last.
unfoldable pub last_sent : Trace → Option Text
last_sent [] = none
last_sent ((queue_send _ _ bs n _, ok _) ∷ t) = some (take n bs)
last_sent (_ ∷ t) = last_sent t

pub last_shown : Trace → Option Text
last_shown [] = none
last_shown ((printf _ (str s ∷ []), _) ∷ t) = some s
last_shown (_ ∷ t) = last_shown t

-- svmsg_send.c, past its options and with a text.
sent_message :
    (flags : List IpcFlag) (id type text : Text) (k : Kernel) (t u : Trace)
    → Send.send flags (id ∷ type ∷ text ∷ []) k t ≡ halted (exited 0) u
    → (last_sent u ≡ some (text ++ 0 ∷ [])) × (length text + 1 ≤ Send.max_mtext)
unfolding Send.send Send.message last_sent
sent_message flags id type text k t u h =
    let whole =
      take_all (length text + 1) (text ++ 0 ∷ []) (omega (arith, length-append text (0 ∷ []))) in
    ground (arith, whole)

show-last_shown :
    (garbage s bs : Text) (mtype : ℤ) (k : Kernel) (t u : Trace) (e : End)
    → length bs ≤ Send.max_mtext
    → 0 < length bs
    → c_string (bs ++ drop (length bs) garbage) ≡ some s
    → show_message garbage mtype bs k t ≡ halted e u
    → (e ≡ exited 0) × (last_shown u ≡ some s)
unfolding show_message last_shown
show-last_shown garbage s bs mtype k t u e le lt c h =
    let fits : ltb Send.max_mtext (length bs) ≡ false = ground (arith, le) in
    let some_bytes : ltb 0 (length bs) ≡ true = ground (arith, lt) in
    let head : Event =
      (printf "Received: type=%ld; length=%ld" (int mtype ∷ num (length bs) ∷ []), tt) in
    let all : Trace = (printf "\n" [], tt) ∷ (printf "; body=%s" (str s ∷ []), tt) ∷ head ∷ t in
    let run : show_message garbage mtype bs k t ≡ halted (exited 0) all =
      rw (fits, some_bytes, c) in
    ground (arith, run, h)

shown_message :
    (garbage text : Text) (mtype : ℤ) (k : Kernel) (t u : Trace) (e : End)
    → IsCString text
    → length text + 1 ≤ Send.max_mtext
    → show_message garbage mtype (text ++ 0 ∷ []) k t ≡ halted e u
    → (e ≡ exited 0) × (last_shown u ≡ some text)
shown_message garbage text mtype k t u e c le h =
    let rest = drop (length (text ++ 0 ∷ [])) garbage in
    show-last_shown garbage text (text ++ 0 ∷ []) mtype k t u e
      (omega (arith, length-append text (0 ∷ []), le)) (omega (arith, length-append text (0 ∷ [])))
      (ap c_string (append_assoc text (0 ∷ []) rest) ∙ c_string-append text rest c) h

-- If svmsg_send.c ends with status 0 after an id, a type and a text, and svmsg_receive.c is given the
-- bytes of the message that the queue took, of the size that msgsnd was given, then it shows exactly the
-- text and ends with status 0, whatever was in its buffer before.
pub show-send :
    (flags : List IpcFlag) (id type text garbage bs : Text) (mtype : ℤ) (k k' : Kernel)
    (t t' u v : Trace) (e : End)
    → IsCString text
    → Send.send flags (id ∷ type ∷ text ∷ []) k t ≡ halted (exited 0) u
    → last_sent u ≡ some bs
    → show_message garbage mtype bs k' t' ≡ halted e v
    → (e ≡ exited 0) × (last_shown v ≡ some text)
show-send flags id type text garbage bs mtype k k' t t' u v e c h took h' =
    let (whole, le) = sent_message flags id type text k t u h in
    let same : bs ≡ text ++ 0 ∷ [] = ground (arith, whole, took) in
    shown_message garbage text mtype k' t' v e c le
      (subst (λ b. show_message garbage mtype b k' t' ≡ halted e v) same h')
