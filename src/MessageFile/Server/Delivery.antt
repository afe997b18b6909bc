-- ===== src/MessageFile/Server/Delivery.antt =====
-- What the server puts into the queue of a client.
use linux_unix_system_progra.Prelude.{
  ℕ, ◌≡◌, List, [], ◌∷◌, ◌++◌, Text, codes, length, take, ◌⊎◌, some,
}
use linux_unix_system_progra.Sys.{Errno, ok, fail, o_rdonly, open_file, msgsnd, Trace, Kernel}
use linux_unix_system_progra.Sys.View.{received, last_read, delivered, bodies, sizes}
use linux_unix_system_progra.MessageFile.Protocol.{
  Request, resp_mt_failure, resp_mt_data, req_msg_size,
}

-- The data messages so far are, in order, what was read.
abbrev pub Passed : ℕ → ℕ → Trace → Type 0
Passed id fd t =
    (bodies resp_mt_data (delivered id t) ≡ received fd t)
    × (sizes (delivered id t) ≡ length (received fd t))

-- The last read on the file found its end, or failed.
abbrev pub AtEnd : ℕ → Trace → Type 0
AtEnd fd t = (last_read fd t ≡ some (ok [])) ⊎ ((e : Errno) × (last_read fd t ≡ some (fail e)))

-- The queue takes every message.
pub record Takes (k : Kernel) (id : ℕ) : Type 0 where
  pub send_ok : (t : Trace) (type : ℕ) (bs : Text) (n : ℕ) → k t (msgsnd id type bs n []) ≡ ok tt

abbrev pub refusal : Text → Text
refusal pathname = codes "file " ++ pathname ++ codes " couldn't open\n"

-- What the client finds in its queue: where the file did not open, a notice of failure; where it opened
-- as `fd`, the bytes read from `fd` up to the last read in data messages, and the message that ends it.
pub data Delivery (stack : ℕ × Text) (req : Request) (k : Kernel) (u : Trace) : Type 0 where
  refused :
      (e : Errno)
      → k [] (open_file req.pathname (o_rdonly ∷ []) 0) ≡ fail e
      → delivered req.client_id u ≡ (resp_mt_failure, take req_msg_size (refusal req.pathname)) ∷ []
      → Delivery stack req k u
  served :
      (fd : ℕ) (data_messages : List (ℕ × Text))
      → k [] (open_file req.pathname (o_rdonly ∷ []) 0) ≡ ok fd
      → delivered req.client_id u ≡ data_messages ++ (stack.0, take req_msg_size stack.1) ∷ []
      → bodies resp_mt_data data_messages ≡ received fd u
      → sizes data_messages ≡ length (received fd u)
      → AtEnd fd u
      → Delivery stack req k u
