-- ===== src/ShmTransfer/Writer/Blocks.antt =====
-- What the writer puts into the segment.
use linux_unix_system_progra.Prelude.{
  subst, ℕ, ◌%◌, ◌^◌, bits_int, ◌≡◌, refl, ap, sym, ◌∙◌, ◌≢◌, some, inl, inr, [], ◌∷◌, arith,
  append-nil, length, length-append,
}
use linux_unix_system_progra.Sys.{
  shmat, ok, int, shm_cnt, Trace, Kernel, End, exited, done, halted, and_then_halted, ◌>>=◌, Round,
  loop, Held, loop_done, loop_ends,
}
use linux_unix_system_progra.Sys.View.{received, stored, stored_cnt, last_report}
use linux_unix_system_progra.BinarySems.{init_sem_available, init_sem_in_use, release_sem}
use linux_unix_system_progra.BinarySems.Counts.{reserve_sem-SameData, reserve_sem-halted}
use linux_unix_system_progra.ShmTransfer.Writer.{Totals, write_round, set_up, finish, main}

-- Only the writer stores a count, so a load finds the last one that it stored.
pub record OwnCount (k : Kernel) (seg : ℕ) : Type 0 where
  pub load_ok : (t : Trace) → k t (shm_cnt seg) ≡ stored_cnt seg t

module _ (k : Kernel) (seg semid fuel : ℕ) (own : OwnCount k seg) where
  abbrev Stored : Totals → Trace → Type 0
  Stored s t = (stored seg t ≡ received 0 t) × (s.bytes ≡ length (received 0 t) % 2 ^ 32)

  round-Stored :
      (s : Totals) (t u : Trace) (r : Round Totals Totals)
      → Stored s t
      → write_round fuel semid seg s k t ≡ done r u
      → Held Stored Stored r u
  unfolding write_round received stored stored_cnt release_sem
  round-Stored s t u r c h =
      grind (arith, reserve_sem-SameData, own.load_ok, append-nil, length-append {0})

  pub round-halted :
      (s : Totals) (t u : Trace) (e : End)
      → write_round fuel semid seg s k t ≡ halted e u
      → e ≢ exited 0
  unfolding write_round release_sem
  round-halted s t u e h = grind (arith, reserve_sem-halted)

  finish-exited :
      (shmid : ℕ) (s : Totals) (t u : Trace)
      → finish fuel semid shmid seg s k t ≡ halted (exited 0) u
      → (received 0 u ≡ received 0 t)
        × (stored seg u ≡ stored seg t)
        × (last_report u
            ≡ some
                ("Sent %d bytes (%d xfrs)\n", int (bits_int s.bytes) ∷ int (bits_int s.xfrs) ∷ []))
  unfolding finish received stored last_report
  finish-exited shmid s t u h = grind (arith, reserve_sem-SameData, reserve_sem-halted)

pub set_up-halted : (k : Kernel) (t u : Trace) (e : End) → set_up k t ≡ halted e u → e ≡ exited 1
unfolding set_up init_sem_available init_sem_in_use
set_up-halted k t u e h = ground arith

set_up-data :
    (k : Kernel) (seg : ℕ) (t u : Trace) (r : ℕ × ℕ × ℕ)
    → set_up k t ≡ done r u
    → (received 0 u ≡ received 0 t) × (stored seg u ≡ stored seg t)
unfolding set_up init_sem_available init_sem_in_use received stored
set_up-data k seg t u r h = ground arith

-- The loop and the end, from the segment that was set up.
module _ (k : Kernel) (seg semid shmid fuel : ℕ) (own : OwnCount k seg) (v u : Trace)
    (none_stored : stored seg v ≡ []) (none_read : received 0 v ≡ []) where
  abbrev start : Totals
  start = record { xfrs = 0; bytes = 0 }

  start-Stored : Stored k seg semid fuel own start v
  start-Stored = (none_stored ∙ sym none_read, ap (λ s. length s % 2 ^ 32) (sym none_read))

  loop_exits : loop fuel (write_round fuel semid seg) start k v ≡ halted (exited 0) u → ⊥
  loop_exits h =
      loop_ends (write_round fuel semid seg) k (λ e. e ≢ exited 0)
        (λ s t w e g. round-halted k seg semid fuel own s t w e g) (λ e. ground (arith, e)) fuel
        start v u (exited 0) h refl

  after_set_up :
      (loop fuel (write_round fuel semid seg) start >>= λ s. finish fuel semid shmid seg s) k v
        ≡ halted (exited 0) u
      → (xfrs : ℕ) × (stored seg u ≡ received 0 u)
        × (last_report u
            ≡ some (
              "Sent %d bytes (%d xfrs)\n",
              int (bits_int (length (received 0 u) % 2 ^ 32)) ∷ int (bits_int xfrs) ∷ [],
            ))
  after_set_up h =
      elim (and_then_halted (loop fuel (write_round fuel semid seg) start k v)
        (λ s. finish fuel semid shmid seg s) k h) [
          | inl g ↦ absurd (loop_exits g)
          | inr (s, w, g, p) ↦
              let (c, b) =
                loop_done (write_round fuel semid seg) k (Stored k seg semid fuel own)
                  (Stored k seg semid fuel own) (round-Stored k seg semid fuel own) fuel start v w s
                  start-Stored g in
              let (x, y, z) = finish-exited k seg semid fuel own shmid s w u p in
              (s.xfrs, ground (arith, c, x, y), ground (arith, z, b, x))
        ]

pub set_up-seg :
    (k : Kernel) (seg : ℕ) (t u : Trace) (r : ℕ × ℕ × ℕ)
    → ((t : Trace) (id : ℕ) → k t (shmat id) ≡ ok seg)
    → set_up k t ≡ done r u
    → r.2 ≡ seg
unfolding set_up init_sem_available init_sem_in_use
set_up-seg k seg t u r attached h = grind (arith, attached)

-- If the segment is `seg`, only the writer stores its count, and the writer exits with status 0, then
-- the blocks that it stored into the segment are, in order, exactly the bytes that standard input
-- gave, and the byte count that it reports is their number as an `int`, modulo 2 ^ 32.
pub main-stored :
    (k : Kernel) (seg fuel : ℕ) (u : Trace)
    → ((t : Trace) (id : ℕ) → k t (shmat id) ≡ ok seg)
    → OwnCount k seg
    → main fuel k [] ≡ halted (exited 0) u
    → (xfrs : ℕ) × (stored seg u ≡ received 0 u)
      × (last_report u
          ≡ some (
            "Sent %d bytes (%d xfrs)\n",
            int (bits_int (length (received 0 u) % 2 ^ 32)) ∷ int (bits_int xfrs) ∷ [],
          ))
unfolding main received stored
main-stored k seg fuel u attached own h =
    let start : Totals = record { xfrs = 0; bytes = 0 } in
    elim (and_then_halted (set_up k [])
      (λ r. loop fuel (write_round fuel r.0 r.2) start >>= λ s. finish fuel r.0 r.1 r.2 s) k h) [
        | inl e ↦ absurd (ground (arith, set_up-halted k [] u (exited 0) e))
        | inr (r, v, e, f) ↦
            let same = set_up-seg k seg [] v r attached e in
            let (a, b) = set_up-data k seg [] v r e in
            after_set_up k seg r.0 r.1 fuel own v u b a (
              subst
                (λ g.
                  (loop fuel (write_round fuel r.0 g) start >>= λ s. finish fuel r.0 r.1 g s) k v
                  ≡ halted (exited 0) u)
                same f)
      ]
