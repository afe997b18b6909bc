-- ===== src/ShmTransfer/Writer/Turns.antt =====
-- The blocks that the writer puts into the segment, one by one.
use linux_unix_system_progra.Prelude.{
  subst, ℕ, ◌≡◌, refl, ap, sym, ◌∙◌, ◌≢◌, inl, inr, List, [], ◌∷◌, ◌++◌, Text, arith, append-nil,
  append_assoc, length, ◌==◌, if◌then◌else◌,
}
use linux_unix_system_progra.Sys.{
  shmat, ok, set_shm_buf, Trace, Kernel, exited, done, halted, and_then_halted, ◌>>=◌, Round, next,
  leave, loop, Held, loop_done, loop_ends,
}
use linux_unix_system_progra.Sys.View.{stored, stored_blocks, stored_cnt}
use linux_unix_system_progra.BinarySems.{init_sem_available, init_sem_in_use, release_sem}
use linux_unix_system_progra.BinarySems.Counts.{reserve_sem-SameData, reserve_sem-halted}
use linux_unix_system_progra.ShmTransfer.Writer.{Totals, write_round, set_up, finish, main}
use linux_unix_system_progra.ShmTransfer.Writer.Blocks.{
  OwnCount, round-halted, set_up-halted, set_up-seg,
}

unfoldable pub joined_all : List Text → Text
joined_all [] = []
joined_all (b ∷ l) = b ++ joined_all l

-- No block is empty.
abbrev pub Full : List Text → Type 0
Full [] = Unit
Full (b ∷ l) = (length b ≢ 0) × Full l

pub joined_all-append : (l : List Text) (b : Text) → joined_all (l ++ b ∷ []) ≡ joined_all l ++ b
unfolding joined_all
joined_all-append [] b = append-nil b
joined_all-append (c ∷ l) b =
    ap (λ s. c ++ s) (joined_all-append l b) ∙ sym (append_assoc c (joined_all l) b)

Full-append : (l : List Text) (b : Text) → Full l → length b ≢ 0 → Full (l ++ b ∷ [])
Full-append [] b f n = (n, tt)
Full-append (c ∷ l) b (m, f) n = (m, Full-append l b f n)

-- The blocks end with the first empty one.
abbrev pub Complete : List Text → Type 0
Complete l = (full : List Text) × (l ≡ full ++ [] ∷ []) × Full full

abbrev pub EndsEmpty : ℕ → Trace → Type 0
EndsEmpty seg t = Complete (stored_blocks seg t)

-- The block stored last.
unfoldable pub latest : ℕ → Trace → Text
latest seg [] = []
latest seg ((set_shm_buf i bs, _) ∷ t) = if i == seg then bs else latest seg t
latest seg (_ ∷ t) = latest seg t

no_bytes : (b : Text) → length b ≡ 0 → b ≡ []
no_bytes [] h = refl
no_bytes (c ∷ b) h = ground arith

module _ (k : Kernel) (seg semid fuel : ℕ) (own : OwnCount k seg) where
  -- One round stores one block more, and goes on if it is not empty.
  abbrev Sized : Round Totals Totals → Trace → Type 0
  Sized (next s) u = length (latest seg u) ≢ 0
  Sized (leave s) u = length (latest seg u) ≡ 0

  round-grows :
      (s : Totals) (t u : Trace) (r : Round Totals Totals)
      → write_round fuel semid seg s k t ≡ done r u
      → (stored_blocks seg u ≡ stored_blocks seg t ++ latest seg u ∷ []) × Sized r u
  unfolding write_round stored_cnt stored_blocks latest release_sem
  round-grows s t u (leave a) h = grind (arith, reserve_sem-SameData, own.load_ok)
  round-grows s t u (next a) h = grind (arith, reserve_sem-SameData, own.load_ok)

  abbrev Going : Totals → Trace → Type 0
  Going _ t = Full (stored_blocks seg t)

  abbrev Over : Totals → Trace → Type 0
  Over _ t = EndsEmpty seg t

  round-Full :
      (s : Totals) (t u : Trace) (r : Round Totals Totals)
      → Going s t
      → write_round fuel semid seg s k t ≡ done r u
      → Held Going Over r u
  round-Full s t u (next a) f h =
      let (g, n) = round-grows s t u (next a) h in
      subst Full (sym g) (Full-append (stored_blocks seg t) (latest seg u) f n)
  round-Full s t u (leave a) f h =
      let (g, n) = round-grows s t u (leave a) h in
      (
        stored_blocks seg t,
        g ∙ ap (λ b. stored_blocks seg t ++ b ∷ []) (no_bytes (latest seg u) n),
        f,
      )

  finish-blocks :
      (shmid : ℕ) (s : Totals) (t u : Trace)
      → finish fuel semid shmid seg s k t ≡ halted (exited 0) u
      → stored_blocks seg u ≡ stored_blocks seg t
  unfolding finish stored_blocks
  finish-blocks shmid s t u h = grind (arith, reserve_sem-SameData, reserve_sem-halted)

  start_run :
      (shmid : ℕ) (start : Totals) (v u : Trace)
      → stored_blocks seg v ≡ []
      → (loop fuel (write_round fuel semid seg) start >>= λ s. finish fuel semid shmid seg s) k v
        ≡ halted (exited 0) u
      → EndsEmpty seg u
  start_run shmid start v u clean h =
      elim (and_then_halted (loop fuel (write_round fuel semid seg) start k v)
        (λ s. finish fuel semid shmid seg s) k h) [
          | inl g ↦ absurd (
              loop_ends (write_round fuel semid seg) k (λ e. e ≢ exited 0)
                (λ s t w e f. round-halted k seg semid fuel own s t w e f) (λ e. ground (arith, e))
                fuel start v u (exited 0) g refl)
          | inr (s, w, g, f) ↦ subst Complete (sym (finish-blocks shmid s w u f)) (
              loop_done (write_round fuel semid seg) k Going Over round-Full fuel start v w s
                (subst Full (sym clean) tt) g)
        ]

set_up-blocks :
    (k : Kernel) (seg : ℕ) (t u : Trace) (r : ℕ × ℕ × ℕ)
    → set_up k t ≡ done r u
    → stored_blocks seg u ≡ stored_blocks seg t
unfolding set_up init_sem_available init_sem_in_use stored_blocks
set_up-blocks k seg t u r h = ground arith

-- Under the conditions of `main-stored`, the blocks that the writer stored end with the first empty
-- one.
pub main-EndsEmpty :
    (k : Kernel) (seg fuel : ℕ) (u : Trace)
    → ((t : Trace) (id : ℕ) → k t (shmat id) ≡ ok seg)
    → OwnCount k seg
    → main fuel k [] ≡ halted (exited 0) u
    → EndsEmpty seg u
unfolding main stored_blocks
main-EndsEmpty k seg fuel u attached own h =
    let start : Totals = record { xfrs = 0; bytes = 0 } in
    elim (and_then_halted (set_up k [])
      (λ r. loop fuel (write_round fuel r.0 r.2) start >>= λ s. finish fuel r.0 r.1 r.2 s) k h) [
        | inl e ↦ absurd (ground (arith, set_up-halted k [] u (exited 0) e))
        | inr (r, v, e, f) ↦
            start_run k seg r.0 fuel own r.1 start v u (set_up-blocks k seg [] v r e) (
              subst
                (λ g.
                  (loop fuel (write_round fuel r.0 g) start >>= λ s. finish fuel r.0 r.1 g s) k v
                  ≡ halted (exited 0) u)
                (set_up-seg k seg [] v r attached e) f)
      ]

-- The blocks, joined, are the bytes that were stored.
pub joined_all-stored : (seg : ℕ) (t : Trace) → joined_all (stored_blocks seg t) ≡ stored seg t
unfolding stored stored_blocks joined_all
joined_all-stored seg [] = refl
joined_all-stored seg ((set_shm_buf i bs, x) ∷ t) =
    let ih = joined_all-stored seg t in
    ground (arith, ih, joined_all-append (stored_blocks seg t) bs)
joined_all-stored seg (_ ∷ t) = joined_all-stored seg t
