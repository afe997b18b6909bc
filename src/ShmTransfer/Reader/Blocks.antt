-- ===== src/ShmTransfer/Reader/Blocks.antt =====
-- What the reader shows of the blocks in the segment.
use linux_unix_system_progra.Prelude.{
  subst, ℕ, zero, suc, ◌<◌, ◌≡◌, refl, ap, sym, ◌∙◌, ◌≢◌, pos, inl, inr, [], ◌∷◌, ◌++◌, Text, arith,
  ==-refl, length, take-length,
}
use linux_unix_system_progra.Sys.{
  semget, shmat, Reply, ok, fail, shm_cnt, shm_buf, Trace, Kernel, End, exited, done, halted,
  and_then_done, and_then_halted, or_die, ◌>>◌, ◌>>=◌, Round, loop, Held, loop_done, loop_ends,
}
use linux_unix_system_progra.Sys.View.{sent, taken, given}
use linux_unix_system_progra.BinarySems.{defaults, reserve_sem, release_sem}
use linux_unix_system_progra.BinarySems.Counts.{
  reserve_sem-SameData, reserve_sem-halted, reserve_sem-given, reserve_sem-taken,
}
use linux_unix_system_progra.ShmTransfer.Keys.{sem_key, obj_perms, write_sem, read_sem}
use linux_unix_system_progra.ShmTransfer.Writer.{Totals}
use linux_unix_system_progra.ShmTransfer.Reader.{show_block, read_round, set_up, finish, main}

-- The writer fills the segment with `block 0`, `block 1` and so on, the next one whenever the reader
-- gives it a turn, and leaves it alone while the reader holds its own semaphore. What the segment
-- holds at other times is open.
pub record TakesTurns (k : Kernel) (semid seg : ℕ) (block : ℕ → Text) : Type 0 where
  pub cnt_ok :
      (t : Trace)
      → given semid write_sem t < taken semid read_sem t
      → k t (shm_cnt seg) ≡ pos (length (block (given semid write_sem t)))
  pub buf_ok :
      (t : Trace)
      → given semid write_sem t < taken semid read_sem t
      → k t (shm_buf seg) ≡ block (given semid write_sem t)

unfoldable pub joined : (ℕ → Text) → ℕ → Text
joined block zero = []
joined block (suc n) = joined block n ++ block n

-- The first `n` blocks are not empty.
abbrev pub AllFull : (ℕ → Text) → ℕ → Type 0
AllFull block zero = Unit
AllFull block (suc n) = AllFull block n × (length (block n) ≢ 0)

-- Standard output has exactly the first `n` blocks, and they are not empty.
abbrev pub Output : (ℕ → Text) → ℕ → Trace → Type 0
Output block n t = (sent 1 t ≡ joined block n) × AllFull block n

module _ (k : Kernel) (semid seg fuel : ℕ) (block : ℕ → Text)
    (turns : TakesTurns k semid seg block) where
  abbrev Shown : Totals → Trace → Type 0
  Shown s t =
      (given semid write_sem t ≡ taken semid read_sem t) × Output block (given semid write_sem t) t

  abbrev Ended : Totals → Trace → Type 0
  Ended s t =
      Output block (given semid write_sem t) t × (length (block (given semid write_sem t)) ≡ 0)

  module _ (t : Trace) (n : ℕ) (turn : taken semid read_sem t ≡ suc n)
      (given_n : given semid write_sem t ≡ n) where
    abbrev b : Text
    b = block n

    abbrev counted : Trace
    counted = (shm_cnt seg, pos (length b)) ∷ t

    abbrev counted_twice : Trace
    counted_twice = (shm_cnt seg, pos (length b)) ∷ counted

    abbrev loaded : Trace
    loaded = (shm_buf seg, b) ∷ counted_twice

    mine : given semid write_sem t < taken semid read_sem t
    mine = omega (arith, turn, given_n)

    cnt_1 : k t (shm_cnt seg) ≡ pos (length b)
    cnt_1 = turns.cnt_ok t mine ∙ ap (λ i. pos (length (block i))) given_n

    cnt_2 : k counted (shm_cnt seg) ≡ pos (length b)
    unfolding given taken
    cnt_2 = turns.cnt_ok counted mine ∙ ap (λ i. pos (length (block i))) given_n

    buf_3 : k counted_twice (shm_buf seg) ≡ b
    unfolding given taken
    buf_3 = turns.buf_ok counted_twice mine ∙ ap block given_n

    cnt_4 : k loaded (shm_cnt seg) ≡ pos (length b)
    unfolding given taken
    cnt_4 = turns.cnt_ok loaded mine ∙ ap (λ i. pos (length (block i))) given_n

    show_block-Shown :
        (s : Totals) (u : Trace) (r : Round Totals Totals)
        → Output block n t
        → show_block semid seg s k t ≡ done r u
        → Held Shown Ended r u
    unfolding show_block sent given taken release_sem joined
    show_block-Shown s u r c h =
        ground (arith, turn, given_n, cnt_1, cnt_2, buf_3, cnt_4, take-length b, ==-refl semid)

    show_block-exits :
        (s : Totals) (u : Trace) (e : End) → show_block semid seg s k t ≡ halted e u → e ≡ exited 1
    unfolding show_block release_sem
    show_block-exits s u e h = ground arith

  after_reserve :
      (t v : Trace)
      → Shown (record { xfrs = 0; bytes = 0 }) t
      → reserve_sem fuel defaults semid read_sem k t ≡ done (ok tt) v
      → (taken semid read_sem v ≡ suc (given semid write_sem t))
        × (given semid write_sem v ≡ given semid write_sem t)
        × Output block (given semid write_sem t) v
  after_reserve t v c h = (
    reserve_sem-taken defaults semid read_sem k (given semid write_sem t) fuel t v (ok tt) (sym c.0)
        h,
    reserve_sem-given defaults semid read_sem k write_sem (given semid write_sem t) fuel t v (ok tt)
        refl h,
    ((reserve_sem-SameData defaults semid read_sem k t fuel v (ok tt) h).0 1 ∙ c.1.0, c.1.1),
  )

  on_reserve :
      (x : Reply (Unit {0})) (s : Totals) (t v u : Trace) (r : Round Totals Totals)
      → Shown s t
      → reserve_sem fuel defaults semid read_sem k t ≡ done x v
      → (or_die "reserveSem\n" 1 x >> show_block semid seg s) k v ≡ done r u
      → Held Shown Ended r u
  on_reserve (fail e) s t v u r c g h = ground arith
  on_reserve (ok tt) s t v u r c g h =
      let (x, y, z) = after_reserve t v c g in
      show_block-Shown v (given semid write_sem t) x y s u r z h

  round-Shown :
      (s : Totals) (t u : Trace) (r : Round Totals Totals)
      → Shown s t
      → read_round fuel semid seg s k t ≡ done r u
      → Held Shown Ended r u
  unfolding read_round
  round-Shown s t u r c h =
      let (x, v, e, f) =
        and_then_done (reserve_sem fuel defaults semid read_sem k t)
          (λ x. or_die "reserveSem\n" 1 x >> show_block semid seg s) k h in
      on_reserve x s t v u r c e f

  round-exits :
      (s : Totals) (t u : Trace) (e : End)
      → read_round fuel semid seg s k t ≡ halted e u
      → e ≢ exited 0
  unfolding read_round show_block release_sem
  round-exits s t u e h = grind (arith, reserve_sem-halted)

  finish-sent :
      (s : Totals) (t u : Trace)
      → finish semid seg s k t ≡ halted (exited 0) u
      → (sent 1 u ≡ sent 1 t)
  unfolding finish sent release_sem
  finish-sent s t u h = ground arith

set_up-clean :
    (k : Kernel) (t u : Trace) (r : ℕ × ℕ)
    → set_up k t ≡ done r u
    → (sent 1 u ≡ sent 1 t)
      × (taken r.0 read_sem u ≡ taken r.0 read_sem t)
      × (given r.0 write_sem u ≡ given r.0 write_sem t)
unfolding set_up sent taken given
set_up-clean k t u r h = ground arith

set_up-exits : (k : Kernel) (t u : Trace) (e : End) → set_up k t ≡ halted e u → e ≡ exited 1
unfolding set_up
set_up-exits k t u e h = ground arith

-- The reader behind its set-up.
module _ (k : Kernel) (fuel semid seg : ℕ) (block : ℕ → Text) (turns : TakesTurns k semid seg block)
    (v u : Trace)
    (clean : (sent 1 v ≡ []) × (taken semid read_sem v ≡ 0) × (given semid write_sem v ≡ 0)) where
  abbrev start : Totals
  start = record { xfrs = 0; bytes = 0 }

  start-Shown : Shown k semid seg fuel block turns start v
  unfolding joined
  start-Shown = ground (arith, clean)

  loop_exits : loop fuel (read_round fuel semid seg) start k v ≡ halted (exited 0) u → ⊥
  loop_exits h =
      loop_ends (read_round fuel semid seg) k (λ e. e ≢ exited 0)
        (λ s t w e g. round-exits k semid seg fuel block turns s t w e g) (λ e. ground (arith, e))
        fuel start v u (exited 0) h refl

  after_set_up :
      (loop fuel (read_round fuel semid seg) start >>= λ s. finish semid seg s) k v
        ≡ halted (exited 0) u
      → (n : ℕ) × Output block n u × (length (block n) ≡ 0)
  after_set_up h =
      elim (and_then_halted (loop fuel (read_round fuel semid seg) start k v)
        (λ s. finish semid seg s) k h) [
          | inl g ↦ absurd (loop_exits g)
          | inr (s, w, g, p) ↦
              let (c, d) =
                loop_done (read_round fuel semid seg) k (Shown k semid seg fuel block turns)
                  (Ended k semid seg fuel block turns) (round-Shown k semid seg fuel block turns)
                  fuel start v w s start-Shown g in
              (
                given semid write_sem w,
                (finish-sent k semid seg fuel block turns s w u p ∙ c.0, c.1),
                d,
              )
        ]

set_up-ids :
    (k : Kernel) (semid seg : ℕ) (t u : Trace) (r : ℕ × ℕ)
    → ((t : Trace) → k t (semget sem_key [] obj_perms) ≡ ok semid)
    → ((t : Trace) (id : ℕ) → k t (shmat id) ≡ ok seg)
    → set_up k t ≡ done r u
    → r ≡ (semid, seg)
unfolding set_up
set_up-ids k semid seg t u r a b h = grind (arith, a, b)

-- If a writer takes turns with the reader, passing `block 0`, `block 1` and so on by the set of
-- semaphores and the segment that the reader opens, and the reader exits with status 0, then
-- standard output has, in order, exactly the blocks before the first empty one.
pub main-joined :
    (k : Kernel) (semid seg fuel : ℕ) (block : ℕ → Text) (u : Trace)
    → ((t : Trace) → k t (semget sem_key [] obj_perms) ≡ ok semid)
    → ((t : Trace) (id : ℕ) → k t (shmat id) ≡ ok seg)
    → TakesTurns k semid seg block
    → main fuel k [] ≡ halted (exited 0) u
    → (n : ℕ) × Output block n u × (length (block n) ≡ 0)
unfolding main sent taken given
main-joined k semid seg fuel block u a b turns h =
    elim (and_then_halted (set_up k [])
      (λ r. loop fuel (read_round fuel r.0 r.1) (record { xfrs = 0; bytes = 0 }) >>= λ s.
        finish r.0 r.1 s)
      k h) [
        | inl e ↦ absurd (ground (arith, set_up-exits k [] u (exited 0) e))
        | inr (r, v, e, f) ↦
            let same = set_up-ids k semid seg [] v r a b e in
            after_set_up k fuel r.0 r.1 block
              (subst (λ p. TakesTurns k p.0 p.1 block) (sym same) turns) v u
              (set_up-clean k [] v r e) f
      ]
